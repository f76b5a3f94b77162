-- ===== src/Inbox.antt =====
-- inbox.go with the queries of queries.sql_sqlc.go that it calls: a persistent priority queue.
--
-- Each query is the meaning of its SQL statement on the list of rows, which keeps the rows in the
-- order of their ids. SQLite does not say in which order DELETE ... RETURNING hands out rows, so
-- that order is a parameter of `dequeue_user_items`.
pub mod Rules
pub mod Ids
pub mod Lanes
pub mod Heartbeats
pub mod Batch
use opencrow.Prelude.{
  ℕ, ◌+◌, Bool, true, false, ◌&&◌, ◌||◌, List, [], ◌∷◌, ◌++◌, Option, none, some, ltb, leb, ◌==◌,
  if◌then◌else◌, length, select, delete, exists,
}
use opencrow.Prelude.Text.{Text}
use opencrow.Database.{
  Source, Inbox, Db, Query, Result, ok, err, no_rows, failed, exec, ◌>>=◌, ◌>>◌, pure,
}

abbrev pub priority_user : ℕ
priority_user = 0

abbrev pub priority_trigger : ℕ
priority_trigger = 1

abbrev pub priority_heartbeat : ℕ
priority_heartbeat = 2

-- The row that an INSERT with these values adds.
abbrev pub new_row : Db → ℕ → Source → Text → Text → Inbox
new_row db priority source content reply_to = record {
  id = db.inbox_seq;
  priority = priority;
  source = source;
  content = content;
  reply_to = reply_to;
}

abbrev pub insert_row : Inbox → Db → Db
insert_row r db = record db { inbox = db.inbox ++ r ∷ []; inbox_seq = db.inbox_seq + 1 }

unfoldable pub enqueue_inbox : ℕ → Source → Text → Text → Query (Unit {0})
enqueue_inbox priority source content reply_to =
    exec λ db. (ok tt, insert_row (new_row db priority source content reply_to) db)

-- ORDER BY priority ASC, id ASC
abbrev pub before : Inbox → Inbox → Bool
before a b = ltb a.priority b.priority || (a.priority == b.priority && ltb a.id b.id)

abbrev pub first_of_two : Inbox → Option Inbox → Inbox
first_of_two x none = x
first_of_two x (some y) = if before y x then y else x

unfoldable pub first_row : List Inbox → Option Inbox
first_row [] = none
first_row (x ∷ xs) = some (first_of_two x (first_row xs))

abbrev pub without : Inbox → List Inbox → List Inbox
without x = delete λ r. r.id == x.id

abbrev pub take_row : Option Inbox → Query Inbox
take_row none db = (err no_rows, db)
take_row (some x) db = (ok x, record db { inbox = without x db.inbox })

unfoldable pub dequeue_inbox : Query Inbox
dequeue_inbox = exec λ db. take_row (first_row db.inbox) db

abbrev pub is_user : Inbox → Bool
is_user r = elim r.source [ Source.user ↦ true | _ ↦ false ]

abbrev pub is_heartbeat : Inbox → Bool
is_heartbeat r = elim r.source [ Source.heartbeat ↦ true | _ ↦ false ]

-- source IN ('heartbeat', 'compact')
abbrev pub is_stale : Inbox → Bool
is_stale r = elim r.source [ Source.heartbeat ↦ true | Source.compact ↦ true | _ ↦ false ]

unfoldable pub dequeue_user_items : (List Inbox → List Inbox) → Query (List Inbox)
dequeue_user_items returned =
    exec
      λ db. (ok (returned (select is_user db.inbox)), record db { inbox = delete is_user db.inbox })

unfoldable pub delete_stale_items : Query (Unit {0})
delete_stale_items = exec λ db. (ok tt, record db { inbox = delete is_stale db.inbox })

unfoldable pub count_inbox : Query ℕ
count_inbox = exec λ db. (ok (length db.inbox), db)

-- The number of rows that the statement inserts.
unfoldable pub enqueue_heartbeat_if_empty : ℕ → Query ℕ
enqueue_heartbeat_if_empty priority = exec λ db.
    if exists is_heartbeat db.inbox
    then (ok 0, db)
    else (ok 1, insert_row (new_row db priority Source.heartbeat [] []) db)

-- `NewInboxStore`: the store itself is the connection.
unfoldable pub new_inbox_store : Query (Unit {0})
unfolding delete_stale_items
new_inbox_store = delete_stale_items

unfoldable pub enqueue : ℕ → Source → Text → Text → Query (Unit {0})
unfolding enqueue_inbox
enqueue priority source content reply_to = enqueue_inbox priority source content reply_to

unfoldable pub dequeue : Query Inbox
unfolding dequeue_inbox
dequeue = dequeue_inbox

-- Heartbeat markers are dropped, and nothing is asked of the database for them.
unfoldable pub requeue : Inbox → Query (Unit {0})
unfolding enqueue_inbox
requeue item =
    if is_heartbeat item
    then pure tt
    else enqueue_inbox item.priority item.source item.content item.reply_to

-- `slices.SortFunc` by id, as an insertion sort.
unfoldable pub insert_by_id : Inbox → List Inbox → List Inbox
insert_by_id x [] = x ∷ []
insert_by_id x (y ∷ ys) = if leb x.id y.id then x ∷ y ∷ ys else y ∷ insert_by_id x ys

unfoldable pub sort_by_id : List Inbox → List Inbox
sort_by_id [] = []
sort_by_id (x ∷ xs) = insert_by_id x (sort_by_id xs)

unfoldable pub dequeue_user_batch : (List Inbox → List Inbox) → Query (List Inbox)
unfolding dequeue_user_items
dequeue_user_batch returned = do items ← dequeue_user_items returned; pure (sort_by_id items)

unfoldable pub count : Query ℕ
unfolding count_inbox
count = count_inbox

unfoldable pub enqueue_heartbeat : Query Bool
unfolding enqueue_heartbeat_if_empty
enqueue_heartbeat = do n ← enqueue_heartbeat_if_empty priority_heartbeat; pure (ltb 0 n)
