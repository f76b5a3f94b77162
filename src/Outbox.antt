-- ===== src/Outbox.antt =====
-- outbox.go with its queries of queries.sql_sqlc.go: the text of each sent message, by
-- conversation and message id, at most 500 to a conversation.
--
-- The rows of `sent_messages` stand in the order of their rowids: the table gives a new row the
-- largest rowid so far plus one, so a new row comes last.
pub mod Window
pub mod Replies
pub mod Recent
pub mod Frames
use opencrow.Prelude.{
  ℕ, zero, suc, ◌-◌, Bool, true, false, ◌&&◌, List, [], ◌∷◌, Option, none, some, ltb, if◌then◌else◌,
  length, select,
}
use opencrow.Prelude.Text.{Text, text_eq, is_empty}
use opencrow.Database.{
  SentMessage, Db, Query, Result, ok, err, no_rows, exec, transaction, ◌>>=◌, ◌>>◌,
}

abbrev pub max_outbox_per_conversation : ℕ
max_outbox_per_conversation = 500

abbrev pub in_conversation : Text → SentMessage → Bool
in_conversation c r = text_eq r.conversation_id c

abbrev pub has_key : Text → Text → SentMessage → Bool
has_key c m r = text_eq r.conversation_id c && text_eq r.message_id m

-- INSERT ... ON CONFLICT(conversation_id, message_id) DO UPDATE SET text
unfoldable pub upsert_row : Text → Text → Text → List SentMessage → List SentMessage
upsert_row c m t [] = record { conversation_id = c; message_id = m; text = t } ∷ []
upsert_row c m t (r ∷ rs) =
    if has_key c m r then record r { text = t } ∷ rs else r ∷ upsert_row c m t rs

-- The first `n` rows of the conversation go.
unfoldable pub delete_oldest_rows : Text → ℕ → List SentMessage → List SentMessage
delete_oldest_rows c zero rs = rs
delete_oldest_rows c (suc n) [] = []
delete_oldest_rows c (suc n) (r ∷ rs) =
    if in_conversation c r then delete_oldest_rows c n rs else r ∷ delete_oldest_rows c (suc n) rs

unfoldable pub find_text : Text → Text → List SentMessage → Option Text
find_text c m [] = none
find_text c m (r ∷ rs) = if has_key c m r then some r.text else find_text c m rs

unfoldable pub upsert_outbox : Text → Text → Text → Query (Unit {0})
upsert_outbox c m t =
    exec λ db. (ok tt, record db { sent_messages = upsert_row c m t db.sent_messages })

unfoldable pub count_outbox : Text → Query ℕ
count_outbox c = exec λ db. (ok (length (select (in_conversation c) db.sent_messages)), db)

unfoldable pub delete_oldest_outbox : Text → ℕ → Query (Unit {0})
delete_oldest_outbox c limit =
    exec λ db. (ok tt, record db { sent_messages = delete_oldest_rows c limit db.sent_messages })

abbrev pub found : Option Text → Query Text
found none db = (err no_rows, db)
found (some t) db = (ok t, db)

unfoldable pub get_outbox : Text → Text → Query Text
get_outbox c m = exec λ db. found (find_text c m db.sent_messages) db

-- The eviction of `Put`, given the count.
unfoldable pub evict_excess : Text → ℕ → Query (Unit {0})
unfolding delete_oldest_outbox
evict_excess c count db =
    if ltb max_outbox_per_conversation count
    then delete_oldest_outbox c (count - max_outbox_per_conversation) db
    else (ok tt, db)

-- The statements of the transaction in `Put`.
unfoldable pub put_statements : Text → Text → Text → Query (Unit {0})
unfolding upsert_outbox count_outbox
put_statements c m t = do upsert_outbox c m t; count ← count_outbox c; evict_excess c count

-- Every error is logged and dropped.
unfoldable pub put : Text → Text → Text → Db → Db
unfolding transaction put_statements
put c m t db = if is_empty m then db else (transaction (put_statements c m t) db).1

-- The empty text where there is no such message.
abbrev pub or_empty : Result Text → Text
or_empty (ok t) = t
or_empty (err e) = []

unfoldable pub get : Text → Text → Db → Text × Db
unfolding get_outbox
get c m db = if is_empty m then ([], db) else let (r, db') = get_outbox c m db in (or_empty r, db')
