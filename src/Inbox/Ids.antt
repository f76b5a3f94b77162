-- ===== src/Inbox/Ids.antt =====
-- The ids of the rows along a history of the calls of inbox.go.
use opencrow.Prelude.{
  ℕ, suc, ◌+◌, ◌≤◌, ◌≢◌, inl, inr, Bool, List, [], ◌∷◌, ◌++◌, arith, delete, Bool-cases,
}
use opencrow.Prelude.Text.{Text}
use opencrow.Database.{Source, Inbox, Db}
use opencrow.Inbox.Rules.{
  enqueue_rule, dequeue_rule, batch_rule, heartbeat_rule, store_rule, requeue_rule,
}
use opencrow.Inbox.{
  enqueue, dequeue, requeue, dequeue_user_batch, enqueue_heartbeat, new_inbox_store, is_user,
  is_stale,
}

-- The ids rise along the list, from `lo` on and below `hi`.
abbrev pub Rising : ℕ → List Inbox → ℕ → Type 0
Rising lo [] hi = lo ≤ hi
Rising lo (r ∷ rs) hi = (lo ≤ r.id) × Rising (suc r.id) rs hi

abbrev pub IsOrdered : Db → Type 0
IsOrdered db = Rising 0 db.inbox db.inbox_seq

pub Rising-weaken :
    (lo lo' : ℕ) (rs : List Inbox) (hi : ℕ) → lo' ≤ lo → Rising lo rs hi → Rising lo' rs hi
Rising-weaken lo lo' [] hi le h = omega arith
Rising-weaken lo lo' (r ∷ rs) hi le h = (omega arith, h.1)

Rising-snoc :
    (lo : ℕ) (rs : List Inbox) (r : Inbox) → Rising lo rs r.id → Rising lo (rs ++ r ∷ []) (r.id + 1)
Rising-snoc lo [] r h = (h, omega arith)
Rising-snoc lo (x ∷ rs) r h = (h.0, Rising-snoc (suc x.id) rs r h.1)

pub Rising-delete :
    (p : Inbox → Bool) (lo : ℕ) (rs : List Inbox) (hi : ℕ)
    → Rising lo rs hi
    → Rising lo (delete p rs) hi
Rising-delete p lo [] hi h = h
Rising-delete p lo (r ∷ rs) hi h =
    let ih = Rising-delete p (suc r.id) rs hi h.1 in
    elim (Bool-cases (p r)) [
      | inl e ↦ rw e (Rising-weaken (suc r.id) lo (delete p rs) hi (omega arith) ih)
      | inr e ↦ rw e (h.0, ih)
    ]

-- One call on the inbox, as the program makes them: no caller enqueues a heartbeat by `enqueue`.
pub data Access : Db → Db → Type 0 where
  enqueued :
      {db : Db} (priority : ℕ) (source : Source) (content reply_to : Text)
      → source ≢ Source.heartbeat
      → Access db (enqueue priority source content reply_to db).1
  dequeued : {db : Db} → Access db (dequeue db).1
  requeued : {db : Db} (item : Inbox) → Access db (requeue item db).1
  batched :
      {db : Db} (returned : List Inbox → List Inbox) → Access db (dequeue_user_batch returned db).1
  beaten : {db : Db} → Access db (enqueue_heartbeat db).1
  reopened : {db : Db} → Access db (new_inbox_store db).1

-- A history of such calls; each may fail.
pub data History (db : Db) : Db → Type 0 where
  start : History db db
  next : {db' db'' : Db} → History db db' → Access db' db'' → History db db''

Access-IsOrdered : {db db' : Db} → Access db db' → IsOrdered db → IsOrdered db'
Access-IsOrdered {db} (enqueued p s c r _) h =
    enqueue_rule IsOrdered db h p s c r (Rising-snoc 0 db.inbox _ h)
Access-IsOrdered {db} dequeued h =
    dequeue_rule IsOrdered db h (λ x. Rising-delete _ 0 db.inbox db.inbox_seq h)
Access-IsOrdered {db} (requeued item) h = requeue_rule IsOrdered db item h (λ _.
    enqueue_rule IsOrdered db h item.priority item.source item.content item.reply_to
      (Rising-snoc 0 db.inbox _ h))
Access-IsOrdered {db} (batched returned) h =
    batch_rule IsOrdered db h returned (Rising-delete is_user 0 db.inbox db.inbox_seq h)
Access-IsOrdered {db} beaten h = heartbeat_rule IsOrdered db h (λ _. Rising-snoc 0 db.inbox _ h)
Access-IsOrdered {db} reopened h =
    store_rule IsOrdered db h (Rising-delete is_stale 0 db.inbox db.inbox_seq h)

-- After any history of calls on the inbox, failed ones among them, the rows still stand in the
-- order of their ids, each id once and below the next id.
History-IsOrdered : {db db' : Db} → IsOrdered db → History db db' → IsOrdered db'
History-IsOrdered h start = h
History-IsOrdered h (next r a) = Access-IsOrdered a (History-IsOrdered h r)
