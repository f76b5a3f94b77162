-- ===== src/Inbox/Rules.antt =====
-- One rule for each call of inbox.go: what holds of the database after the call, from what holds
-- of the rows that it leaves.
use opencrow.Prelude.{
  ◌≡◌, inl, inr, false, List, Option, none, some, delete, exists, Bool-cases, [], ltb, ℕ,
}
use opencrow.Prelude.Text.{Text}
use opencrow.Database.{Source, Inbox, Db, exec_cases, >>=_keeps, later, pure}
use opencrow.Inbox.{
  priority_heartbeat, new_row, insert_row, enqueue, dequeue, requeue, dequeue_user_items,
  dequeue_user_batch, sort_by_id, enqueue_heartbeat_if_empty, enqueue_heartbeat, new_inbox_store,
  first_row, without, take_row, is_heartbeat, is_user, is_stale,
}

module _ (P : Db → Type 0) (db : Db) (fails : P (later db)) where
  pub enqueue_rule :
      (priority : ℕ) (source : Source) (content reply_to : Text)
      → P (insert_row (new_row db priority source content reply_to) (later db))
      → P (enqueue priority source content reply_to db).1
  unfolding enqueue
  enqueue_rule priority source content reply_to h =
      exec_cases (λ r. P r.1) _ db (λ _. fails) (λ _. h)

  pub dequeue_rule :
      ((x : Inbox) → P (record (later db) { inbox = without x db.inbox })) → P (dequeue db).1
  unfolding dequeue
  dequeue_rule h = exec_cases (λ r. P r.1) _ db (λ _. fails) (λ _. taken (first_row db.inbox))
    where
      taken : (o : Option Inbox) → P (take_row o (later db)).1
      taken none = fails
      taken (some x) = h x

  pub batch_rule :
      (returned : List Inbox → List Inbox)
      → P (record (later db) { inbox = delete is_user db.inbox })
      → P (dequeue_user_batch returned db).1
  unfolding dequeue_user_batch
  batch_rule returned h =
      >>=_keeps P (dequeue_user_items returned) (λ items. pure (sort_by_id items)) db
        (unfold dequeue_user_items in exec_cases (λ r. P r.1) _ db (λ _. fails) (λ _. h))
        (λ _ _ k. k)

  pub heartbeat_rule :
      (exists is_heartbeat db.inbox ≡ false
        → P (insert_row (new_row db priority_heartbeat Source.heartbeat [] []) (later db)))
      → P (enqueue_heartbeat db).1
  unfolding enqueue_heartbeat
  heartbeat_rule h =
      >>=_keeps P (enqueue_heartbeat_if_empty priority_heartbeat) (λ n. pure (ltb 0 n)) db
        (unfold enqueue_heartbeat_if_empty in
          exec_cases (λ r. P r.1) _ db (λ _. fails)
            (λ _. elim (Bool-cases (exists is_heartbeat db.inbox)) [
              | inl e ↦ rw e fails
              | inr e ↦ rw e (h e)
            ]))
        (λ _ _ k. k)

  pub store_rule :
      P (record (later db) { inbox = delete is_stale db.inbox }) → P (new_inbox_store db).1
  unfolding new_inbox_store
  store_rule h = exec_cases (λ r. P r.1) _ db (λ _. fails) (λ _. h)

-- A heartbeat marker is not asked for again, so its requeue leaves the database as it was.
pub requeue_rule :
    (P : Db → Type 0) (db : Db) (item : Inbox)
    → P db
    → (is_heartbeat item ≡ false
        → P (enqueue item.priority item.source item.content item.reply_to db).1)
    → P (requeue item db).1
unfolding requeue enqueue
requeue_rule P db item skips h = elim (Bool-cases (is_heartbeat item)) [
  | inl e ↦ rw e skips
  | inr e ↦ rw e (h e)
]
