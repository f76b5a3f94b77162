-- ===== src/Inbox/Heartbeats.antt =====
-- `EnqueueHeartbeat` of inbox.go, and the heartbeat markers among the rows.
use opencrow.Prelude.{
  ℕ, ◌+◌, ◌≤◌, ◌≡◌, refl, ap, ◌∙◌, inl, inr, Bool, true, false, not, List, [], ◌∷◌, ◌++◌,
  if◌then◌else◌, ltb, arith, delete, select, exists, length, Bool-cases,
}
use opencrow.Database.{Source, Inbox, Db, ok, exec_then, later, IsUp, pure, ◌>>=◌}
use opencrow.Inbox.Rules.{
  enqueue_rule, dequeue_rule, batch_rule, heartbeat_rule, store_rule, requeue_rule,
}
use opencrow.Inbox.{
  enqueue_heartbeat, is_heartbeat, is_user, is_stale, new_row, insert_row, priority_heartbeat,
}
use opencrow.Inbox.Ids.{
  Access, enqueued, dequeued, requeued, batched, beaten, reopened, History, start, next,
}

abbrev pub heartbeats : Db → ℕ
heartbeats db = length (select is_heartbeat db.inbox)

-- At most one heartbeat marker is pending.
abbrev pub IsSingle : Db → Type 0
IsSingle db = heartbeats db ≤ 1

select-delete-le :
    (p q : Inbox → Bool) (rs : List Inbox) → length (select p (delete q rs)) ≤ length (select p rs)
select-delete-le p q [] = omega arith
select-delete-le p q (r ∷ rs) = ground (arith, select-delete-le p q rs)

exists-false : (p : Inbox → Bool) (rs : List Inbox) → exists p rs ≡ false → length (select p rs) ≡ 0
exists-false p [] h = refl
exists-false p (r ∷ rs) h = ground (arith, exists-false p rs)

length-select-snoc :
    (p : Inbox → Bool) (rs : List Inbox) (r : Inbox)
    → length (select p (rs ++ r ∷ [])) ≡ length (select p rs) + (if p r then 1 else 0)
length-select-snoc p [] r = ground arith
length-select-snoc p (x ∷ rs) r = ground (arith, length-select-snoc p rs r)

delete-IsSingle :
    (q : Inbox → Bool) (db : Db)
    → IsSingle db
    → length (select is_heartbeat (delete q db.inbox)) ≤ 1
delete-IsSingle q db h = omega (arith, select-delete-le is_heartbeat q db.inbox)

insert-IsSingle :
    (db : Db) (r : Inbox)
    → is_heartbeat r ≡ false
    → IsSingle db
    → length (select is_heartbeat (db.inbox ++ r ∷ [])) ≤ 1
insert-IsSingle db r e h =
    omega
      (arith, length-select-snoc is_heartbeat db.inbox r, ap {B = ℕ} (λ b. if b then 1 else 0) e)

Access-IsSingle : {db db' : Db} → Access db db' → IsSingle db → IsSingle db'
Access-IsSingle {db} (enqueued p s c r ne) h =
    enqueue_rule IsSingle db h p s c r (insert-IsSingle db _ (ground arith) h)
Access-IsSingle {db} dequeued h = dequeue_rule IsSingle db h (λ x. delete-IsSingle _ db h)
Access-IsSingle {db} (requeued item) h = requeue_rule IsSingle db item h (λ e.
    enqueue_rule IsSingle db h item.priority item.source item.content item.reply_to
      (insert-IsSingle db _ e h))
Access-IsSingle {db} (batched returned) h =
    batch_rule IsSingle db h returned (delete-IsSingle is_user db h)
Access-IsSingle {db} beaten h = heartbeat_rule IsSingle db h (λ e. omega (
  arith,
  length-select-snoc is_heartbeat db.inbox (new_row db 2 Source.heartbeat [] []),
  exists-false is_heartbeat db.inbox e,
))
Access-IsSingle {db} reopened h = store_rule IsSingle db h (delete-IsSingle is_stale db h)

-- After any history of calls on the inbox, failed ones among them, at most one heartbeat marker is
-- pending, if at most one was at its start and nobody enqueues one but `enqueue_heartbeat`.
pub History-IsSingle : {db db' : Db} → IsSingle db → History db db' → IsSingle db'
History-IsSingle h start = h
History-IsSingle h (next r a) = Access-IsSingle a (History-IsSingle h r)

exists-append_self :
    (p : Inbox → Bool) (rs : List Inbox) (r : Inbox) → p r ≡ true → exists p (rs ++ r ∷ []) ≡ true
exists-append_self p [] r h = ground arith
exists-append_self p (x ∷ rs) r h = ground (arith, exists-append_self p rs r h)

enqueue_heartbeat_up :
    (db : Db)
    → IsUp db
    → enqueue_heartbeat db ≡ (
        if exists is_heartbeat db.inbox then (ok false, later db) else (
          ok true,
          insert_row (new_row db priority_heartbeat Source.heartbeat [] []) (later db),
        ))
unfolding enqueue_heartbeat
enqueue_heartbeat_up db up = elim (Bool-cases (exists is_heartbeat db.inbox)) [
  | inl e ↦ rw e (exec_then _ (λ n. pure (ltb 0 n)) db up ∙ rw (e, ◌>>=◌) (rw e))
  | inr e ↦ rw e (exec_then _ (λ n. pure (ltb 0 n)) db up ∙ rw (e, ◌>>=◌) (rw e))
]

-- While the database answers, `enqueue_heartbeat` says true exactly when no marker was pending; it
-- adds one marker then and changes no row otherwise, so that a marker is pending in both cases.
enqueue_heartbeat_once :
    (db : Db)
    → IsUp db
    → ((enqueue_heartbeat db).0 ≡ ok (not (exists is_heartbeat db.inbox)))
      × ((enqueue_heartbeat db).1.inbox ≡ (
          if exists is_heartbeat db.inbox
          then db.inbox
          else db.inbox ++ new_row db priority_heartbeat Source.heartbeat [] [] ∷ []))
      × (exists is_heartbeat (enqueue_heartbeat db).1.inbox ≡ true)
enqueue_heartbeat_once db up =
    rw (enqueue_heartbeat_up db up) (elim (Bool-cases (exists is_heartbeat db.inbox)) [
      | inl e ↦ rw e (refl, refl, e)
      | inr e ↦ rw e (refl, refl, exists-append_self is_heartbeat db.inbox _ refl)
    ])
