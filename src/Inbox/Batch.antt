-- ===== src/Inbox/Batch.antt =====
-- `DequeueUserBatch` of inbox.go, and the order of its rows.
use mathlib.Core.List.{
  Perm, Permᴰ, Mem, mem-cons_self, mem-cons_of_mem, eq-or-mem_of_mem-cons, not-mem-nil,
}
use mathlib.Core.List.Perm
use mathlib.Core.Logic.{∥∥₁_elim}
use mathlib.Core.Logic.Or
use native.Mathlib.Bridge.{le_prop}
use opencrow.Prelude.{
  ℕ, suc, ◌≤◌, ◌≡◌, refl, ap, sym, ◌∙◌, inl, inr, Bool, List, [], ◌∷◌, arith, select, delete,
  Bool-cases,
}
use opencrow.Database.{Inbox, Db, ok, exec_then, IsUp, later, pure}
use opencrow.Inbox.{is_user, insert_by_id, sort_by_id, dequeue_user_batch}
use opencrow.Inbox.Ids.{Rising, IsOrdered, Rising-weaken}

-- A row is known by its id among these rows.
abbrev Distinct : List Inbox → Type 0
Distinct rs = (a b : Inbox) → Mem a rs → Mem b rs → a.id ≡ b.id → a ≡ b

insert_by_id_comm :
    (a b : Inbox) (rs : List Inbox)
    → (a.id ≡ b.id → a ≡ b)
    → insert_by_id a (insert_by_id b rs) ≡ insert_by_id b (insert_by_id a rs)
unfolding insert_by_id
insert_by_id_comm a b [] h = ground arith
insert_by_id_comm a b (r ∷ rs) h = ground (arith, insert_by_id_comm a b rs h)

Inbox-set : IsSet Inbox
Inbox-set = hlevel

rows_set : IsSet (List Inbox)
rows_set = hlevel Inbox-set

Distinct-tail : (x : Inbox) (rs : List Inbox) → Distinct (x ∷ rs) → Distinct rs
Distinct-tail x rs d a b m n = d a b (mem-cons_of_mem x m) (mem-cons_of_mem x n)

Distinct-perm : {rs rs' : List Inbox} → Perm rs rs' → Distinct rs → Distinct rs'
Distinct-perm p d a b m n = d a b ((Perm.mem_iff p).1 m) ((Perm.mem_iff p).1 n)

-- Sorting forgets the order in which rows of distinct ids come.
sort_by_id-perm :
    {rs rs' : List Inbox} → Permᴰ rs rs' → Distinct rs → sort_by_id rs ≡ sort_by_id rs'
unfolding sort_by_id
sort_by_id-perm Permᴰ.nil d = refl
sort_by_id-perm (Permᴰ.cons {a = a} {b = b} {l₁ = rs} e p) d =
    cc (e, sort_by_id-perm p (Distinct-tail a rs d))
sort_by_id-perm (Permᴰ.swap {a = a} {b = b} {l = l} e f) d =
    insert_by_id_comm a b (sort_by_id l) (d a b mem-cons_self (mem-cons_of_mem a mem-cons_self))
    ∙ cc (e, f)
sort_by_id-perm (Permᴰ.trans p q) d =
    sort_by_id-perm p d ∙ sort_by_id-perm q (Distinct-perm ∣ p ∣₁ d)

insert_by_id_least :
    (x : Inbox) (rs : List Inbox) (hi : ℕ) → Rising (suc x.id) rs hi → insert_by_id x rs ≡ x ∷ rs
unfolding insert_by_id
insert_by_id_least x [] hi h = refl
insert_by_id_least x (r ∷ rs) hi h = ground arith

-- Rows that rise are sorted already.
sort_by_id-Rising : (lo : ℕ) (rs : List Inbox) (hi : ℕ) → Rising lo rs hi → sort_by_id rs ≡ rs
unfolding sort_by_id
sort_by_id-Rising lo [] hi h = refl
sort_by_id-Rising lo (r ∷ rs) hi h =
    rw (sort_by_id-Rising (suc r.id) rs hi h.1) (insert_by_id_least r rs hi h.1)

Rising-mem :
    (lo : ℕ) (rs : List Inbox) (hi : ℕ) (a : Inbox) → Rising lo rs hi → Mem a rs → lo ≤ a.id
Rising-mem lo [] hi a h m = absurd (not-mem-nil m)
Rising-mem lo (r ∷ rs) hi a h m =
    Or.elim le_prop (eq-or-mem_of_mem-cons m) (λ e. rw e h.0)
      (λ n. omega (arith, h.0, Rising-mem (suc r.id) rs hi a h.1 n))

Rising-Distinct : (lo : ℕ) (rs : List Inbox) (hi : ℕ) → Rising lo rs hi → Distinct rs
Rising-Distinct lo [] hi h a b m n e = absurd (not-mem-nil m)
Rising-Distinct lo (r ∷ rs) hi h a b m n e =
    Or.elim (Inbox-set a b) (eq-or-mem_of_mem-cons m)
      (λ p.
        Or.elim (Inbox-set a b) (eq-or-mem_of_mem-cons n) (λ q. p ∙ sym q)
          (λ n'. absurd (omega (arith, ap Inbox.id p, Rising-mem (suc r.id) rs hi b h.1 n'))))
      (λ m'.
        Or.elim (Inbox-set a b) (eq-or-mem_of_mem-cons n)
          (λ q. absurd (omega (arith, ap Inbox.id q, Rising-mem (suc r.id) rs hi a h.1 m')))
          (λ n'. Rising-Distinct (suc r.id) rs hi h.1 a b m' n' e))

Rising-select :
    (p : Inbox → Bool) (lo : ℕ) (rs : List Inbox) (hi : ℕ)
    → Rising lo rs hi
    → Rising lo (select p rs) hi
Rising-select p lo [] hi h = h
Rising-select p lo (r ∷ rs) hi h =
    let ih = Rising-select p (suc r.id) rs hi h.1 in
    elim (Bool-cases (p r)) [
      | inl e ↦ rw e (h.0, ih)
      | inr e ↦ rw e (Rising-weaken (suc r.id) lo (select p rs) hi (omega arith) ih)
    ]

sort_by_id-returned :
    (rs rs' : List Inbox) (hi : ℕ) → Rising 0 rs hi → Perm rs rs' → sort_by_id rs' ≡ rs
sort_by_id-returned rs rs' hi h p =
    ∥∥₁_elim p (rows_set (sort_by_id rs') rs)
      (λ q. sym (sort_by_id-perm q (Rising-Distinct 0 rs hi h)) ∙ sort_by_id-Rising 0 rs hi h)

-- While the database answers, the batch is all user rows in the order in which they were inserted,
-- whatever order SQLite returns them in, and exactly the other rows stay behind.
pub dequeue_user_batch-sorted :
    (returned : List Inbox → List Inbox)
    → ((rs : List Inbox) → Perm rs (returned rs))
    → (db : Db) → IsOrdered db
    → IsUp db
    → ((dequeue_user_batch returned db).0 ≡ ok (select is_user db.inbox))
      × ((dequeue_user_batch returned db).1.inbox ≡ delete is_user db.inbox)
unfolding dequeue_user_batch
dequeue_user_batch-sorted returned perm db h up =
    let e : dequeue_user_batch returned db ≡ (
      ok (sort_by_id (returned (select is_user db.inbox))),
      record (later db) { inbox = delete is_user db.inbox },
    ) =
      exec_then _ (λ items. pure (sort_by_id items)) db up in
    rw e (
      ap ok (
          sort_by_id-returned _ _ db.inbox_seq (Rising-select is_user 0 db.inbox db.inbox_seq h)
            (perm _)),
      refl,
    )
