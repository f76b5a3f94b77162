-- ===== src/Inbox/Lanes.antt =====
-- `Enqueue` and `Dequeue` of inbox.go on the rows of one priority, its lane.
use opencrow.Prelude.{
  ℕ, suc, ◌≤◌, ◌<◌, ◌≡◌, ◌≢◌, refl, ap, inl, inr, List, [], ◌∷◌, ◌++◌, Option, none, some, ◌==◌,
  if◌then◌else◌, arith, select, Bool-cases, Option-cases, subst, select-append,
}
use opencrow.Prelude.Text.{Text}
use opencrow.Database.{Source, Inbox, Db, Result, ok, err, no_rows, exec_up, later, IsUp}
use opencrow.Inbox.{enqueue, dequeue, first_row, first_of_two, without, before, new_row, take_row}
use opencrow.Inbox.Ids.{Rising, IsOrdered}

-- The pending rows of one priority, oldest first.
abbrev pub lane : ℕ → List Inbox → List Inbox
lane p = select λ r. r.priority == p

-- The row that `first_row` picks heads the lane of its priority, no lane of a more urgent priority
-- holds a row, and taking it out leaves the other lanes alone.
pub record IsNext (x : Inbox) (rs : List Inbox) : Type 0 where
  pub heads : lane x.priority rs ≡ x ∷ lane x.priority (without x rs)
  pub urgent : (p : ℕ) → p < x.priority → lane p rs ≡ []
  pub others : (p : ℕ) → p ≢ x.priority → lane p (without x rs) ≡ lane p rs

without_absent :
    (x : Inbox) (lo : ℕ) (rs : List Inbox) (hi : ℕ)
    → x.id < lo
    → Rising lo rs hi
    → without x rs ≡ rs
without_absent x lo [] hi lt h = refl
without_absent x lo (r ∷ rs) hi lt h = ground (arith, without_absent x (suc r.id) rs hi)

first_row-id :
    (lo : ℕ) (rs : List Inbox) (hi : ℕ) (y : Inbox)
    → Rising lo rs hi
    → first_row rs ≡ some y
    → lo ≤ y.id
unfolding first_row
first_row-id lo [] hi y h e = cc
first_row-id lo (r ∷ rs) hi y h e = elim (Option-cases (first_row rs)) [
  | inl n ↦ ground arith
  | inr (z, s) ↦ ground (arith, first_row-id (suc r.id) rs hi z h.1 s)
]

-- The first of `x ∷ rs` is `x`.
stays-IsNext :
    (x : Inbox) (rs : List Inbox) (hi : ℕ)
    → Rising (suc x.id) rs hi
    → ((p : ℕ) → p < x.priority → lane p rs ≡ [])
    → IsNext x (x ∷ rs)
stays-IsNext x rs hi h urgent =
    let same : without x rs ≡ rs = without_absent x (suc x.id) rs hi (omega arith) h in
    record {
      heads = ground (arith, same);
      urgent = λ p lt. ground (arith, urgent p lt);
      others = λ p ne. ground (arith, same);
    }

-- The first of `x ∷ rs` is that of `rs`.
passes-IsNext :
    (x y : Inbox) (rs : List Inbox)
    → x.id < y.id
    → y.priority < x.priority
    → IsNext y rs
    → IsNext y (x ∷ rs)
passes-IsNext x y rs older less n = record {
  heads = ground (arith, n.heads);
  urgent = λ p lt. ground (arith, n.urgent p lt);
  others = λ p ne. ground (arith, n.others p ne);
}

pub first_row-eq-none : (rs : List Inbox) → first_row rs ≡ none → rs ≡ []
unfolding first_row
first_row-eq-none [] e = refl
first_row-eq-none (r ∷ rs) e = cc

first_of_two-IsNext :
    (r : Inbox) (rs : List Inbox) (hi : ℕ) (o : Option Inbox)
    → Rising (suc r.id) rs hi
    → first_row rs ≡ o
    → ((y : Inbox) → first_row rs ≡ some y → IsNext y rs)
    → IsNext (first_of_two r o) (r ∷ rs)
first_of_two-IsNext r rs hi none h e ih =
    stays-IsNext r rs hi h (λ p _. ap (lane p) (first_row-eq-none rs e))
first_of_two-IsNext r rs hi (some y) h e ih =
    let younger = first_row-id (suc r.id) rs hi y h e in
    elim (Bool-cases (before y r)) [
      | inl b ↦ rw b (passes-IsNext r y rs younger (ground arith) (ih y e))
      | inr b ↦ rw b (stays-IsNext r rs hi h (λ p lt. (ih y e).urgent p (ground arith)))
    ]

pub first_row-IsNext :
    (lo : ℕ) (rs : List Inbox) (hi : ℕ) (x : Inbox)
    → Rising lo rs hi
    → first_row rs ≡ some x
    → IsNext x rs
unfolding first_row
first_row-IsNext lo [] hi x h e = cc
first_row-IsNext lo (r ∷ rs) hi x h e =
    subst (λ y. IsNext y (r ∷ rs)) (cc)
      (first_of_two-IsNext r rs hi (first_row rs) h.1 refl
        (λ y s. first_row-IsNext (suc r.id) rs hi y h.1 s))

-- What a dequeue promises of the lanes.
pub data Dequeued (rs : List Inbox) : Result Inbox → List Inbox → Type 0 where
  drained : rs ≡ [] → Dequeued rs (err no_rows) rs
  took :
      {x : Inbox} {rs' : List Inbox}
      → lane x.priority rs ≡ x ∷ lane x.priority rs'
      → ((p : ℕ) → p < x.priority → lane p rs ≡ [])
      → ((p : ℕ) → p ≢ x.priority → lane p rs' ≡ lane p rs)
      → Dequeued rs (ok x) rs'

-- While the database answers, `dequeue` on ordered rows takes the oldest row of the most urgent
-- lane that is not empty and leaves every other lane as it was; on an empty inbox it reports that
-- there is no row, and changes nothing.
pub dequeue-Dequeued :
    (db : Db) → IsOrdered db → IsUp db → Dequeued db.inbox (dequeue db).0 (dequeue db).1.inbox
unfolding dequeue
dequeue-Dequeued db h up = rw (exec_up _ db up) (taken (first_row db.inbox) refl)
  where
    taken :
        (o : Option Inbox)
        → first_row db.inbox ≡ o
        → Dequeued db.inbox (take_row o (later db)).0 (take_row o (later db)).1.inbox
    taken none e = drained (first_row-eq-none db.inbox e)
    taken (some x) e =
        let n = first_row-IsNext 0 db.inbox db.inbox_seq x h e in took n.heads n.urgent n.others

-- While the database answers, `enqueue` adds the new row at the end of the lane of its priority
-- and leaves every other lane as it was.
lane-enqueue :
    (priority : ℕ) (source : Source) (content reply_to : Text) (db : Db) (p : ℕ)
    → IsUp db
    → lane p (enqueue priority source content reply_to db).1.inbox
      ≡ lane p db.inbox
        ++ (if priority == p then new_row db priority source content reply_to ∷ [] else [])
unfolding enqueue
lane-enqueue priority source content reply_to db p up =
    rw (exec_up _ db up) (select-append _ db.inbox _)
