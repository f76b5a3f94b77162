-- ===== src/Worker/Progress.antt =====
-- The rounds of `drainOnce` in worker.go, and how it ends.
use opencrow.Prelude.{
  ℕ, zero, suc, ◌≤◌, ◌<◌, ◌≡◌, refl, inl, inr, List, [], ◌∷◌, Option, none, some, arith, length,
  Bool-cases, Option-cases, ◌==◌,
}
use opencrow.Database.{Inbox, Db, no_rows, failed, Result, ok, err, exec_cases, later}
use opencrow.Inbox.{dequeue, first_row, without, take_row, is_user}
use opencrow.Inbox.Rules.{batch_rule}
use opencrow.Inbox.Lanes.{first_row-eq-none}
use opencrow.Worker.State.{Config, World}
use opencrow.Worker.Prompt.{process_item}
use opencrow.Worker.Size.{size, process_item-Shrinks, length-delete-le}
use opencrow.Worker.Drain.{
  DrainEnd, drained, out_of_fuel, merge_user_items, drain_round, drain_once, merge_if_user,
  round_of, go_on, requeued, shut_down, database_failed,
}

-- Taking a row makes the inbox smaller.
length-without :
    (rs : List Inbox) (x : Inbox) → first_row rs ≡ some x → length (without x rs) < length rs
unfolding first_row
length-without [] x e = cc
length-without (r ∷ rs) x e = elim (Option-cases (first_row rs)) [
  | inl n ↦ ground (arith, length-delete-le (λ y. y.id == x.id) rs)
  | inr (y, s) ↦ ground (arith, length-without rs y s, length-delete-le (λ z. z.id == x.id) rs)
]

-- What a dequeue says of the rows.
Takes : List Inbox → Result Inbox × Db → Type 0
Takes rs (err no_rows, db') = db'.inbox ≡ []
Takes rs (err failed, db') = Unit
Takes rs (ok x, db') = length db'.inbox < length rs

dequeue-Takes : (db : Db) → Takes db.inbox (dequeue db)
unfolding dequeue Takes
dequeue-Takes db = exec_cases (Takes db.inbox) _ db (λ _. tt) (λ _. taken (first_row db.inbox) refl)
  where
    taken : (o : Option Inbox) → first_row db.inbox ≡ o → Takes db.inbox (take_row o (later db))
    taken none e = first_row-eq-none db.inbox e
    taken (some x) e = length-without db.inbox x e

size-merge_if_user :
    (c : Config) (returned : List Inbox → List Inbox) (item : Inbox) (w : World)
    → size (merge_if_user c returned item w).1 ≤ size w
unfolding merge_user_items
size-merge_if_user c returned item w = ground (
  arith,
  batch_rule (λ d. length d.inbox ≤ length w.db.inbox) w.db (omega arith) returned
      (length-delete-le is_user w.db.inbox),
)

-- A round ends the loop or leaves less to take; it says that the inbox is drained only if it is.
Rounds : World → Option DrainEnd × World → Type 0
Rounds w (some drained, w') = w'.db.inbox ≡ []
Rounds w (some out_of_fuel, w') = ⊥
Rounds w (some _, w') = Unit
Rounds w (none, w') = size w' < size w

-- An end of the loop that is not for want of fuel.
pub data Finished : DrainEnd × World → Type 0 where
  emptied : (w : World) → w.db.inbox ≡ [] → Finished (drained, w)
  stopped : (w : World) → Finished (requeued, w)
  closed : (w : World) → Finished (shut_down, w)
  broken : (w : World) → Finished (database_failed, w)

module _ (c : Config) (returned : List Inbox → List Inbox) where
  round_of-Rounds :
      (r : Result Inbox × Db) (w : World) → Takes w.db.inbox r → Rounds w (round_of c returned r w)
  unfolding Rounds Takes
  round_of-Rounds (err no_rows, db') w h = h
  round_of-Rounds (err failed, db') w h = tt
  round_of-Rounds (ok item, db') w h =
      let (item', w') = merge_if_user c returned item (record w { db = db' }) in
      elim (Bool-cases (process_item c item' w').0) [
        | inl e ↦ rw e tt
        | inr e ↦ rw e (
            omega (
              arith,
              h,
              process_item-Shrinks c item' w' e,
              size-merge_if_user c returned item (record w { db = db' }),
            ))
      ]

  drain_round-Rounds : (w : World) → Rounds w (drain_round c returned w)
  unfolding drain_round Rounds
  drain_round-Rounds w = elim (Bool-cases w.shutdown) [
    | inl e ↦ simp e tt
    | inr e ↦ simp e (round_of-Rounds (dequeue w.db) w (dequeue-Takes w.db))
  ]

  go_on-Finished :
      (fuel : ℕ) (w : World) (r : Option DrainEnd × World)
      → size w < suc fuel
      → Rounds w r
      → ((w' : World) → size w' < fuel → Finished (drain_once c returned fuel w'))
      → Finished (go_on c returned (drain_once c returned fuel) r)
  unfolding Rounds
  go_on-Finished fuel w (some drained, w') lt h ih = emptied w' h
  go_on-Finished fuel w (some requeued, w') lt h ih = stopped w'
  go_on-Finished fuel w (some shut_down, w') lt h ih = closed w'
  go_on-Finished fuel w (some database_failed, w') lt h ih = broken w'
  go_on-Finished fuel w (some out_of_fuel, w') lt h ih = absurd h
  go_on-Finished fuel w (none, w') lt h ih = ih w' (omega arith)

  -- The loop over the inbox ends within one round more than there are rows in the inbox and rows that
  -- other goroutines enqueue meanwhile: because an item was put back, because of a shutdown, because
  -- the database failed, or because the inbox is drained, and then no row is left.
  pub drain_once_finishes :
      (fuel : ℕ) (w : World) → size w < fuel → Finished (drain_once c returned fuel w)
  unfolding drain_once
  drain_once_finishes zero w h = absurd (omega arith)
  drain_once_finishes (suc fuel) w h =
      go_on-Finished fuel w (drain_round c returned w) h (drain_round-Rounds w)
        (drain_once_finishes fuel)
