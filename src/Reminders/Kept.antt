-- ===== src/Reminders/Kept.antt =====
-- `dispatchDueReminders` of heartbeat.go while queries fail.
use mathlib.Core.List.{Perm, Permᴰ}
use mathlib.Core.Logic.{∥∥₁_elim}
use opencrow.Prelude.{
  ℕ, ◌+◌, ◌≡◌, refl, ap, ◌∙◌, inl, inr, Bool, true, false, List, [], ◌∷◌, ◌++◌, arith, select,
  delete, if◌then◌else◌, Bool-cases,
}
use opencrow.Prelude.Text.{Text, text_eq}
use opencrow.Database.{Reminder, Db, exec, next_fault, later_faults}
use opencrow.Inbox.{enqueue}
use opencrow.Worker.State.{World, notify}
use opencrow.Reminders.{
  reminder_text, insert_reminder, fire, fire_all, is_due, dispatch_due_reminders,
}

-- The sum of a measure over a list.
abbrev pub tally : {A : Type 0} → (A → ℕ) → List A → ℕ
tally f [] = 0
tally f (x ∷ xs) = f x + tally f xs

tally-append :
    {A : Type 0} (f : A → ℕ) (xs ys : List A) → tally f (xs ++ ys) ≡ tally f xs + tally f ys
tally-append f [] ys = omega arith
tally-append f (x ∷ xs) ys = omega (arith, tally-append f xs ys)

tally-select-delete :
    {A : Type 0} (f : A → ℕ) (p : A → Bool) (xs : List A)
    → tally f (select p xs) + tally f (delete p xs) ≡ tally f xs
tally-select-delete f p [] = omega arith
tally-select-delete f p (x ∷ xs) = ground (arith, tally-select-delete f p xs)

tally-permᴰ : {A : Type 0} (f : A → ℕ) {xs ys : List A} → Permᴰ xs ys → tally f xs ≡ tally f ys
tally-permᴰ f Permᴰ.nil = refl
tally-permᴰ f (Permᴰ.cons {a = a} {b = b} e p) = omega (arith, ap f e, tally-permᴰ f p)
tally-permᴰ f (Permᴰ.swap {a = a} {b = b} {l = l} e g) = omega (arith, ap f e, ap f g)
tally-permᴰ f (Permᴰ.trans p q) = tally-permᴰ f p ∙ tally-permᴰ f q

nat_set : IsSet ℕ
nat_set = hlevel

tally-perm : {A : Type 0} (f : A → ℕ) {xs ys : List A} → Perm xs ys → tally f xs ≡ tally f ys
tally-perm f {xs} {ys} p = ∥∥₁_elim p (nat_set (tally f xs) (tally f ys)) (tally-permᴰ f)

abbrev one_if : Bool → ℕ
one_if b = if b then 1 else 0

-- In how many rows the text stands: as the content of an inbox row, or as what a reminder that
-- still waits is to put there.
abbrev pub copies : Text → Db → ℕ
copies t db =
    tally (λ r. one_if (text_eq t r.content)) db.inbox
    + tally (λ r. one_if (text_eq t (reminder_text r))) db.reminders

-- No two failures stand next to each other.
abbrev pub Spaced : List Bool → Type 0
Spaced [] = Unit
Spaced (b ∷ bs) = (b ≡ true → next_fault bs ≡ false) × Spaced bs

Spaced-later : (fs : List Bool) → Spaced fs → Spaced (later_faults fs)
Spaced-later [] h = tt
Spaced-later (b ∷ bs) h = h.1

Spaced-next :
    (fs : List Bool) → Spaced fs → next_fault fs ≡ true → next_fault (later_faults fs) ≡ false
Spaced-next [] h e = cc
Spaced-next (b ∷ bs) h e = h.0 e

-- The id is not part of the text.
reminder_text-id :
    (r : Reminder) (n : ℕ)
    → reminder_text (record { id = n; fire_at = r.fire_at; prompt = r.prompt }) ≡ reminder_text r
unfolding reminder_text
reminder_text-id r n = refl

-- A state in which the text stands `n` times, and whose failures are spaced.
abbrev Holds : Text → ℕ → World → Type 0
Holds t n w = (copies t w.db ≡ n) × Spaced w.db.faults

fire-Holds :
    (t : Text) (n : ℕ) (r : Reminder) (w : World)
    → copies t w.db + one_if (text_eq t (reminder_text r)) ≡ n
    → Spaced w.db.faults
    → Holds t n (fire r w)
unfolding fire enqueue exec notify insert_reminder
fire-Holds t n r w h s = elim (Bool-cases (next_fault w.db.faults)) [
  | inl e ↦
      rw (e, Spaced-next w.db.faults s e)
        (
          omega (
            arith,
            tally-append (λ r'. one_if (text_eq t (reminder_text r'))) w.db.reminders
                (record r { id = w.db.reminders_seq } ∷ []),
            ap (λ x. one_if (text_eq t x)) (reminder_text-id r w.db.reminders_seq),
          ),
          Spaced-later _ (Spaced-later _ s),
        )
  | inr e ↦ rw e (
    omega (arith, tally-append (λ x. one_if (text_eq t x.content)) w.db.inbox _),
    Spaced-later _ s,
  )
]

fire_all-Holds :
    (t : Text) (n : ℕ) (rs : List Reminder) (w : World)
    → copies t w.db + tally (λ r. one_if (text_eq t (reminder_text r))) rs ≡ n
    → Spaced w.db.faults
    → copies t (fire_all rs w).db ≡ n
unfolding fire_all
fire_all-Holds t n [] w h s = omega arith
fire_all-Holds t n (r ∷ rs) w h s =
    let (k, s') = fire-Holds t (copies t w.db + one_if (text_eq t (reminder_text r))) r w refl s in
    fire_all-Holds t n rs (fire r w) (omega (arith, k, h)) s'

-- Unless two queries in a row fail, a dispatch loses and doubles nothing: each text stands in the
-- inbox and among the waiting reminders together as often as before, whatever order the due ones
-- are returned in.
pub dispatch_due_reminders-keeps :
    (datetime_le : Text → Text → Bool) (returned : List Reminder → List Reminder)
    → ((rs : List Reminder) → Perm rs (returned rs))
    → (t now : Text) (w : World) → Spaced w.db.faults
    → copies t (dispatch_due_reminders datetime_le returned now w).db ≡ copies t w.db
unfolding dispatch_due_reminders exec
dispatch_due_reminders-keeps datetime_le returned perm t now w s =
    let p = is_due datetime_le returned now in
    elim (Bool-cases (next_fault w.db.faults)) [
      | inl e ↦ rw e refl
      | inr e ↦ rw e (
          fire_all-Holds t (copies t w.db) (returned (select p w.db.reminders))
            (record w {
              db = record w.db {
                reminders = delete p w.db.reminders;
                faults = later_faults w.db.faults;
              };
            })
            (omega (
              arith,
              tally-perm (λ r. one_if (text_eq t (reminder_text r)))
                  (perm (select p w.db.reminders)),
              tally-select-delete (λ r. one_if (text_eq t (reminder_text r))) p w.db.reminders,
            ))
            (Spaced-later _ s))
    ]
