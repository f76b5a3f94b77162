-- ===== src/Database.antt =====
-- The shared SQLite database: sqlc/schema.sql, sqlc_models.go and the way a query returns.
--
-- The three tables of the main database stand in one record, as they share one connection. Any
-- query may fail (a locked or full disk, a cancelled context): `faults` says, query by query,
-- whether the next one does, so a theorem over all states covers every pattern of failures.
use opencrow.Prelude.{
  ℕ, Bool, true, false, List, [], ◌∷◌, ◌≡◌, refl, ap, sym, subst, inl, inr, Bool-cases,
  if◌then◌else◌,
}
use opencrow.Prelude.Text.{Text}

-- The values that the source gives to the column `source`.
pub data Source : Type 0 where
  user trigger heartbeat compact : Source

-- A row of `inbox`; the column `created_at` is filled by SQLite and never read.
pub record Inbox : Type 0 where
  pub id : ℕ
  pub priority : ℕ
  pub source : Source
  pub content : Text
  pub reply_to : Text

-- A row of `sent_messages`.
pub record SentMessage : Type 0 where
  pub conversation_id : Text
  pub message_id : Text
  pub text : Text

-- A row of `reminders`; `fire_at` is kept as the text that was inserted.
pub record Reminder : Type 0 where
  pub id : ℕ
  pub fire_at : Text
  pub prompt : Text

pub record Db : Type 0 where
  pub inbox : List Inbox
  pub inbox_seq : ℕ  -- the next AUTOINCREMENT id of `inbox`
  pub sent_messages : List SentMessage  -- in the order of their rowids
  pub reminders : List Reminder
  pub reminders_seq : ℕ  -- the next AUTOINCREMENT id of `reminders`
  pub faults : List Bool

pub data DbError : Type 0 where
  no_rows failed : DbError

pub data Result {ℓ} (A : Type ℓ) : Type ℓ where
  ok : A → Result A
  err : DbError → Result A

abbrev pub Query : Type 0 → Type 0
Query A = Db → Result A × Db

infixl 5 ◌>>=◌ ◌>>◌
abbrev pub ◌>>=◌ : {A B : Type 0} → Query A → (A → Query B) → Query B
◌>>=◌ m f db = let (r, db') = m db in elim r [ ok a ↦ f a db' | err e ↦ (err e, db') ]

abbrev pub ◌>>◌ : {B : Type 0} → Query (Unit {0}) → Query B → Query B
m >> k = m >>= λ _. k

abbrev pub pure : {A : Type 0} → A → Query A
pure a db = (ok a, db)

abbrev pub next_fault : List Bool → Bool
next_fault [] = false
next_fault (b ∷ bs) = b

abbrev pub later_faults : List Bool → List Bool
later_faults [] = []
later_faults (b ∷ bs) = bs

-- One query on.
abbrev pub later : Db → Db
later db = record db { faults = later_faults db.faults }

-- A statement that fails changes nothing but the faults that are still to come.
unfoldable pub exec : {A : Type 0} → Query A → Query A
exec q db = if next_fault db.faults then (err failed, later db) else q (later db)

-- The next query does not fail.
abbrev pub IsUp : Db → Type 0
IsUp db = next_fault db.faults ≡ false

-- What holds after a failure and after the statement holds after the query.
pub exec_cases :
    {A : Type 0} (P : Result A × Db → Type 0) (q : Query A) (db : Db)
    → (next_fault db.faults ≡ true → P (err failed, later db))
    → (IsUp db → P (q (later db)))
    → P (exec q db)
unfolding exec
exec_cases P q db down up = elim (Bool-cases (next_fault db.faults)) [
  | inl e ↦ rw e (down e)
  | inr e ↦ rw e (up e)
]

pub exec_up : {A : Type 0} (q : Query A) (db : Db) → IsUp db → exec q db ≡ q (later db)
unfolding exec
exec_up q db up = rw up

-- What a first query establishes and the rest keeps holds after both.
pub >>=_keeps :
    {A B : Type 0} (P : Db → Type 0) (m : Query A) (f : A → Query B) (db : Db)
    → P (m db).1
    → ((a : A) (db' : Db) → P db' → P (f a db').1)
    → P ((m >>= f) db).1
>>=_keeps {A} {B} P m f db h k = go (m db).0
  where
    go :
        (r : Result A)
        → P
            (let q : Result B × Db = elim r [ ok a ↦ f a (m db).1 | err e ↦ (err e, (m db).1) ] in
              q).1
    go (ok a) = k a (m db).1 h
    go (err e) = h

pub exec_then :
    {A B : Type 0} (q : Query A) (f : A → Query B) (db : Db)
    → IsUp db
    → (exec q >>= f) db ≡ (q >>= f) (later db)
exec_then q f db up =
    ap (λ x. let (r, db') = x in elim r [ ok a ↦ f a db' | err e ↦ (err e, db') ]) (exec_up q db up)

-- `BeginTx`, the statements and `Commit`, with the deferred `Rollback`: where one of them fails the
-- tables are those from before.
abbrev pub roll_back : {A : Type 0} → Db → Result A × Db → Result A × Db
roll_back db (ok a, db') = (ok a, db')
roll_back db (err e, db') = (err e, record db { faults = db'.faults })

unfoldable pub transaction : Query (Unit {0}) → Query (Unit {0})
unfolding exec
transaction body db = roll_back db ((exec (pure tt) >> (body >> exec (pure tt))) db)

-- A query that succeeds ran its statement; a chain that succeeds ran both its parts.
pub exec-eq-ok :
    {A : Type 0} (q : Query A) (db : Db) {a : A} {db' : Db}
    → exec q db ≡ (ok a, db')
    → q (later db) ≡ (ok a, db')
unfolding exec
exec-eq-ok q db h = elim (Bool-cases (next_fault db.faults)) [
  | inl e ↦ absurd (failed_ne (rw e at h))
  | inr e ↦ rw e at h
]
  where
    failed_ne :
        {A : Type 0} {a : A} {d d' : Db} → ◌≡◌ {A = Result A × Db} (err failed, d) (ok a, d') → ⊥
    failed_ne e = cc

pub >>=-eq-ok :
    {A B : Type 0} (m : Query A) (f : A → Query B) (db : Db) {b : B} {db' : Db}
    → (m >>= f) db ≡ (ok b, db')
    → (a : A) × (db'' : Db) × (m db ≡ (ok a, db'')) × (f a db'' ≡ (ok b, db'))
>>=-eq-ok {A} {B} m f db {b} {db'} = go (m db) refl
  where
    go :
        (r : Result A × Db)
        → m db ≡ r
        → (let q : Result B × Db = elim r.0 [ ok a ↦ f a r.1 | err e ↦ (err e, r.1) ] in q)
          ≡ (ok b, db')
        → (a : A) × (db'' : Db) × (m db ≡ (ok a, db'')) × (f a db'' ≡ (ok b, db'))
    go (ok a, d) e h = (a, d, e, h)
    go (err x, d) e h = cc

-- What holds of the tables from before with any faults to come, and of those that the statements
-- leave, holds after the transaction.
pub transaction_cases :
    (P : Db → Type 0) (body : Query (Unit {0})) (db : Db)
    → ((fs : List Bool) → P (record db { faults = fs }))
    → ((db' : Db) (fs gs : List Bool)
        → body (record db { faults = fs }) ≡ (ok tt, db')
        → P (record db' { faults = gs }))
    → P (transaction body db).1
unfolding transaction
transaction_cases P body db aborted committed = go _ refl
  where
    go :
        (r : Result (Unit {0}) × Db)
        → (exec (pure tt) >> (body >> exec (pure tt))) db ≡ r
        → P (roll_back db r).1
    go (err e, d) h = aborted d.faults
    go (ok _, d) h =
        let (_, d1, begun, h1) = >>=-eq-ok (exec (pure tt)) (λ _. body >> exec (pure tt)) db h in
        let (_, d2, run, h2) = >>=-eq-ok body (λ _. exec (pure tt)) d1 h1 in
        let opened : later db ≡ d1 = ap (λ x. x.1) (exec-eq-ok (pure tt) db begun) in
        let closed : later d2 ≡ d = ap (λ x. x.1) (exec-eq-ok (pure tt) d2 h2) in
        subst P closed (
          committed d2 (later_faults db.faults) (later_faults d2.faults)
            (subst (λ x. body x ≡ (ok tt, d2)) (sym opened) run))

-- A database of which no query fails.
abbrev pub healthy : Db → Db
healthy db = record db { faults = [] }
