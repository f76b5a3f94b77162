-- ===== src/Outbox/Window.antt =====
-- The rows that `Put` of outbox.go leaves of each conversation.
use opencrow.Prelude.{
  ℕ, zero, suc, ◌-◌, ◌≤◌, ◌≡◌, refl, ap, subst, sym, ◌∙◌, inl, inr, false, List, [], ◌∷◌,
  if◌then◌else◌, ltb, arith, select, length, drop, length-drop, Bool-cases,
}
use opencrow.Prelude.Text.{Text, text_eq, text_eq_iff, text_eq_sound, text_eq_refl, is_empty}
use opencrow.Database.{
  SentMessage, Db, ok, exec, pure, transaction_cases, healthy, ◌>>=◌, ◌>>◌, roll_back, exec-eq-ok,
  >>=-eq-ok,
}
use opencrow.Outbox.{
  in_conversation, upsert_row, delete_oldest_rows, put, put_statements, max_outbox_per_conversation,
  upsert_outbox, count_outbox, delete_oldest_outbox, evict_excess,
}

-- The rows of one conversation, oldest first.
abbrev pub messages : Text → List SentMessage → List SentMessage
messages c = select (in_conversation c)

pub messages-upsert_row :
    (c m t : Text) (rs : List SentMessage)
    → messages c (upsert_row c m t rs) ≡ upsert_row c m t (messages c rs)
unfolding upsert_row
messages-upsert_row c m t [] = ground (arith, text_eq_refl c)
messages-upsert_row c m t (r ∷ rs) = ground (arith, messages-upsert_row c m t rs)

messages-upsert_row_ne :
    (c c' m t : Text) (rs : List SentMessage)
    → text_eq c c' ≡ false
    → messages c' (upsert_row c m t rs) ≡ messages c' rs
unfolding upsert_row
messages-upsert_row_ne c c' m t [] h = ground arith
messages-upsert_row_ne c c' m t (r ∷ rs) h =
    ground (arith, messages-upsert_row_ne c c' m t rs h, text_eq_iff r.conversation_id c)

messages-delete_oldest_rows :
    (c : Text) (n : ℕ) (rs : List SentMessage)
    → messages c (delete_oldest_rows c n rs) ≡ drop n (messages c rs)
unfolding delete_oldest_rows
messages-delete_oldest_rows c zero rs = refl
messages-delete_oldest_rows c (suc n) [] = refl
messages-delete_oldest_rows c (suc n) (r ∷ rs) =
    ground (arith, messages-delete_oldest_rows c n rs, messages-delete_oldest_rows c (suc n) rs)

messages-delete_oldest_rows_ne :
    (c c' : Text) (n : ℕ) (rs : List SentMessage)
    → text_eq c c' ≡ false
    → messages c' (delete_oldest_rows c n rs) ≡ messages c' rs
unfolding delete_oldest_rows
messages-delete_oldest_rows_ne c c' zero rs h = refl
messages-delete_oldest_rows_ne c c' (suc n) [] h = refl
messages-delete_oldest_rows_ne c c' (suc n) (r ∷ rs) h = ground (
  arith,
  messages-delete_oldest_rows_ne c c' n rs h,
  messages-delete_oldest_rows_ne c c' (suc n) rs h,
  text_eq_iff r.conversation_id c,
)

-- The rows after a `Put` that is committed.
abbrev pub stored : Text → Text → Text → List SentMessage → List SentMessage
stored c m t rs =
    let rs' = upsert_row c m t rs in
    delete_oldest_rows c (length (messages c rs') - max_outbox_per_conversation) rs'

abbrev rows_of {ℓ} : {A : Type ℓ} → A × Db → List SentMessage
rows_of r = r.1.sent_messages

upsert_outbox_ok :
    (c m t : Text) (db : Db) {a : Unit {0}} {db' : Db}
    → upsert_outbox c m t db ≡ (ok a, db')
    → db'.sent_messages ≡ upsert_row c m t db.sent_messages
unfolding upsert_outbox
upsert_outbox_ok c m t db h = sym (ap rows_of (exec-eq-ok _ db h))

count_outbox_ok :
    (c : Text) (db : Db) {n : ℕ} {db' : Db}
    → count_outbox c db ≡ (ok n, db')
    → (n ≡ length (messages c db.sent_messages)) × (db'.sent_messages ≡ db.sent_messages)
unfolding count_outbox
count_outbox_ok c db h = let e = exec-eq-ok _ db h in (cc (ap (λ x. x.0) e), sym (ap rows_of e))

delete_oldest_outbox_ok :
    (c : Text) (n : ℕ) (db : Db) {a : Unit {0}} {db' : Db}
    → delete_oldest_outbox c n db ≡ (ok a, db')
    → db'.sent_messages ≡ delete_oldest_rows c n db.sent_messages
unfolding delete_oldest_outbox
delete_oldest_outbox_ok c n db h = sym (ap rows_of (exec-eq-ok _ db h))

-- Where nothing is over the bound there is nothing to delete.
evict_excess_ok :
    (c : Text) (count : ℕ) (db : Db) {db' : Db}
    → evict_excess c count db ≡ (ok tt, db')
    → db'.sent_messages
      ≡ delete_oldest_rows c (count - max_outbox_per_conversation) db.sent_messages
unfolding evict_excess delete_oldest_rows
evict_excess_ok c count db h = elim (Bool-cases (ltb max_outbox_per_conversation count)) [
  | inl e ↦ delete_oldest_outbox_ok c _ db (rw e at h)
  | inr e ↦
      let none_over : count - max_outbox_per_conversation ≡ 0 = ground arith in
      rw none_over (sym (ap rows_of (rw e at h)))
]

put_statements_ok :
    (c m t : Text) (db : Db) {db' : Db}
    → put_statements c m t db ≡ (ok tt, db')
    → db'.sent_messages ≡ stored c m t db.sent_messages
unfolding put_statements
put_statements_ok c m t db h =
    let (_, d1, e1, h1) =
      >>=-eq-ok (upsert_outbox c m t) (λ _. count_outbox c >>= evict_excess c) db h in
    let (n, d2, e2, h2) = >>=-eq-ok (count_outbox c) (evict_excess c) d1 h1 in
    let upserted = upsert_outbox_ok c m t db e1 in
    let counted = count_outbox_ok c d1 e2 in
    cc (evict_excess_ok c n d2 h2, upserted, counted.0, counted.1)

-- Every `Put`, whichever of its statements fail, leaves the table as it was or stores the message.
pub put_outcome :
    (P : List SentMessage → Type 0) (c m t : Text) (db : Db)
    → P db.sent_messages
    → P (stored c m t db.sent_messages)
    → P (put c m t db).sent_messages
unfolding put
put_outcome P c m t db kept done = elim (Bool-cases (is_empty m)) [
  | inl e ↦ rw e kept
  | inr e ↦ rw e (
      transaction_cases (λ d. P d.sent_messages) (put_statements c m t) db (λ _. kept)
        (λ d fs gs h. subst P (sym (put_statements_ok c m t (record db { faults = fs }) h)) done))
]

-- The newest `n` of them.
abbrev pub newest {ℓ} : {A : Type ℓ} → ℕ → List A → List A
newest n xs = drop (length xs - n) xs

pub messages-stored :
    (c m t : Text) (rs : List SentMessage)
    → messages c (stored c m t rs)
      ≡ newest max_outbox_per_conversation (upsert_row c m t (messages c rs))
messages-stored c m t rs =
    messages-delete_oldest_rows c _ (upsert_row c m t rs) ∙ rw (messages-upsert_row c m t rs)

pub messages-stored_ne :
    (c c' m t : Text) (rs : List SentMessage)
    → text_eq c c' ≡ false
    → messages c' (stored c m t rs) ≡ messages c' rs
messages-stored_ne c c' m t rs h =
    messages-delete_oldest_rows_ne c c' _ (upsert_row c m t rs) h
    ∙ messages-upsert_row_ne c c' m t rs h

-- No conversation holds more than 500 messages.
abbrev pub IsBounded : List SentMessage → Type 0
IsBounded rs = (c : Text) → length (messages c rs) ≤ max_outbox_per_conversation

-- Any `Put`, whichever of its statements fail, keeps every conversation within its bound.
put-IsBounded :
    (c m t : Text) (db : Db) → IsBounded db.sent_messages → IsBounded (put c m t db).sent_messages
put-IsBounded c m t db h = put_outcome IsBounded c m t db h (λ c'.
    elim (Bool-cases (text_eq c c')) [
      | inl e ↦
          rw (← text_eq_sound c c' e, messages-stored c m t db.sent_messages)
            (omega (arith, length-drop {0}))
      | inr e ↦ rw (messages-stored_ne c c' m t db.sent_messages e) (h c')
    ])

evict_excess-healthy :
    (c : Text) (count : ℕ) (db : Db)
    → evict_excess c count (healthy db) ≡ (
      ok tt,
      record (healthy db) {
        sent_messages = delete_oldest_rows c (count - max_outbox_per_conversation) db.sent_messages;
      },
    )
unfolding evict_excess exec delete_oldest_rows
evict_excess-healthy c count db = elim (Bool-cases (ltb max_outbox_per_conversation count)) [
  | inl e ↦ rw e
  | inr e ↦
      let none_over : count - max_outbox_per_conversation ≡ 0 = ground arith in rw (e, none_over)
]

-- Where no query fails, `Put` stores the message and touches nothing else.
pub put-healthy :
    (c m t : Text) (db : Db)
    → is_empty m ≡ false
    → put c m t (healthy db) ≡ record (healthy db) { sent_messages = stored c m t db.sent_messages }
unfolding put exec
put-healthy c m t db h = rw h (
    ap (λ x. (roll_back (healthy db) (((λ _. x) >> exec (pure tt)) (healthy db))).1)
      (evict_excess-healthy c (length (messages c (upsert_row c m t db.sent_messages)))
        (record db { sent_messages = upsert_row c m t db.sent_messages })))

-- Where no query fails and the message has an id, `Put` leaves of its conversation the newest 500
-- messages after the upsert, and leaves every other conversation as it was.
pub messages-put :
    (c m t c' : Text) (db : Db)
    → is_empty m ≡ false
    → messages c' (put c m t (healthy db)).sent_messages ≡ (
        if text_eq c c'
        then newest max_outbox_per_conversation (upsert_row c m t (messages c db.sent_messages))
        else messages c' db.sent_messages)
messages-put c m t c' db h = rw (put-healthy c m t db h) (elim (Bool-cases (text_eq c c')) [
  | inl e ↦ rw (e, ← text_eq_sound c c' e) (messages-stored c m t db.sent_messages)
  | inr e ↦ rw e (messages-stored_ne c c' m t db.sent_messages e)
])
