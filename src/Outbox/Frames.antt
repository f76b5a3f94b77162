-- ===== src/Outbox/Frames.antt =====
-- What `Put` and `Get` of outbox.go leave alone.
use opencrow.Prelude.{ℕ, ◌≡◌, refl, sym, ap, ◌∙◌, Bool, List, Option, none, some, ltb, if_keeps}
use opencrow.Prelude.Text.{Text, is_empty}
use opencrow.Database.{
  SentMessage, Db, Result, ◌>>=◌, exec_cases, >>=_keeps, transaction_cases, later,
}
use opencrow.Outbox.{
  put, get, put_statements, upsert_row, upsert_outbox, count_outbox, delete_oldest_outbox,
  evict_excess, max_outbox_per_conversation, get_outbox, found, find_text,
}

-- A part of the database that no query on `sent_messages` reads or writes.
module _ {A : Type 0} (part : Db → A)
    (untouched : (db : Db) (rs : List SentMessage) (fs : List Bool)
      → part (record db { sent_messages = rs; faults = fs }) ≡ part db) where
  later_part : (db : Db) → part (later db) ≡ part db
  later_part db = untouched db db.sent_messages (later db).faults

  evict_excess-part : (c : Text) (n : ℕ) (db : Db) → part (evict_excess c n db).1 ≡ part db
  unfolding evict_excess delete_oldest_outbox
  evict_excess-part c n db =
      if_keeps {A = Result (Unit {0}) × Db} (λ x. part x.1 ≡ part db)
        (ltb max_outbox_per_conversation n)
        (exec_cases {A = Unit {0}} (λ x. part x.1 ≡ part db) _ db (λ _. later_part db)
          (λ _. untouched db _ (later db).faults))
        refl

  put_statements-part : (c m t : Text) (db : Db) → part (put_statements c m t db).1 ≡ part db
  unfolding put_statements upsert_outbox count_outbox
  put_statements-part c m t db =
      let same = λ (d : Db). part d ≡ part db in
      >>=_keeps same (upsert_outbox c m t) (λ _. count_outbox c >>= evict_excess c) db
        (exec_cases {A = Unit {0}} (λ x. same x.1) _ db (λ _. later_part db)
          (λ _. untouched db (upsert_row c m t db.sent_messages) (later db).faults))
        (λ _ d e.
          >>=_keeps same (count_outbox c) (evict_excess c) d
            (exec_cases {A = ℕ} (λ x. same x.1) _ d (λ _. later_part d ∙ e) (λ _. later_part d ∙ e))
            (λ n d' e'. evict_excess-part c n d' ∙ e'))

  pub put-part : (c m t : Text) (db : Db) → part (put c m t db) ≡ part db
  unfolding put
  put-part c m t db =
      if_keeps (λ d. part d ≡ part db) (is_empty m) refl
        (transaction_cases (λ d. part d ≡ part db) (put_statements c m t) db
          (λ fs. untouched db db.sent_messages fs)
          (λ d fs gs h.
            untouched d d.sent_messages gs
            ∙ ap (λ x. part x.1) (sym h)
            ∙ put_statements-part c m t (record db { faults = fs })
            ∙ untouched db db.sent_messages fs))

  found-part : (o : Option Text) (db : Db) → part (found o db).1 ≡ part db
  found-part none db = refl
  found-part (some t) db = refl

  pub get-part : (c m : Text) (db : Db) → part (get c m db).1 ≡ part db
  unfolding get get_outbox
  get-part c m db =
      if_keeps {A = Text × Db} (λ x. part x.1 ≡ part db) (is_empty m) refl
        (exec_cases {A = Text} (λ x. part x.1 ≡ part db) _ db (λ _. later_part db)
          (λ _. found-part (find_text c m db.sent_messages) (later db) ∙ later_part db))
