-- ===== src/Outbox/Recent.antt =====
-- How long outbox.go keeps a message: `Get` after `Put` and the `Put`s of later messages.
use opencrow.Prelude.{
  ℕ, zero, suc, ◌+◌, ◌-◌, ◌≤◌, ◌≡◌, refl, sym, subst, ◌∙◌, inl, inr, true, false, List, [], ◌∷◌,
  none, some, arith, ltb, length, drop, All, Bool-cases, if_keeps,
}
use opencrow.Prelude.Text.{Text, text_eq, text_eq_refl, text_eq_sound, text_eq_iff, is_empty}
use opencrow.Database.{SentMessage, Db, healthy}
use opencrow.Outbox.{has_key, upsert_row, find_text, put, get, max_outbox_per_conversation}
use opencrow.Outbox.Window.{
  messages, newest, stored, put-healthy, put_outcome, messages-stored, messages-stored_ne,
}
use opencrow.Outbox.Replies.{get-healthy, find_text-messages}

-- Each message is put into the outbox, in order.
abbrev pub put_all : List SentMessage → Db → Db
put_all [] db = db
put_all (r ∷ rs) db = put_all rs (put r.conversation_id r.message_id r.text db)

module _ (c m t : Text) where
  -- The text stands in the first row of its key, with at most `n` rows behind it.
  data Recent : ℕ → List SentMessage → Type 0 where
    here :
        (n : ℕ) (rs : List SentMessage)
        → length rs ≤ n
        → Recent n (record { conversation_id = c; message_id = m; text = t } ∷ rs)
    behind :
        (n : ℕ) (r : SentMessage) (rs : List SentMessage)
        → has_key c m r ≡ false
        → Recent n rs
        → Recent n (r ∷ rs)

  find_text-Recent : {n : ℕ} {rs : List SentMessage} → Recent n rs → find_text c m rs ≡ some t
  unfolding find_text
  find_text-Recent (here n rs h) = ground (arith, text_eq_refl c, text_eq_refl m)
  find_text-Recent (behind n r rs h k) = rw h (find_text-Recent k)

  Recent-suc : {n : ℕ} {rs : List SentMessage} → Recent n rs → Recent (suc n) rs
  Recent-suc (here n rs h) = here (suc n) rs (omega arith)
  Recent-suc (behind n r rs h k) = behind (suc n) r rs h (Recent-suc k)

  Recent-drop :
      (k : ℕ) {n : ℕ} {rs : List SentMessage}
      → Recent n rs
      → k + suc n ≤ length rs
      → Recent n (drop k rs)
  Recent-drop zero r h = r
  Recent-drop (suc k) (here n rs le) h = absurd (omega arith)
  Recent-drop (suc k) (behind n r rs e i) h = Recent-drop k i (omega arith)

  Recent-newest :
      {n : ℕ} {rs : List SentMessage}
      → Recent n rs
      → n ≤ 499
      → Recent n (newest max_outbox_per_conversation rs)
  Recent-newest {n} {rs} r h = elim (Bool-cases (ltb 500 (length rs))) [
    | inl e ↦ Recent-drop (length rs - 500) r (ground arith)
    | inr e ↦ let all_kept : length rs - 500 ≡ 0 = ground arith in rw all_kept r
  ]

  -- A new row, and any other row after it.
  Recent-upsert_row :
      (rs : List SentMessage) → find_text c m rs ≡ none → Recent 0 (upsert_row c m t rs)
  unfolding find_text upsert_row
  Recent-upsert_row [] h = here 0 [] (omega arith)
  Recent-upsert_row (r ∷ rs) h = elim (Bool-cases (has_key c m r)) [
    | inl e ↦ absurd (ground arith)
    | inr e ↦ rw e (behind 0 r (upsert_row c m t rs) e (Recent-upsert_row rs (rw e at h)))
  ]

  length-upsert_row :
      (c' m' t' : Text) (rs : List SentMessage) → length (upsert_row c' m' t' rs) ≤ suc (length rs)
  unfolding upsert_row
  length-upsert_row c' m' t' [] = omega arith
  length-upsert_row c' m' t' (r ∷ rs) = ground (arith, length-upsert_row c' m' t' rs)

  Recent-upsert_row_ne :
      (m' t' : Text) {n : ℕ} {rs : List SentMessage}
      → text_eq m m' ≡ false
      → Recent n rs
      → Recent (suc n) (upsert_row c m' t' rs)
  unfolding upsert_row
  Recent-upsert_row_ne m' t' ne (here n rs h) =
      rw (text_eq_refl c, ne)
        (here (suc n) (upsert_row c m' t' rs) (omega (arith, length-upsert_row c m' t' rs)))
  Recent-upsert_row_ne m' t' ne (behind n r rs h k) =
      if_keeps (Recent (suc n)) (has_key c m' r)
        (behind (suc n) (record r { text = t' }) rs h (Recent-suc k))
        (behind (suc n) r (upsert_row c m' t' rs) h (Recent-upsert_row_ne m' t' ne k))

  text_ne :
      (r : SentMessage)
      → text_eq r.conversation_id c ≡ true
      → has_key c m r ≡ false
      → text_eq m r.message_id ≡ false
  text_ne r e h = ground (arith, text_eq_iff m r.message_id, text_eq_iff r.message_id m)

  -- One more `Put`.
  Recent-stored :
      (r : SentMessage) {n : ℕ} (rs : List SentMessage)
      → has_key c m r ≡ false
      → suc n ≤ 499
      → Recent n (messages c rs)
      → Recent (suc n) (messages c (stored r.conversation_id r.message_id r.text rs))
  Recent-stored r {n} rs h le k = elim (Bool-cases (text_eq r.conversation_id c)) [
    | inl e ↦
        subst (λ x. Recent (suc n) (messages c (stored x r.message_id r.text rs)))
          (sym (text_eq_sound r.conversation_id c e))
          (subst (Recent (suc n)) (sym (messages-stored c r.message_id r.text rs))
            (Recent-newest (Recent-upsert_row_ne r.message_id r.text (text_ne r e h) k) le))
    | inr e ↦ rw (messages-stored_ne r.conversation_id c r.message_id r.text rs e) (Recent-suc k)
  ]

  Recent-put_all :
      (later : List SentMessage) {n : ℕ} (db : Db)
      → All (λ r. has_key c m r ≡ false) later
      → n + length later ≤ 499
      → Recent n (messages c db.sent_messages)
      → Recent (n + length later) (messages c (put_all later db).sent_messages)
  Recent-put_all [] db h le k = subst (λ i. Recent i (messages c db.sent_messages)) (omega arith) k
  Recent-put_all (r ∷ later) {n} db h le k =
      subst (λ i. Recent i (messages c (put_all (r ∷ later) db).sent_messages)) (omega arith)
        (Recent-put_all later {n = suc n} (put r.conversation_id r.message_id r.text db) h.1
          (omega arith)
          (put_outcome (λ rs. Recent (suc n) (messages c rs)) r.conversation_id r.message_id r.text
            db (Recent-suc k) (Recent-stored r db.sent_messages h.0 (omega arith) k)))

  -- A new message that was put where no query fails is what `Get` returns for its conversation and id
  -- after up to 499 further `Put`s, in whichever conversations and whichever of their statements fail,
  -- as long as none of them has its conversation and id.
  pub get-put_all :
      (later : List SentMessage) (db : Db)
      → is_empty m ≡ false
      → find_text c m db.sent_messages ≡ none
      → All (λ r. has_key c m r ≡ false) later
      → length later ≤ 499
      → (get c m (healthy (put_all later (put c m t (healthy db))))).0 ≡ t
  get-put_all later db h fresh ne le =
      let first = λ (d : Db). Recent 0 (messages c d.sent_messages) in
      let stored_first : first (put c m t (healthy db)) =
        subst first (sym (put-healthy c m t db h)) (
          subst (Recent 0) (sym (messages-stored c m t db.sent_messages)) (
            Recent-newest
              (Recent-upsert_row (messages c db.sent_messages)
                (find_text-messages c m db.sent_messages ∙ fresh))
              (omega arith))) in
      let kept =
        Recent-put_all later {n = 0} (put c m t (healthy db)) ne (omega arith) stored_first in
      let all = put_all later (put c m t (healthy db)) in
      get-healthy c m all
      ∙ rw (h, ← find_text-messages c m all.sent_messages, find_text-Recent kept) refl
