-- ===== src/Outbox/Replies.antt =====
-- `Get` after `Put` of outbox.go.
use opencrow.Prelude.{
  ℕ, zero, suc, ◌-◌, ◌≤◌, ◌≡◌, refl, ap, sym, ◌∙◌, ◌⊎◌, inl, inr, false, List, [], ◌∷◌, ◌++◌,
  Option, none, some, if◌then◌else◌, arith, length, drop, Bool-cases, Option-cases, length-append,
  drop-append_le,
}
use opencrow.Prelude.Text.{Text, text_eq, text_eq_refl, is_empty}
use opencrow.Database.{SentMessage, Db, exec, healthy}
use opencrow.Outbox.{upsert_row, find_text, put, get, max_outbox_per_conversation}
use opencrow.Outbox.Window.{
  messages, newest, stored, IsBounded, put-healthy, put_outcome, messages-stored,
  messages-stored_ne,
}

-- The rows of the conversation decide what is found.
pub find_text-messages :
    (c m : Text) (rs : List SentMessage) → find_text c m (messages c rs) ≡ find_text c m rs
unfolding find_text
find_text-messages c m [] = refl
find_text-messages c m (r ∷ rs) = ground (arith, find_text-messages c m rs)

find_text-upsert_row :
    (c m t : Text) (rs : List SentMessage) → find_text c m (upsert_row c m t rs) ≡ some t
unfolding find_text upsert_row
find_text-upsert_row c m t [] = ground (arith, text_eq_refl c, text_eq_refl m)
find_text-upsert_row c m t (r ∷ rs) = ground (arith, find_text-upsert_row c m t rs)

abbrev message_row : Text → Text → Text → SentMessage
message_row c m t = record { conversation_id = c; message_id = m; text = t }

-- An upsert changes a row in place, or adds one at the end where there is none with its key.
upsert_row-shape :
    (c m t : Text) (rs : List SentMessage)
    → (length (upsert_row c m t rs) ≡ length rs)
      ⊎ ((upsert_row c m t rs ≡ rs ++ message_row c m t ∷ []) × (find_text c m rs ≡ none))
unfolding upsert_row find_text
upsert_row-shape c m t [] = inr (refl, refl)
upsert_row-shape c m t (r ∷ rs) = ground (arith, upsert_row-shape c m t rs)

find_text-drop-none :
    (c m : Text) (k : ℕ) (rs : List SentMessage)
    → find_text c m rs ≡ none
    → find_text c m (drop k rs) ≡ none
unfolding find_text
find_text-drop-none c m zero rs h = h
find_text-drop-none c m (suc k) [] h = refl
find_text-drop-none c m (suc k) (r ∷ rs) h = ground (arith, find_text-drop-none c m k rs)

find_text-snoc :
    (c m t : Text) (rs : List SentMessage)
    → find_text c m rs ≡ none
    → find_text c m (rs ++ message_row c m t ∷ []) ≡ some t
unfolding find_text
find_text-snoc c m t [] h = ground (arith, text_eq_refl c, text_eq_refl m)
find_text-snoc c m t (r ∷ rs) h = ground (arith, find_text-snoc c m t rs)

find_text-newest :
    (c m t : Text) (n : ℕ) (rs : List SentMessage)
    → length rs ≤ suc n
    → find_text c m (newest (suc n) (upsert_row c m t rs)) ≡ some t
find_text-newest c m t n rs h = elim (upsert_row-shape c m t rs) [
  | inl e ↦
      let all_kept : length (upsert_row c m t rs) - suc n ≡ 0 = omega (arith, e) in
      rw all_kept (find_text-upsert_row c m t rs)
  | inr (e, absent) ↦ rw e (
      let k : ℕ = length (rs ++ message_row c m t ∷ []) - suc n in
      let within : k ≤ length rs = omega (arith, length-append rs (message_row c m t ∷ [])) in
      rw (drop-append_le k rs (message_row c m t ∷ []) within)
        (find_text-snoc c m t (drop k rs) (find_text-drop-none c m k rs absent)))
]

find_text-stored :
    (c m t : Text) (rs : List SentMessage)
    → length (messages c rs) ≤ max_outbox_per_conversation
    → find_text c m (stored c m t rs) ≡ some t
find_text-stored c m t rs h =
    sym (find_text-messages c m (stored c m t rs))
    ∙ ap (find_text c m) (messages-stored c m t rs)
    ∙ find_text-newest c m t 499 (messages c rs) h

abbrev pub text_or_empty : Option Text → Text
text_or_empty none = []
text_or_empty (some t) = t

pub get-healthy :
    (c m : Text) (db : Db)
    → (get c m (healthy db)).0
      ≡ (if is_empty m then [] else text_or_empty (find_text c m db.sent_messages))
unfolding get exec
get-healthy c m db = elim (Option-cases (find_text c m db.sent_messages)) [
  | inl e ↦ rw e (elim (Bool-cases (is_empty m)) [ inl h ↦ rw h | inr h ↦ rw h ])
  | inr (t, e) ↦ rw e (elim (Bool-cases (is_empty m)) [ inl h ↦ rw h | inr h ↦ rw h ])
]

-- Where no query fails, a message with an id that was put into a bounded outbox is what `Get`
-- returns for its conversation and id, whether it was new or known, the conversation full or not.
pub get-put :
    (c m t : Text) (db : Db)
    → is_empty m ≡ false
    → IsBounded db.sent_messages
    → (get c m (put c m t (healthy db))).0 ≡ t
get-put c m t db h b = rw (put-healthy c m t db h) (
    get-healthy c m (record db { sent_messages = stored c m t db.sent_messages })
    ∙ rw (h, find_text-stored c m t db.sent_messages (b c)))

find_text-stored_ne :
    (c m t c' m' : Text) (rs : List SentMessage)
    → text_eq c c' ≡ false
    → find_text c' m' (stored c m t rs) ≡ find_text c' m' rs
find_text-stored_ne c m t c' m' rs ne =
    sym (find_text-messages c' m' (stored c m t rs))
    ∙ ap (find_text c' m') (messages-stored_ne c c' m t rs ne)
    ∙ find_text-messages c' m' rs

-- A `Put`, whichever of its statements fail, changes nothing of what `Get` finds in any other
-- conversation afterwards.
get-put_ne :
    (c m t c' m' : Text) (db : Db)
    → text_eq c c' ≡ false
    → (get c' m' (healthy (put c m t db))).0 ≡ (get c' m' (healthy db)).0
get-put_ne c m t c' m' db ne =
    get-healthy c' m' (put c m t db)
    ∙ ap {B = Text} (λ o. if is_empty m' then [] else text_or_empty o)
        (put_outcome (λ rs. find_text c' m' rs ≡ find_text c' m' db.sent_messages) c m t db refl
          (find_text-stored_ne c m t c' m' db.sent_messages ne))
    ∙ sym (get-healthy c' m' db)
