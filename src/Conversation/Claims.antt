-- ===== src/Conversation/Claims.antt =====
-- `Claim` and `Reset` of backend/util.go, one after the other.
use opencrow.Prelude.{◌≡◌, refl, sym, true, false, not, [], ◌∷◌}
use opencrow.Prelude.Text.{Text, text_eq, text_eq_refl, text_eq_sound, is_empty}
use opencrow.Conversation.{ActiveConversation, claim, reset}

claim-active : (id : Text) (a : ActiveConversation) → (claim id a).0 ≡ true → (claim id a).1 ≡ id
unfolding claim
claim-active [] a h = cc
claim-active (ch ∷ id) [] h = refl
claim-active (ch ∷ id) (d ∷ a) h = text_eq_sound (d ∷ a) (ch ∷ id) h

claim_nonempty : (id : Text) (a : ActiveConversation) → (claim id a).0 ≡ true → is_empty id ≡ false
unfolding claim
claim_nonempty [] a h = sym h
claim_nonempty (ch ∷ id) a h = refl

claim_refused :
    (id id' : Text) → is_empty id ≡ false → text_eq id id' ≡ false → claim id' id ≡ (false, id)
unfolding claim
claim_refused id [] h ne = refl
claim_refused id (ch ∷ id') h ne = rw (h, ne)

claim-reset : (id id' : Text) → claim id' (reset id id) ≡ (not (is_empty id'), id')
unfolding claim reset
claim-reset id [] = rw (text_eq_refl id)
claim-reset id (ch ∷ id') = rw (text_eq_refl id)

-- An id that was claimed is the active one; until it is reset, any other id is refused and a reset
-- of that other id changes nothing, and after its own reset any id that is not empty is claimed.
claim_exclusive :
    (id id' : Text) (a : ActiveConversation)
    → (claim id a).0 ≡ true
    → text_eq id id' ≡ false
    → ((claim id a).1 ≡ id)
      × (claim id' (claim id a).1 ≡ (false, id))
      × (reset id' (claim id a).1 ≡ id)
      × (claim id' (reset id (claim id a).1) ≡ (not (is_empty id'), id'))
unfolding reset
claim_exclusive id id' a h ne =
    rw (claim-active id a h)
      (refl, claim_refused id id' (claim_nonempty id a h) ne, rw ne, claim-reset id id')
