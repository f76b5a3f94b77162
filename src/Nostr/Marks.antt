-- ===== src/Nostr/Marks.antt =====
-- The ids of messages and the marks of rumors, for `dedupRumor` of nostr/backend.go.
use opencrow.Prelude.{
  ℕ, ◌≡◌, refl, subst, inl, inr, Bool, true, false, Bool-cases, List, [], ◌∷◌, ◌++◌, Option, some,
  All, All-append, exists, arith,
}
use opencrow.Prelude.Text.{Text, text_eq, text_eq_sound, text_eq_refl}
use opencrow.App.Messages.{Message}
use opencrow.Nostr.LastSeen.{SeenRumor, SeenDb, has_id, check_and_mark_seen}

-- No two messages have one id.
abbrev pub AreDistinct : List Message → Type 0
AreDistinct [] = Unit {0}
AreDistinct (m ∷ ms) =
    All (λ (x : Message). text_eq m.message_id x.message_id ≡ false) ms × AreDistinct ms

pub AreDistinct-snoc :
    (ms : List Message) (m : Message)
    → AreDistinct ms
    → All (λ (x : Message). text_eq x.message_id m.message_id ≡ false) ms
    → AreDistinct (ms ++ m ∷ [])
AreDistinct-snoc [] m d h = (tt, tt)
AreDistinct-snoc (x ∷ ms) m d h = (
  All-append (λ (y : Message). text_eq x.message_id y.message_id ≡ false) ms (m ∷ []) d.0 (h.0, tt),
  AreDistinct-snoc ms m d.1 h.1,
)

-- What the mark of a rumor does while no query fails.
pub data Marking (id : Text) (now : ℕ) (db : SeenDb) : Option Bool × SeenDb → Type 0 where
  again :
      (db' : SeenDb) → db'.rumors ≡ db.rumors → db'.faults ≡ [] → Marking id now db (some true, db')
  first :
      (db' : SeenDb)
      → exists (has_id id) db.rumors ≡ false
      → db'.rumors ≡ db.rumors ++ record { id = id; seen = now } ∷ []
      → db'.faults ≡ []
      → Marking id now db (some false, db')

pub check_and_mark_seen-Marking :
    (id : Text) (now : ℕ) (rumors : List SeenRumor)
    → Marking id now
        (record { rumors = rumors; faults = [] })
        (check_and_mark_seen id now (record { rumors = rumors; faults = [] }))
unfolding check_and_mark_seen
check_and_mark_seen-Marking id now rumors = elim (Bool-cases (exists (has_id id) rumors)) [
  | inl e ↦ rw e (again _ refl refl)
  | inr e ↦ rw e (first _ e refl refl)
]

-- An id that is not on record is none of those that are.
pub apart :
    (id id' : Text) (rs : List SeenRumor)
    → exists (has_id id) rs ≡ false
    → exists (has_id id') rs ≡ true
    → text_eq id' id ≡ false
apart id id' rs absent present = elim (Bool-cases (text_eq id' id)) [
  | inr e ↦ e
  | inl e ↦
      let there : exists (has_id id) rs ≡ true =
        subst (λ i. exists (has_id i) rs ≡ true) (text_eq_sound id' id e) present in
      cc
]

pub exists-snoc :
    (id : Text) (rs : List SeenRumor) (r : SeenRumor)
    → exists (has_id id) rs ≡ true
    → exists (has_id id) (rs ++ r ∷ []) ≡ true
exists-snoc id [] r h = cc
exists-snoc id (x ∷ rs) r h = ground (arith, exists-snoc id rs r)

pub exists-here :
    (id : Text) (now : ℕ) (rs : List SeenRumor)
    → exists (has_id id) (rs ++ record { id = id; seen = now } ∷ []) ≡ true
exists-here id now [] = rw (text_eq_refl id) refl
exists-here id now (x ∷ rs) = ground (arith, exists-here id now rs)
