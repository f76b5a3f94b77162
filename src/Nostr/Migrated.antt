-- ===== src/Nostr/Migrated.antt =====
-- What nostr/migrate_legacy.go leaves on record where it removes the old file.
use opencrow.Prelude.{
  ℕ, ◌≡◌, ◌≤◌, refl, sym, subst, true, false, List, [], ◌∷◌, Option, none, some, length,
  if◌then◌else◌, exists, All, arith, Bool-cases, inl, inr,
}
use opencrow.Prelude.Text.{Text, text_eq, text_eq_refl, text_eq_sound, is_empty}
use opencrow.Nostr.LastSeen.{SeenRumor, SeenDb, has_id}
use opencrow.Nostr.Legacy.{
  upsert_rumor, upsert_seen_rumor, counted, import_entries, with_entries,
  migrate_legacy_seen_rumors,
}

upsert_rumor-here :
    (e : SeenRumor) (rs : List SeenRumor) → exists (has_id e.id) (upsert_rumor e rs) ≡ true
unfolding upsert_rumor
upsert_rumor-here e [] = rw (text_eq_refl e.id) refl
upsert_rumor-here e (r ∷ rs) = ground (arith, text_eq_refl e.id, upsert_rumor-here e rs)

upsert_rumor_keeps :
    (id : Text) (e : SeenRumor) (rs : List SeenRumor)
    → exists (has_id id) rs ≡ true
    → exists (has_id id) (upsert_rumor e rs) ≡ true
unfolding upsert_rumor
upsert_rumor_keeps id e [] h = cc
upsert_rumor_keeps id e (r ∷ rs) h = elim (Bool-cases (text_eq e.id r.id)) [
  | inl same ↦ rw same (
      subst (λ i. (if text_eq id i then true else exists (has_id id) rs) ≡ true)
        (sym (text_eq_sound e.id r.id same)) h)
  | inr other ↦ rw other (ground (arith, upsert_rumor_keeps id e rs))
]

upsert_seen_rumor_keeps :
    (id : Text) (e : SeenRumor) (db : SeenDb)
    → exists (has_id id) db.rumors ≡ true
    → exists (has_id id) (upsert_seen_rumor e db).1.rumors ≡ true
unfolding upsert_seen_rumor
upsert_seen_rumor_keeps id e db h = ground (arith, upsert_rumor_keeps id e db.rumors h)

import_entries_keep :
    (id : Text) (es : List SeenRumor) (db : SeenDb)
    → exists (has_id id) db.rumors ≡ true
    → exists (has_id id) (import_entries es db).1.rumors ≡ true
unfolding import_entries
import_entries_keep id [] db h = h
import_entries_keep id (e ∷ es) db h =
    import_entries_keep id es (upsert_seen_rumor e db).1 (upsert_seen_rumor_keeps id e db h)

-- Counting what was imported, and finding it all if nothing failed.
record Imported (es : List SeenRumor) (out : ℕ × SeenDb) : Type 0 where
  most : out.0 ≤ length es
  all : out.0 ≡ length es → All (λ (e : SeenRumor). exists (has_id e.id) out.1.rumors ≡ true) es

upsert_seen_rumor-here :
    (e : SeenRumor) (db : SeenDb)
    → (upsert_seen_rumor e db).0 ≡ some tt
    → exists (has_id e.id) (upsert_seen_rumor e db).1.rumors ≡ true
unfolding upsert_seen_rumor
upsert_seen_rumor-here e db h = ground (arith, upsert_rumor-here e db.rumors)

counted-Imported :
    (e : SeenRumor) (es : List SeenRumor) (r : Option (Unit {0})) (db : SeenDb)
    → (r ≡ some tt → exists (has_id e.id) db.rumors ≡ true)
    → Imported es (import_entries es db)
    → Imported (e ∷ es) (counted r (import_entries es db).0, (import_entries es db).1)
counted-Imported e es none db here k = record {
  most = omega (arith, k.most);
  all = λ h. absurd (omega (arith, k.most));
}
counted-Imported e es (some _) db here k = record {
  most = omega (arith, k.most);
  all = λ h. (import_entries_keep e.id es db (here refl), k.all (omega arith));
}

import_entries-Imported : (es : List SeenRumor) (db : SeenDb) → Imported es (import_entries es db)
unfolding import_entries
import_entries-Imported [] db = record { most = omega arith; all = λ _. tt }
import_entries-Imported (e ∷ es) db =
    counted-Imported e es (upsert_seen_rumor e db).0 (upsert_seen_rumor e db).1
      (upsert_seen_rumor-here e db) (import_entries-Imported es (upsert_seen_rumor e db).1)

with_entries-All :
    (entries : List SeenRumor) (db : SeenDb)
    → (with_entries (some entries) db).0 ≡ false
    → All
        (λ (e : SeenRumor). exists (has_id e.id) (with_entries (some entries) db).1.rumors ≡ true)
        entries
unfolding with_entries
with_entries-All [] db h = tt
with_entries-All (e ∷ es) db h =
    let k = import_entries-Imported (e ∷ es) db in k.all (ground (arith, k.most))

-- Where the migration is done with the old file and removes it, each rumor of the file is on record,
-- whichever queries failed; so a query that fails keeps the file.
pub migrate_legacy_seen_rumors-All :
    (unmarshal : Text → Option (List SeenRumor)) (base_dir json : Text) (entries : List SeenRumor)
    (db : SeenDb)
    → unmarshal json ≡ some entries
    → (migrate_legacy_seen_rumors unmarshal base_dir (some json) db).0 ≡ false
    → All
        (λ (e : SeenRumor).
          exists
            (has_id e.id)
            (migrate_legacy_seen_rumors unmarshal base_dir (some json) db).1.rumors
          ≡ true)
        entries
unfolding migrate_legacy_seen_rumors
migrate_legacy_seen_rumors-All unmarshal base_dir json entries db parsed gone =
    elim (Bool-cases (is_empty base_dir)) [
      | inl e ↦ let no : true ≡ false = rw e at gone in cc
      | inr e ↦
          let done : (with_entries (some entries) db).0 ≡ false = rw (e, parsed) at gone in
          rw (e, parsed) (with_entries-All entries db done)
    ]
