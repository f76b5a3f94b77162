-- ===== src/Nostr/Legacy.antt =====
-- nostr/migrate_legacy.go with its query of nostr/queries.sql_sqlc.go: the rumors of the JSON file
-- that came before the database.
use opencrow.Prelude.{
  ℕ, suc, Bool, true, false, List, [], ◌∷◌, Option, none, some, length, ltb, if◌then◌else◌,
}
use opencrow.Prelude.Text.{Text, text_eq, is_empty}
use opencrow.Nostr.LastSeen.{SeenRumor, SeenDb, query}

-- An entry whose id is there has its time replaced.
unfoldable pub upsert_rumor : SeenRumor → List SeenRumor → List SeenRumor
upsert_rumor e [] = e ∷ []
upsert_rumor e (r ∷ rs) =
    let rest = upsert_rumor e rs in if text_eq e.id r.id then e ∷ rs else r ∷ rest

-- Whether the query worked.
unfoldable pub upsert_seen_rumor : SeenRumor → SeenDb → Option (Unit {0}) × SeenDb
unfolding upsert_rumor
upsert_seen_rumor e = query λ db. (tt, record db { rumors = upsert_rumor e db.rumors })

abbrev pub counted : Option (Unit {0}) → ℕ → ℕ
counted none imported = imported
counted (some _) imported = suc imported

-- The number of entries that are imported.
unfoldable pub import_entries : List SeenRumor → SeenDb → ℕ × SeenDb
unfolding upsert_seen_rumor
import_entries [] db = (0, db)
import_entries (e ∷ es) db =
    let (r, db') = upsert_seen_rumor e db in
    let (imported, db'') = import_entries es db' in (counted r imported, db'')

abbrev pub migrated : List SeenRumor → ℕ × SeenDb → Bool × SeenDb
migrated entries (imported, db) = (if ltb imported (length entries) then true else false, db)

unfoldable pub with_entries : Option (List SeenRumor) → SeenDb → Bool × SeenDb
unfolding import_entries
with_entries none db = (true, db)
with_entries (some []) db = (false, db)
with_entries (some (e ∷ es)) db = migrated (e ∷ es) (import_entries (e ∷ es) db)

-- Whether the file is to be kept, given its contents, if it can be read, and how they parse.
unfoldable pub migrate_legacy_seen_rumors :
    (Text → Option (List SeenRumor)) → Text → Option Text → SeenDb → Bool × SeenDb
unfolding with_entries
migrate_legacy_seen_rumors unmarshal base_dir contents db =
    if is_empty base_dir
    then (true, db)
    else elim contents [ none ↦ (true, db) | some json ↦ with_entries (unmarshal json) db ]
