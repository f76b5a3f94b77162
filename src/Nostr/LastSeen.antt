-- ===== src/Nostr/LastSeen.antt =====
-- nostr/lastseen.go with its queries of nostr/queries.sql_sqlc.go: which rumors were seen already.
--
-- Times are Unix times in seconds. The result of a query is `none` where it fails.
pub mod Duplicates
use opencrow.Prelude.{
  ℕ, ◌-◌, ◌*◌, max, Bool, true, false, List, [], ◌∷◌, ◌++◌, Option, none, some, ltb, ◌==◌,
  if◌then◌else◌, delete, exists,
}
use opencrow.Prelude.Text.{Text, text_eq}
use opencrow.Database.{next_fault, later_faults}

abbrev pub nip59_safety_margin : ℕ
nip59_safety_margin = 3 * 24 * 60 * 60

-- A row of `seen_rumors`.
pub record SeenRumor : Type 0 where
  pub id : Text
  pub seen : ℕ

pub record SeenDb : Type 0 where
  pub rumors : List SeenRumor
  pub faults : List Bool

abbrev pub query : {A : Type 0} → (SeenDb → A × SeenDb) → SeenDb → Option A × SeenDb
query run db =
    let db' = record db { faults = later_faults db.faults } in
    if next_fault db.faults then (none, db') else let (a, db'') = run db' in (some a, db'')

abbrev pub has_id : Text → SeenRumor → Bool
has_id id r = text_eq id r.id

-- INSERT OR IGNORE: the number of rows that are inserted.
unfoldable pub insert_seen_rumor_if_new : Text → ℕ → SeenDb → Option ℕ × SeenDb
insert_seen_rumor_if_new id seen = query λ db.
    if exists (has_id id) db.rumors
    then (0, db)
    else (1, record db { rumors = db.rumors ++ record { id = id; seen = seen } ∷ [] })

unfoldable pub newest_of : List SeenRumor → ℕ
newest_of [] = 0
newest_of (r ∷ rs) = max r.seen (newest_of rs)

unfoldable pub newest_seen_rumor : SeenDb → Option ℕ × SeenDb
unfolding newest_of
newest_seen_rumor = query λ db. (newest_of db.rumors, db)

abbrev pub is_older : ℕ → SeenRumor → Bool
is_older cutoff r = ltb r.seen cutoff

unfoldable pub prune_seen_rumors : ℕ → SeenDb → Option (Unit {0}) × SeenDb
prune_seen_rumors cutoff =
    query λ db. (tt, record db { rumors = delete (is_older cutoff) db.rumors })

-- The newest time on record, if there is one.
abbrev pub newest_or : ℕ → Option ℕ → ℕ
newest_or now none = now
newest_or now (some ts) = if ltb 0 ts then ts else now

unfoldable pub subscription_since : ℕ → SeenDb → ℕ × SeenDb
unfolding newest_seen_rumor
subscription_since now db =
    let (ts, db') = newest_seen_rumor db in (newest_or now ts - nip59_safety_margin, db')

-- Whether the rumor was there already; `none` for an error.
abbrev pub is_duplicate : Option ℕ → Option Bool
is_duplicate none = none
is_duplicate (some rows_affected) = some (rows_affected == 0)

unfoldable pub check_and_mark_seen : Text → ℕ → SeenDb → Option Bool × SeenDb
unfolding insert_seen_rumor_if_new
check_and_mark_seen id now db =
    let (n, db') = insert_seen_rumor_if_new id now db in (is_duplicate n, db')

unfoldable pub prune_stale_seen_rumors : ℕ → ℕ → SeenDb → SeenDb
unfolding prune_seen_rumors
prune_stale_seen_rumors now max_age db = (prune_seen_rumors (now - max_age) db).1
