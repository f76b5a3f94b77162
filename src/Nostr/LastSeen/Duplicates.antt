-- ===== src/Nostr/LastSeen/Duplicates.antt =====
-- `checkAndMarkSeen` of nostr/lastseen.go along a history of marks and prunes.
use opencrow.Prelude.{
  ℕ, ◌+◌, ◌-◌, ◌≤◌, ◌≡◌, Bool, true, false, ◌&&◌, List, [], ◌∷◌, ◌++◌, some, leb, arith, delete,
  exists,
}
use opencrow.Prelude.Text.{Text, text_eq_refl}
use opencrow.Database.{next_fault}
use opencrow.Nostr.LastSeen.{
  SeenRumor, SeenDb, has_id, is_older, check_and_mark_seen, prune_stale_seen_rumors,
}

-- The calls of the backend from one state to another, the prunes no later than `last`.
pub data History (max_age last : ℕ) (db : SeenDb) : SeenDb → Type 0 where
  start : History max_age last db db
  marked :
      {db' : SeenDb}
      → History max_age last db db'
      → (id : Text) (now : ℕ) → History max_age last db (check_and_mark_seen id now db').1
  pruned :
      {db' : SeenDb}
      → History max_age last db db'
      → (now : ℕ) → now ≤ last
      → History max_age last db (prune_stale_seen_rumors now max_age db')

-- The rumor has a mark of time `t` or later.
abbrev is_marked : Text → ℕ → SeenRumor → Bool
is_marked id t r = has_id id r && leb t r.seen

exists_snoc :
    (p : SeenRumor → Bool) (rs : List SeenRumor) (r : SeenRumor)
    → exists p rs ≡ true
    → exists p (rs ++ r ∷ []) ≡ true
exists_snoc p [] r h = cc
exists_snoc p (x ∷ rs) r h = ground (arith, exists_snoc p rs r)

exists-last :
    (p : SeenRumor → Bool) (rs : List SeenRumor) (r : SeenRumor)
    → p r ≡ true
    → exists p (rs ++ r ∷ []) ≡ true
exists-last p [] r h = rw h
exists-last p (x ∷ rs) r h = ground (arith, exists-last p rs r h)

exists-delete :
    (id : Text) (t cutoff : ℕ) (rs : List SeenRumor)
    → cutoff ≤ t
    → exists (is_marked id t) rs ≡ true
    → exists (is_marked id t) (delete (is_older cutoff) rs) ≡ true
exists-delete id t cutoff [] le h = cc
exists-delete id t cutoff (r ∷ rs) le h = ground (arith, exists-delete id t cutoff rs le)

exists-has_id :
    (id : Text) (t : ℕ) (rs : List SeenRumor)
    → exists (is_marked id t) rs ≡ true
    → exists (has_id id) rs ≡ true
exists-has_id id t [] h = cc
exists-has_id id t (r ∷ rs) h = ground (arith, exists-has_id id t rs)

check_and_mark_seen-marked :
    (id id' : Text) (t now : ℕ) (db : SeenDb)
    → exists (is_marked id t) db.rumors ≡ true
    → exists (is_marked id t) (check_and_mark_seen id' now db).1.rumors ≡ true
unfolding check_and_mark_seen
check_and_mark_seen-marked id id' t now db h =
    ground (arith, exists_snoc (is_marked id t) db.rumors (record { id = id'; seen = now }) h)

prune-marked :
    (id : Text) (t now max_age : ℕ) (db : SeenDb)
    → now - max_age ≤ t
    → exists (is_marked id t) db.rumors ≡ true
    → exists (is_marked id t) (prune_stale_seen_rumors now max_age db).rumors ≡ true
unfolding prune_stale_seen_rumors
prune-marked id t now max_age db le h =
    ground (arith, exists-delete id t (now - max_age) db.rumors le h)

History-marked :
    (id : Text) (t max_age last : ℕ) (db db' : SeenDb)
    → last ≤ t + max_age
    → History max_age last db db'
    → exists (is_marked id t) db.rumors ≡ true
    → exists (is_marked id t) db'.rumors ≡ true
History-marked id t max_age last db _ le start h = h
History-marked id t max_age last db _ le (marked {db'} k id' now) h =
    check_and_mark_seen-marked id id' t now db' (History-marked id t max_age last db db' le k h)
History-marked id t max_age last db _ le (pruned {db'} k now before) h =
    prune-marked id t now max_age db' (omega arith) (History-marked id t max_age last db db' le k h)

check_and_mark_seen-new :
    (id : Text) (t : ℕ) (db : SeenDb)
    → (check_and_mark_seen id t db).0 ≡ some false
    → exists (is_marked id t) (check_and_mark_seen id t db).1.rumors ≡ true
unfolding check_and_mark_seen
check_and_mark_seen-new id t db h =
    let here : is_marked id t (record { id = id; seen = t }) ≡ true =
      ground (arith, text_eq_refl id) in
    ground (arith, exists-last (is_marked id t) db.rumors (record { id = id; seen = t }) here)

-- Once a rumor was new at time `t`, it is reported as a duplicate after every history of marks and
-- prunes up to `t` plus the age that is kept, whichever of their queries failed, as long as the
-- query that asks for it does not fail.
pub check_and_mark_seen_again :
    (id : Text) (t max_age last now : ℕ) (db db' : SeenDb)
    → (check_and_mark_seen id t db).0 ≡ some false
    → last ≤ t + max_age
    → History max_age last (check_and_mark_seen id t db).1 db'
    → next_fault db'.faults ≡ false
    → (check_and_mark_seen id now db').0 ≡ some true
unfolding check_and_mark_seen
check_and_mark_seen_again id t max_age last now db db' h le k up =
    let m = exists-has_id id t db'.rumors (
      History-marked id t max_age last (check_and_mark_seen id t db).1 db' le k
        (check_and_mark_seen-new id t db h)) in
    ground (arith, m, up)
