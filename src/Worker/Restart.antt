-- ===== src/Worker/Restart.antt =====
-- `Restart` and `ensurePi` of worker.go: whether the next pi process begins a fresh session.
use opencrow.Prelude.{◌≡◌, true, false, List, [], ◌∷◌, ◌++◌, Option, none, some, arith}
use opencrow.Worker.State.{PiError, Pi, Config, World, start_pi, restart, stop_pi}
use opencrow.Worker.Prompt.{ensure_pi, resolve_room_id}

-- A worker whose item is not cancelled, with what the next starts of pi come to.
abbrev pub starting : Option Pi → List (Option PiError) → World → World
starting p ss w = record w { pi = p; cancelled = false; starts = ss }

-- After a restart, whatever pi process there was, the next one that is started at the first attempt
-- begins a fresh session.
restart_fresh :
    (c : Config) (p : Option Pi) (ss : List (Option PiError)) (w : World)
    → let v = restart (starting p (none ∷ ss) w) in
      (ensure_pi c v).1.effects ≡ v.effects ++ start_pi (resolve_room_id c w).0 true ∷ []
unfolding restart stop_pi ensure_pi resolve_room_id
restart_fresh c none ss w = ground arith
restart_fresh c (some alive) ss w = ground arith

-- After a restart whose first start of pi fails, the process of the second start does not begin a
-- fresh session: it resumes the one that the user asked to leave.
pub restart_forgotten :
    (c : Config) (p : Option Pi) (e : PiError) (ss : List (Option PiError)) (w : World)
    → let v = restart (starting p (some e ∷ none ∷ ss) w) in
      (ensure_pi c (ensure_pi c v).1).1.effects
      ≡ v.effects ++ start_pi (resolve_room_id c w).0 false ∷ []
unfolding restart stop_pi ensure_pi resolve_room_id
restart_forgotten c none e ss w = ground arith
restart_forgotten c (some alive) e ss w = ground arith
