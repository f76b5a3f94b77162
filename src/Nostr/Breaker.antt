-- ===== src/Nostr/Breaker.antt =====
-- The circuit breaker of nostr/publish_queue.go that keeps track of one relay.
--
-- Times are nanoseconds since 1970, durations nanoseconds.
pub mod Backoff
use opencrow.Prelude.{ℕ, ◌+◌, ◌*◌, min, Bool, true, false, not, ◌||◌, ltb, leb, if◌then◌else◌}

abbrev pub second : ℕ
second = 1000000000

abbrev pub breaker_threshold : ℕ
breaker_threshold = 3

abbrev pub breaker_base_cooldown : ℕ
breaker_base_cooldown = 30 * second

abbrev pub breaker_max_cooldown : ℕ
breaker_max_cooldown = 30 * 60 * second

-- `opened` is the state `open` of the source.
pub data BreakerState : Type 0 where
  closed opened half_open : BreakerState

pub data AllowResult : Type 0 where
  deny allow_probe allow_all : AllowResult

pub record RelayBreaker : Type 0 where
  pub state : BreakerState
  pub failures : ℕ
  pub cooldown : ℕ
  pub next_probe : ℕ

-- What `breakerLocked` makes for a relay that has none.
abbrev pub new_breaker : RelayBreaker
new_breaker = record { state = closed; failures = 0; cooldown = 0; next_probe = 0 }

unfoldable pub allow : ℕ → RelayBreaker → AllowResult × RelayBreaker
allow now b = elim b.state [
  | closed ↦ (allow_all, b)
  | opened ↦
      if not (ltb now b.next_probe)
      then (allow_probe, record b { state = half_open })
      else (deny, b)
  | half_open ↦ (deny, b)
]

unfoldable pub on_success : RelayBreaker → RelayBreaker
on_success b = record b { state = closed; failures = 0; cooldown = breaker_base_cooldown }

abbrev pub is_half_open : BreakerState → Bool
is_half_open half_open = true
is_half_open _ = false

abbrev pub was_open : BreakerState → Bool
was_open closed = false
was_open opened = true
was_open half_open = true

-- The cooldown of a trip.
abbrev pub tripped_cooldown : RelayBreaker → ℕ
tripped_cooldown b =
    if was_open b.state then min (b.cooldown * 2) breaker_max_cooldown else breaker_base_cooldown

unfoldable pub on_failure : ℕ → RelayBreaker → RelayBreaker
on_failure now b =
    if is_half_open b.state || leb breaker_threshold (b.failures + 1)
    then record {
      state = opened;
      failures = b.failures + 1;
      cooldown = tripped_cooldown b;
      next_probe = now + tripped_cooldown b;
    }
    else record b { failures = b.failures + 1 }

-- `drainOnce` undoes a probe that came to nothing.
unfoldable pub roll_back_probe : RelayBreaker → RelayBreaker
roll_back_probe b = if is_half_open b.state then record b { state = opened } else b
