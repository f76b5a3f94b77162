-- ===== src/Nostr/Breaker/Backoff.antt =====
-- The cooldown of `relayBreaker` in nostr/publish_queue.go along a history of its calls.
use native.Mathlib.Nat.{pow-suc}
use opencrow.Prelude.{
  ℕ, suc, ◌+◌, ◌-◌, ◌*◌, ◌^◌, ◌≤◌, ◌<◌, ◌≡◌, refl, sym, subst, min, inl, inr, true, arith, leb, ltb,
  Bool-cases,
}
use opencrow.Nostr.Breaker.{
  BreakerState, closed, opened, half_open, RelayBreaker, new_breaker, allow, on_success, on_failure,
  roll_back_probe, breaker_threshold, breaker_base_cooldown, breaker_max_cooldown,
}

-- The calls that the queue makes on a breaker, from its creation, with the number of those of
-- `onFailure` since the last `onSuccess`: the connection failures in a row.
pub data History : ℕ → RelayBreaker → Type 0 where
  created : History 0 new_breaker
  asked : {n : ℕ} {b : RelayBreaker} → History n b → (now : ℕ) → History n (allow now b).1
  succeeded : {n : ℕ} {b : RelayBreaker} → History n b → History 0 (on_success b)
  failed : {n : ℕ} {b : RelayBreaker} → History n b → (now : ℕ) → History (n + 1) (on_failure now b)
  undone : {n : ℕ} {b : RelayBreaker} → History n b → History n (roll_back_probe b)

-- The cooldown after this many connection failures in a row.
abbrev pub backoff : ℕ → ℕ
backoff failures =
    min (breaker_base_cooldown * 2 ^ (failures - breaker_threshold)) breaker_max_cooldown

abbrev pub BackedOff : BreakerState → ℕ → ℕ → Type 0
BackedOff closed failures cooldown = failures < breaker_threshold
BackedOff _ failures cooldown = (breaker_threshold ≤ failures) × (cooldown ≡ backoff failures)

-- The breaker after this many connection failures in a row.
abbrev pub IsBackedOff : ℕ → RelayBreaker → Type 0
IsBackedOff n b = (b.failures ≡ n) × BackedOff b.state n b.cooldown

abbrev breaker : BreakerState → ℕ → ℕ → ℕ → RelayBreaker
breaker s n c t = record { state = s; failures = n; cooldown = c; next_probe = t }

backoff-suc :
    (n : ℕ) → breaker_threshold ≤ n → min (backoff n * 2) breaker_max_cooldown ≡ backoff (n + 1)
backoff-suc n h =
    let k : ℕ = n - breaker_threshold in
    let next : n + 1 - breaker_threshold ≡ suc k = omega arith in
    rw next (omega (arith, pow-suc 2 k))

allow-IsBackedOff :
    (now : ℕ) (s : BreakerState) (n c t : ℕ)
    → BackedOff s n c
    → IsBackedOff n (allow now (breaker s n c t)).1
unfolding allow
allow-IsBackedOff now closed n c t h = (refl, h)
allow-IsBackedOff now opened n c t h = elim (Bool-cases (ltb now t)) [
  | inl e ↦ rw e (refl, h)
  | inr e ↦ rw e (refl, h)
]
allow-IsBackedOff now half_open n c t h = (refl, h)

on_failure-IsBackedOff :
    (now : ℕ) (s : BreakerState) (n c t : ℕ)
    → BackedOff s n c
    → IsBackedOff (n + 1) (on_failure now (breaker s n c t))
unfolding on_failure
on_failure-IsBackedOff now closed n c t h = elim (Bool-cases (leb breaker_threshold (n + 1))) [
  | inl e ↦ let third : n ≡ 2 = ground arith in rw (e, third) (refl, (omega arith, refl))
  | inr e ↦ rw e (refl, ground arith)
]
on_failure-IsBackedOff now opened n c t h =
    let tripped : leb breaker_threshold (n + 1) ≡ true = ground arith in
    rw (tripped, h.1) (refl, (omega (arith, h.0), backoff-suc n h.0))
on_failure-IsBackedOff now half_open n c t h =
    rw h.1 (refl, (omega (arith, h.0), backoff-suc n h.0))

roll_back_probe-IsBackedOff :
    (s : BreakerState) (n c t : ℕ)
    → BackedOff s n c
    → IsBackedOff n (roll_back_probe (breaker s n c t))
unfolding roll_back_probe
roll_back_probe-IsBackedOff closed n c t h = (refl, h)
roll_back_probe-IsBackedOff opened n c t h = (refl, h)
roll_back_probe-IsBackedOff half_open n c t h = (refl, h)

-- Along every history of a breaker it is closed exactly while there are fewer than three connection
-- failures in a row, and otherwise its cooldown is 30 seconds, doubled for each failure from the
-- fourth on, at most 30 minutes. The breaker counts them right.
pub History-IsBackedOff : {n : ℕ} {b : RelayBreaker} → History n b → IsBackedOff n b
unfolding on_success
History-IsBackedOff created = (refl, omega arith)
History-IsBackedOff (asked {n} {b} h now) =
    let (count, k) = History-IsBackedOff h in
    subst (λ f. IsBackedOff n (allow now (breaker b.state f b.cooldown b.next_probe)).1) (sym count)
      (allow-IsBackedOff now b.state n b.cooldown b.next_probe k)
History-IsBackedOff (succeeded h) = (refl, omega arith)
History-IsBackedOff (failed {n} {b} h now) =
    let (count, k) = History-IsBackedOff h in
    subst (λ f. IsBackedOff (n + 1) (on_failure now (breaker b.state f b.cooldown b.next_probe)))
      (sym count) (on_failure-IsBackedOff now b.state n b.cooldown b.next_probe k)
History-IsBackedOff (undone {n} {b} h) =
    let (count, k) = History-IsBackedOff h in
    subst (λ f. IsBackedOff n (roll_back_probe (breaker b.state f b.cooldown b.next_probe)))
      (sym count) (roll_back_probe-IsBackedOff b.state n b.cooldown b.next_probe k)
