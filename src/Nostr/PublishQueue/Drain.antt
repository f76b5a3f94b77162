-- ===== src/Nostr/PublishQueue/Drain.antt =====
-- One pass of `drainOnce` in nostr/publish_queue.go over the relays.
use opencrow.Prelude.{
  ℕ, ◌+◌, ◌-◌, Bool, true, false, not, ◌&&◌, ◌||◌, List, [], ◌∷◌, ◌++◌, Option, none, some, ltb,
  ◌==◌, if◌then◌else◌, min,
}
use opencrow.Prelude.Text.{Text, text_eq}
use opencrow.Conversation.{is_member}
use opencrow.Nostr.Breaker.{
  BreakerState, closed, opened, AllowResult, deny, allow_probe, allow_all, RelayBreaker,
  new_breaker, allow, on_success, on_failure, roll_back_probe, breaker_base_cooldown,
  breaker_max_cooldown,
}
use opencrow.Nostr.PublishQueue.{
  PublishItem, Attempt, PublishQueue, without_relay, record_reject, accept, store_item,
  evict_locked,
}

abbrev pub Breakers : Type 0
Breakers = Text → RelayBreaker

abbrev pub set_breaker : Text → RelayBreaker → Breakers → Breakers
set_breaker relay b bs r = if text_eq relay r then b else bs r

-- The relays that an item waits for.
unfoldable pub is_wanted : {Event : Type 0} → Text → List (PublishItem Event) → Bool
unfolding is_member
is_wanted r [] = false
is_wanted r (x ∷ xs) = is_member r x.pending || is_wanted r xs

-- Relays with the addresses of the items that they are to be offered, and the relays to be probed.
pub record Work : Type 0 where
  pub batches : List (Text × List ℕ)
  pub probes : List Text
  pub breakers : Breakers

unfoldable pub add_work : Text → ℕ → List (Text × List ℕ) → List (Text × List ℕ)
add_work relay a [] = (relay, a ∷ []) ∷ []
add_work relay a ((r, as') ∷ ws) =
    if text_eq relay r then (r, as' ++ a ∷ []) ∷ ws else (r, as') ∷ add_work relay a ws

-- What one relay of one item adds, given what its breaker allows.
abbrev pub allowed : Text → ℕ → AllowResult × RelayBreaker → Work → Work
allowed relay a (allow_all, b) k = record {
  batches = add_work relay a k.batches;
  probes = k.probes;
  breakers = set_breaker relay b k.breakers;
}
allowed relay a (allow_probe, b) k =
    if is_member relay k.probes
    then record k { breakers = set_breaker relay b k.breakers }
    else record {
      batches = add_work relay a k.batches;
      probes = relay ∷ k.probes;
      breakers = set_breaker relay b k.breakers;
    }
allowed relay a (deny, b) k = record k { breakers = set_breaker relay b k.breakers }

unfoldable pub collect_relays : ℕ → ℕ → List Text → Work → Work
collect_relays now a [] k = k
collect_relays now a (relay ∷ rs) k =
    collect_relays now a rs (allowed relay a (allow now (k.breakers relay)) k)

unfoldable pub collect_items : {Event : Type 0} → ℕ → List (PublishItem Event) → Work → Work
collect_items now [] k = k
collect_items now (x ∷ xs) k = collect_items now xs (collect_relays now x.address x.pending k)

abbrev pub failed_attempt : Attempt
failed_attempt = record { succeeds = false; took = 0; cancels = true }

unfoldable pub find_item :
    {Event : Type 0} → ℕ → List (PublishItem Event) → Option (PublishItem Event)
find_item a [] = none
find_item a (x ∷ xs) = if x.address == a then some x else find_item a xs

abbrev pub resolve : Text → Bool → List Text → List Text
resolve relay true probes = without_relay relay probes
resolve relay false probes = probes

abbrev pub roll_back_probes : List Text → Breakers → Breakers
roll_back_probes probes bs r = if is_member r probes then roll_back_probe (bs r) else bs r

abbrev pub is_closed : BreakerState → Bool
is_closed closed = true
is_closed _ = false

-- The relays that some item waits for.
unfoldable pub wanted : {Event : Type 0} → List (PublishItem Event) → List Text
wanted [] = []
wanted (x ∷ xs) = x.pending ++ wanted xs

abbrev pub is_open : BreakerState → Bool
is_open opened = true
is_open _ = false

unfoldable pub all_open : Breakers → List Text → Bool
all_open bs [] = true
all_open bs (r ∷ rs) = is_open (bs r).state && all_open bs rs

abbrev pub sooner : ℕ → Option ℕ → ℕ
sooner t none = t
sooner t (some u) = min t u

unfoldable pub earliest : Breakers → List Text → Option ℕ
earliest bs [] = none
earliest bs (r ∷ rs) = some (sooner (bs r).next_probe (earliest bs rs))

abbrev pub until : ℕ → Option ℕ → ℕ
until now none = 0
until now (some t) = t - now

module _ {Event : Type 0} where
  unfoldable pub collect_work_locked : ℕ → PublishQueue Event → Work
  collect_work_locked now q =
      collect_items now q.items (record { batches = []; probes = []; breakers = q.breakers })

  abbrev pub passed : Attempt → PublishQueue Event → Bool × PublishQueue Event
  passed t q = (t.succeeds, record q { now = q.now + t.took; cancelled = q.cancelled || t.cancels })

  -- `EnsureRelay` and `Publish`; a script that is used up stands for the end of the program.
  unfoldable pub ensure_relay : PublishQueue Event → Bool × PublishQueue Event
  ensure_relay q = elim q.connects [
    | [] ↦ passed failed_attempt q
    | t ∷ ts ↦ passed t (record q { connects = ts })
  ]

  unfoldable pub publish : PublishQueue Event → Bool × PublishQueue Event
  publish q = elim q.publishes [
    | [] ↦ passed failed_attempt q
    | t ∷ ts ↦ passed t (record q { publishes = ts })
  ]

  abbrev pub stored : PublishItem Event × PublishQueue Event → PublishQueue Event
  stored (item, q) = record q { items = store_item item q.items }

  abbrev pub answered : Text → PublishItem Event → Bool × PublishQueue Event → PublishQueue Event
  answered relay item (true, q) = stored (accept relay item q)
  answered relay item (false, q) = stored (record_reject relay item, q)

  abbrev pub publish_found :
      Text → Option (PublishItem Event) → PublishQueue Event → PublishQueue Event
  publish_found relay none q = q
  publish_found relay (some item) q = answered relay item (publish q)

  -- Whether every item was offered: the context may end between two of them.
  unfoldable pub publish_items : Text → List ℕ → PublishQueue Event → Bool × PublishQueue Event
  publish_items relay [] q = (true, q)
  publish_items relay (a ∷ as') q =
      if q.cancelled
      then (false, q)
      else publish_items relay as' (publish_found relay (find_item a q.items) q)

  abbrev pub change_breaker :
      Text → (RelayBreaker → RelayBreaker) → PublishQueue Event → PublishQueue Event
  change_breaker relay f q = record q {
    breakers = set_breaker relay (f (q.breakers relay)) q.breakers;
  }

  -- Whether the breaker is resolved.
  abbrev pub finished : Text → Bool × PublishQueue Event → Bool × PublishQueue Event
  finished relay (true, q) = (true, change_breaker relay on_success q)
  finished relay (false, q) = (false, q)

  abbrev pub connected : Text → List ℕ → Bool × PublishQueue Event → Bool × PublishQueue Event
  connected relay as' (true, q) = finished relay (publish_items relay as' q)
  connected relay as' (false, q) = (true, change_breaker relay (on_failure q.now) q)

  unfoldable pub publish_batch : Text → List ℕ → PublishQueue Event → Bool × PublishQueue Event
  publish_batch relay as' q = connected relay as' (ensure_relay q)

  -- The loop over the batches, with the probes that are not resolved.
  unfoldable pub publish_work :
      List (Text × List ℕ) → List Text → PublishQueue Event → List Text × PublishQueue Event
  publish_work [] probes q = (probes, q)
  publish_work ((relay, as') ∷ ws) probes q =
      if q.cancelled
      then (probes, q)
      else let (resolved, q') = publish_batch relay as' q in
        publish_work ws (resolve relay resolved probes) q'

  unfoldable pub gc_breakers_locked : PublishQueue Event → Breakers
  gc_breakers_locked q r =
      let b = q.breakers r in
      if not (is_wanted r q.items)
        && (is_closed b.state || ltb breaker_max_cooldown (q.now - b.next_probe))
      then new_breaker
      else b

  -- How long the loop may sleep.
  unfoldable pub next_wake_locked : PublishQueue Event → ℕ
  next_wake_locked q =
      let rs = wanted q.items in
      if all_open q.breakers rs then until q.now (earliest q.breakers rs) else breaker_base_cooldown

  -- A pass, given the order in which the map of batches is ranged over.
  unfoldable pub drain_once :
      (List (Text × List ℕ) → List (Text × List ℕ)) → PublishQueue Event → ℕ × PublishQueue Event
  drain_once ranged q0 =
      let q = evict_locked q0.now q0 in
      let k = collect_work_locked q0.now q in
      let (probes, q') =
        publish_work (ranged k.batches) k.probes (record q { breakers = k.breakers }) in
      let q'' = evict_locked q'.now (record q' {
        breakers = roll_back_probes probes q'.breakers;
        attempt_gen = q'.attempt_gen + 1;
      }) in
      let done = record q'' { breakers = gc_breakers_locked q'' } in (next_wake_locked done, done)
