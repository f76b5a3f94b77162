-- ===== src/Nostr/PublishQueue/Probes.antt =====
-- The half-open breakers during `drainOnce` of nostr/publish_queue.go.
use opencrow.Prelude.{
  ℕ, ◌+◌, ◌≡◌, ◌⊎◌, ◌∙◌, refl, ap, Bool, true, false, ◌||◌, List, [], ◌∷◌, Option, none, some,
  arith, if_keeps, ◌==◌,
}
use opencrow.Prelude.Text.{Text, text_eq, text_eq_iff}
use opencrow.Conversation.{is_member}
use opencrow.Nostr.Breaker.{
  AllowResult, deny, allow_probe, allow_all, RelayBreaker, allow, on_success, on_failure,
  roll_back_probe, is_half_open,
}
use opencrow.Nostr.PublishQueue.{
  PublishItem, PublishQueue, without_relay, evict_locked, evict_items, evicted, delete_item_locked,
  accept, forget_row,
}
use opencrow.Nostr.PublishQueue.Drain.{
  Breakers, set_breaker, Work, allowed, collect_relays, collect_items, collect_work_locked,
  publish_items, publish_batch, publish_work, drain_once, roll_back_probes, gc_breakers_locked,
  ensure_relay, publish, publish_found, resolve, finished, connected, answered, find_item,
}

-- Each half-open breaker is that of a relay to be probed.
abbrev pub IsProbed : List Text → Breakers → Type 0
IsProbed probes bs = (r : Text) → is_half_open (bs r).state ≡ true → is_member r probes ≡ true

-- A breaker is half open after it was asked only if it allows a probe, or was so before.
allow-half_open :
    (now : ℕ) (b : RelayBreaker)
    → is_half_open (allow now b).1.state ≡ true
    → ((allow now b).0 ≡ allow_probe) ⊎ (is_half_open b.state ≡ true)
unfolding allow
allow-half_open now b h = ground arith

allowed-IsProbed :
    (relay : Text) (a : ℕ) (res : AllowResult) (b : RelayBreaker) (k : Work)
    → (is_half_open b.state ≡ true
        → (res ≡ allow_probe) ⊎ (is_half_open (k.breakers relay).state ≡ true))
    → IsProbed k.probes k.breakers
    → let k' = allowed relay a (res, b) k in IsProbed k'.probes k'.breakers
unfolding is_member
allowed-IsProbed relay a deny b k asked h r e =
    ground (arith, h relay, h r, asked, text_eq_iff relay r)
allowed-IsProbed relay a allow_probe b k asked h r e =
    ground (arith, h relay, h r, asked, text_eq_iff relay r)
allowed-IsProbed relay a allow_all b k asked h r e =
    ground (arith, h relay, h r, asked, text_eq_iff relay r)

on_failure-half_open : (now : ℕ) (b : RelayBreaker) → is_half_open (on_failure now b).state ≡ false
unfolding on_failure
on_failure-half_open now b = ground arith

roll_back_probe-half_open : (b : RelayBreaker) → is_half_open (roll_back_probe b).state ≡ false
unfolding roll_back_probe
roll_back_probe-half_open b = ground arith

pub is_member-without_relay :
    (r relay : Text) (rs : List Text)
    → text_eq relay r ≡ false
    → is_member r (without_relay relay rs) ≡ is_member r rs
unfolding is_member
is_member-without_relay r relay [] ne = refl
is_member-without_relay r relay (x ∷ rs) ne =
    ground (arith, is_member-without_relay r relay rs ne, text_eq_iff relay x, text_eq_iff x r)

-- Resolving one relay keeps the others probed.
change_breaker-IsProbed :
    (relay : Text) (probes : List Text) (b : RelayBreaker) (bs : Breakers)
    → is_half_open b.state ≡ false
    → IsProbed probes bs
    → IsProbed (without_relay relay probes) (set_breaker relay b bs)
change_breaker-IsProbed relay probes b bs n h r e =
    ground (arith, h r, is_member-without_relay r relay probes, text_eq_iff relay r)

collect_relays-IsProbed :
    (now a : ℕ) (rs : List Text) (k : Work)
    → IsProbed k.probes k.breakers
    → let k' = collect_relays now a rs k in IsProbed k'.probes k'.breakers
unfolding collect_relays
collect_relays-IsProbed now a [] k h = h
collect_relays-IsProbed now a (relay ∷ rs) k h =
    let (res, b) = allow now (k.breakers relay) in
    collect_relays-IsProbed now a rs (allowed relay a (res, b) k)
      (allowed-IsProbed relay a res b k (allow-half_open now (k.breakers relay)) h)

collect_items-IsProbed :
    {Event : Type 0} (now : ℕ) (xs : List (PublishItem Event)) (k : Work)
    → IsProbed k.probes k.breakers
    → let k' = collect_items now xs k in IsProbed k'.probes k'.breakers
unfolding collect_items
collect_items-IsProbed now [] k h = h
collect_items-IsProbed now (x ∷ xs) k h =
    collect_items-IsProbed now xs (collect_relays now x.address x.pending k)
      (collect_relays-IsProbed now x.address x.pending k h)

roll_back_probes-half_open :
    (probes : List Text) (bs : Breakers)
    → IsProbed probes bs
    → (r : Text) → is_half_open (roll_back_probes probes bs r).state ≡ false
roll_back_probes-half_open probes bs h r = ground (arith, h r, roll_back_probe-half_open (bs r))

module _ {Event : Type 0} where
  delete_item_locked-breakers :
      (id : ℕ) (q : PublishQueue Event) → (delete_item_locked id q).1.breakers ≡ q.breakers
  unfolding delete_item_locked
  delete_item_locked-breakers id q = ground arith

  evicted-breakers :
      (now : ℕ) (x : PublishItem Event) (q : PublishQueue Event)
      → (evicted now x q).1.breakers ≡ q.breakers
  unfolding evicted
  evicted-breakers now x q = ground (arith, delete_item_locked-breakers x.db_id q)

  evict_items-breakers :
      (now : ℕ) (xs : List (PublishItem Event)) (q : PublishQueue Event)
      → (evict_items now xs q).1.breakers ≡ q.breakers
  unfolding evict_items
  evict_items-breakers now [] q = refl
  evict_items-breakers now (x ∷ xs) q =
      evict_items-breakers now xs (evicted now x q).1 ∙ evicted-breakers now x q

  evict_locked-breakers :
      (now : ℕ) (q : PublishQueue Event) → (evict_locked now q).breakers ≡ q.breakers
  unfolding evict_locked
  evict_locked-breakers now q = evict_items-breakers now q.items q

  ensure_relay-breakers : (q : PublishQueue Event) → (ensure_relay q).1.breakers ≡ q.breakers
  unfolding ensure_relay
  ensure_relay-breakers q = ground arith

  publish-breakers : (q : PublishQueue Event) → (publish q).1.breakers ≡ q.breakers
  unfolding publish
  publish-breakers q = ground arith

  forget_row-breakers :
      (r : Bool × PublishQueue Event) (item : PublishItem Event)
      → (forget_row r item).1.breakers ≡ r.1.breakers
  forget_row-breakers (true, q) item = refl
  forget_row-breakers (false, q) item = refl

  accept-breakers :
      (relay : Text) (item : PublishItem Event) (q : PublishQueue Event)
      → (accept relay item q).1.breakers ≡ q.breakers
  unfolding accept
  accept-breakers relay item q =
      if_keeps {A = PublishItem Event × PublishQueue Event} (λ z. z.1.breakers ≡ q.breakers)
        (item.delivered || item.db_id == 0) refl
        (forget_row-breakers (delete_item_locked item.db_id q) _
          ∙ delete_item_locked-breakers item.db_id q)

  answered-breakers :
      (relay : Text) (item : PublishItem Event) (r : Bool × PublishQueue Event)
      → (answered relay item r).breakers ≡ r.1.breakers
  answered-breakers relay item (true, q) = accept-breakers relay item q
  answered-breakers relay item (false, q) = refl

  publish_found-breakers :
      (relay : Text) (o : Option (PublishItem Event)) (q : PublishQueue Event)
      → (publish_found relay o q).breakers ≡ q.breakers
  publish_found-breakers relay none q = refl
  publish_found-breakers relay (some item) q =
      answered-breakers relay item (publish q) ∙ publish-breakers q

  publish_items-breakers :
      (relay : Text) (as' : List ℕ) (q : PublishQueue Event)
      → (publish_items relay as' q).1.breakers ≡ q.breakers
  unfolding publish_items
  publish_items-breakers relay [] q = refl
  publish_items-breakers relay (a ∷ as') q =
      if_keeps {A = Bool × PublishQueue Event} (λ z. z.1.breakers ≡ q.breakers) q.cancelled refl
        (publish_items-breakers relay as' (publish_found relay (find_item a q.items) q)
          ∙ publish_found-breakers relay (find_item a q.items) q)

  -- After a batch the relay is resolved, or nothing has changed of the breakers.
  finished-IsProbed :
      (relay : Text) (probes : List Text) (r : Bool × PublishQueue Event)
      → IsProbed probes r.1.breakers
      → let (resolved, q') = finished relay r in
        IsProbed (resolve relay resolved probes) q'.breakers
  unfolding on_success
  finished-IsProbed relay probes (true, q) h =
      change_breaker-IsProbed relay probes (on_success (q.breakers relay)) q.breakers refl h
  finished-IsProbed relay probes (false, q) h = h

  connected-IsProbed :
      (relay : Text) (as' : List ℕ) (probes : List Text) (r : Bool × PublishQueue Event)
      → IsProbed probes r.1.breakers
      → let (resolved, q') = connected relay as' r in
        IsProbed (resolve relay resolved probes) q'.breakers
  connected-IsProbed relay as' probes (true, q) h =
      finished-IsProbed relay probes (publish_items relay as' q)
        (rw (publish_items-breakers relay as' q) h)
  connected-IsProbed relay as' probes (false, q) h =
      change_breaker-IsProbed relay probes (on_failure q.now (q.breakers relay)) q.breakers
        (on_failure-half_open q.now (q.breakers relay)) h

  publish_work-IsProbed :
      (ws : List (Text × List ℕ)) (probes : List Text) (q : PublishQueue Event)
      → IsProbed probes q.breakers
      → let (probes', q') = publish_work ws probes q in IsProbed probes' q'.breakers
  unfolding publish_work publish_batch
  publish_work-IsProbed [] probes q h = h
  publish_work-IsProbed ((relay, as') ∷ ws) probes q h =
      let (resolved, q') = connected relay as' (ensure_relay q) in
      if_keeps {A = List Text × PublishQueue Event} (λ z. IsProbed z.0 z.1.breakers) q.cancelled h
        (publish_work-IsProbed ws (resolve relay resolved probes) q'
          (connected-IsProbed relay as' probes (ensure_relay q) (rw (ensure_relay-breakers q) h)))

  -- No relay is left half open.
  abbrev pub IsSettled : PublishQueue Event → Type 0
  IsSettled q = (r : Text) → is_half_open (q.breakers r).state ≡ false

  gc_breakers_locked-half_open :
      (q : PublishQueue Event) (r : Text)
      → is_half_open (q.breakers r).state ≡ false
      → is_half_open (gc_breakers_locked q r).state ≡ false
  unfolding gc_breakers_locked
  gc_breakers_locked-half_open q r h = ground arith

  -- A pass that begins with no breaker half open ends with none, wherever it is cancelled, whatever
  -- the relays answer and in whatever order the batches are ranged over.
  pub drain_once-IsSettled :
      (ranged : List (Text × List ℕ) → List (Text × List ℕ)) (q : PublishQueue Event)
      → IsSettled q
      → IsSettled (drain_once ranged q).1
  unfolding drain_once collect_work_locked
  drain_once-IsSettled ranged q h r =
      let v = evict_locked q.now q in
      let k = collect_work_locked q.now v in
      let w = publish_work (ranged k.batches) k.probes (record v { breakers = k.breakers }) in
      let settled : IsProbed [] v.breakers = λ r' e.
        absurd
          (cc (e, h r', ap (λ bs. is_half_open (bs r').state) (evict_locked-breakers q.now q))) in
      let probed =
        publish_work-IsProbed (ranged k.batches) k.probes (record v { breakers = k.breakers })
          (collect_items-IsProbed q.now v.items
            (record { batches = []; probes = []; breakers = v.breakers }) settled) in
      let x = record w.1 {
        breakers = roll_back_probes w.0 w.1.breakers;
        attempt_gen = w.1.attempt_gen + 1;
      } in
      gc_breakers_locked-half_open (evict_locked w.1.now x) r (
        rw (evict_locked-breakers w.1.now x) (roll_back_probes-half_open w.0 w.1.breakers probed r))
