-- ===== src/Nostr/PublishQueue/Evictions.antt =====
-- `evictLocked` of nostr/publish_queue.go: what an eviction takes from the queue.
use opencrow.Prelude.{
  ℕ, ◌-◌, ◌≡◌, refl, Bool, true, ◌||◌, List, [], ◌∷◌, arith, ltb, if◌then◌else◌, delete,
}
use opencrow.Conversation.{is_nil}
use opencrow.Nostr.PublishQueue.{
  PublishItem, PublishQueue, evicted, evict_items, evict_locked, delete_item_locked, ttl_delivered,
  ttl_undelivered,
}

module _ {Event : Type 0} where
  -- The item has no relay left to wait for, or is over its time: 10 minutes where a relay has
  -- accepted it, else 24 hours.
  abbrev pub is_done : ℕ → PublishItem Event → Bool
  is_done now x =
      is_nil x.pending
      || ltb (if x.delivered then ttl_delivered else ttl_undelivered) (now - x.created_at)

  evicted_done :
      (now : ℕ) (x : PublishItem Event) (q : PublishQueue Event)
      → (evicted now x q).0 ≡ true
      → is_done now x ≡ true
  unfolding evicted
  evicted_done now x q h = ground arith

  delete-is_done-evict_items :
      (now : ℕ) (xs : List (PublishItem Event)) (q : PublishQueue Event)
      → delete (is_done now) (evict_items now xs q).0 ≡ delete (is_done now) xs
  unfolding evict_items
  delete-is_done-evict_items now [] q = refl
  delete-is_done-evict_items now (x ∷ xs) q =
      ground (arith, delete-is_done-evict_items now xs (evicted now x q).1, evicted_done now x q)

  -- Whichever queries fail, an eviction drops no item that still waits for a relay and is within its
  -- time, 24 hours before a relay has accepted it and 10 minutes after.
  pub delete-evict_locked :
      (now : ℕ) (q : PublishQueue Event)
      → delete (is_done now) (evict_locked now q).items ≡ delete (is_done now) q.items
  unfolding evict_locked
  delete-evict_locked now q = delete-is_done-evict_items now q.items q

  delete_item_locked-faults :
      (id : ℕ) (q : PublishQueue Event)
      → q.faults ≡ []
      → ((delete_item_locked id q).0 ≡ true) × ((delete_item_locked id q).1.faults ≡ [])
  unfolding delete_item_locked
  delete_item_locked-faults id q h = rw h (refl, refl)

  evicted-faults :
      (now : ℕ) (x : PublishItem Event) (q : PublishQueue Event)
      → q.faults ≡ []
      → ((evicted now x q).0 ≡ is_done now x) × ((evicted now x q).1.faults ≡ [])
  unfolding evicted
  evicted-faults now x q h = ground (arith, delete_item_locked-faults x.db_id q h)

  evict_items-faults :
      (now : ℕ) (xs : List (PublishItem Event)) (q : PublishQueue Event)
      → q.faults ≡ []
      → (evict_items now xs q).0 ≡ delete (is_done now) xs
  unfolding evict_items
  evict_items-faults now [] q h = refl
  evict_items-faults now (x ∷ xs) q h =
      let (gone, up) = evicted-faults now x q h in
      rw (gone, evict_items-faults now xs (evicted now x q).1 up)

  -- While the database answers, an eviction drops exactly the items that wait for no relay or are
  -- over their time, 24 hours before a relay has accepted them and 10 minutes after.
  evict_locked-items :
      (now : ℕ) (q : PublishQueue Event)
      → q.faults ≡ []
      → (evict_locked now q).items ≡ delete (is_done now) q.items
  unfolding evict_locked
  evict_locked-items now q h = evict_items-faults now q.items q h
