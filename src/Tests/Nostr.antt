-- ===== src/Tests/Nostr.antt =====
-- A publish queue with one event for two relays, one of which is down.
use opencrow.Prelude.{
  ℕ, ◌*◌, ◌≡◌, refl, arith, true, false, List, [], ◌∷◌, some, All, delete, if◌then◌else◌,
}
use opencrow.Prelude.Text.{Text, codes, text_eq}
use opencrow.Prelude.Strings.{trim_space}
use opencrow.Nostr.Breaker.{RelayBreaker, new_breaker, opened, allow, on_failure}
use opencrow.Nostr.Breaker.Backoff.{
  IsBackedOff, History, created, asked, failed, History-IsBackedOff,
}
use opencrow.Nostr.PublishQueue.{PublishItem, Attempt, PublishQueue, evict_locked, enqueue}
use opencrow.Nostr.PublishQueue.Load.{new_publish_queue}
use opencrow.Nostr.PublishQueue.RoundTrip.{IsRelay, restored_item, new_publish_queue-enqueue}
use opencrow.Nostr.PublishQueue.Drain.{drain_once}
use opencrow.Nostr.LastSeen.{SeenDb, check_and_mark_seen, prune_stale_seen_rumors}
use opencrow.Nostr.LastSeen.Duplicates.{pruned, start, check_and_mark_seen_again}
use opencrow.Nostr.PublishQueue.Probes.{IsSettled, drain_once-IsSettled}
use opencrow.Nostr.PublishQueue.Evictions.{is_done, delete-evict_locked}

abbrev tripped : RelayBreaker
tripped = on_failure 40 (on_failure 30 (on_failure 20 (on_failure 10 new_breaker)))

a-History : History 4 (allow 50 tripped).1
a-History = asked (failed (failed (failed (failed created 10) 20) 30) 40) 50

History-IsBackedOff_example : IsBackedOff 4 (allow 50 tripped).1
History-IsBackedOff_example = History-IsBackedOff a-History

abbrev note : PublishItem Text
note = record {
  address = 1;
  db_id = 7;
  event = codes "note";
  pending = codes "wss://a" ∷ codes "wss://b" ∷ [];
  delivered = false;
  created_at = 1;
  rejects = λ relay. 0;
}

abbrev fine : Attempt
fine = record { succeeds = true; took = 1; cancels = false }

-- The cooldown of the relay `wss://a` is over.
abbrev queue : PublishQueue Text
queue = record {
  items = note ∷ [];
  next_address = 2;
  breakers = λ relay.
      if text_eq relay (codes "wss://a")
      then record { state = opened; failures = 3; cooldown = 30000000000; next_probe = 5 }
      else new_breaker;
  attempt_gen = 0;
  wake = false;
  rows = [];
  rows_seq = 8;
  faults = [];
  now = 9;
  cancelled = false;
  connects = fine ∷ fine ∷ [];
  publishes = fine ∷ fine ∷ [];
}

queue-IsSettled : IsSettled queue
queue-IsSettled r = ground arith

drain_once-IsSettled_example : IsSettled (drain_once (λ ws. ws) queue).1
drain_once-IsSettled_example = drain_once-IsSettled (λ ws. ws) queue queue-IsSettled

delete-evict_locked_example :
    delete (is_done 9) (evict_locked 9 queue).items ≡ delete (is_done 9) queue.items
delete-evict_locked_example = delete-evict_locked 9 queue

abbrev two_relays : List Text
two_relays = codes "wss://a" ∷ codes "wss://b" ∷ []

two_relays-IsRelay : All IsRelay two_relays
unfolding trim_space
two_relays-IsRelay = ((refl, refl, refl), ((refl, refl, refl), tt))

new_publish_queue-enqueue_example :
    (new_publish_queue
      (λ t. some t)
      (enqueue (λ t. some t) (codes "note") two_relays queue)).1.items
    ≡ restored_item (codes "note") two_relays queue ∷ []
new_publish_queue-enqueue_example =
    new_publish_queue-enqueue (λ t. some t) (λ t. some t) (codes "note") (codes "note") two_relays
      queue refl refl refl two_relays-IsRelay refl refl

abbrev nothing_seen : SeenDb
nothing_seen = record { rumors = []; faults = [] }

abbrev week : ℕ
week = 7 * 24 * 60 * 60

check_and_mark_seen_again_example :
    (check_and_mark_seen (codes "r") 1000009 (
      prune_stale_seen_rumors 1000005 week
        (check_and_mark_seen (codes "r") 1000000 nothing_seen).1)).0
    ≡ some true
unfolding check_and_mark_seen prune_stale_seen_rumors
check_and_mark_seen_again_example =
    check_and_mark_seen_again (codes "r") 1000000 week 1000005 1000009 nothing_seen
      (prune_stale_seen_rumors 1000005 week
        (check_and_mark_seen (codes "r") 1000000 nothing_seen).1)
      refl (omega arith) (pruned start 1000005 (omega arith)) refl
