-- ===== src/Nostr/PublishQueue.antt =====
-- The items of the queue in nostr/publish_queue.go: how one is enqueued, rejected, delivered and
-- evicted, with the queries of nostr/queries.sql_sqlc.go that keep it on disk.
--
-- `Event` is the event type of the nostr library and `marshal` its `MarshalJSON`. An item that the
-- source reaches through a pointer has an address. The breaker of a relay without an entry in the
-- map is the one that `breakerLocked` would make. What the network and the clock do is a script:
-- one `Attempt` for each connection and for each event that is published.
pub mod Drain
pub mod Load
pub mod RoundTrip
pub mod Evictions
pub mod Probes
pub mod Rejections
use opencrow.Prelude.{
  ℕ, ◌+◌, ◌-◌, ◌*◌, ◌/◌, ◌||◌, Bool, true, false, not, ◌&&◌, List, [], ◌∷◌, ◌++◌, Option, none,
  some, ltb, leb, ◌==◌, if◌then◌else◌, delete, map,
}
use opencrow.Prelude.Text.{Text, text_eq, newline}
use opencrow.Prelude.Strings.{join}
use opencrow.Conversation.{is_member, is_nil}
use opencrow.Database.{next_fault, later_faults}
use opencrow.Nostr.Breaker.{second, RelayBreaker}

abbrev pub ttl_undelivered : ℕ
ttl_undelivered = 24 * 60 * 60 * second

abbrev pub ttl_delivered : ℕ
ttl_delivered = 10 * 60 * second

abbrev pub reject_threshold : ℕ
reject_threshold = 3

-- A row of `publish_queue`.
pub record QueueRow : Type 0 where
  pub id : ℕ
  pub event_json : Text
  pub relays : Text
  pub created_at : ℕ

pub record PublishItem (Event : Type 0) : Type 0 where
  pub address : ℕ
  pub db_id : ℕ
  pub event : Event
  pub pending : List Text  -- the keys of `Pending`
  pub delivered : Bool
  pub created_at : ℕ
  pub rejects : Text → ℕ  -- 0 for a relay without an entry

-- Whether a call to a relay succeeds, how long it takes, and whether the context ends meanwhile.
pub record Attempt : Type 0 where
  pub succeeds : Bool
  pub took : ℕ
  pub cancels : Bool

pub record PublishQueue (Event : Type 0) : Type 0 where
  pub items : List (PublishItem Event)
  pub next_address : ℕ
  pub breakers : Text → RelayBreaker
  pub attempt_gen : ℕ
  pub wake : Bool
  pub rows : List QueueRow
  pub rows_seq : ℕ
  pub faults : List Bool  -- which of the next queries fail
  pub now : ℕ
  pub cancelled : Bool
  pub connects : List Attempt
  pub publishes : List Attempt

-- The keys of the map that is filled from a list of relays.
unfoldable pub as_set : List Text → List Text
unfolding is_member
as_set [] = []
as_set (r ∷ rs) = let rest = as_set rs in if is_member r rs then rest else r ∷ rest

abbrev pub without_relay : Text → List Text → List Text
without_relay relay = delete (text_eq relay)

abbrev pub id_or_zero : Option ℕ → ℕ
id_or_zero none = 0
id_or_zero (some id) = id

abbrev pub with_count : Text → ℕ → (Text → ℕ) → Text → ℕ
with_count relay n rejects r = if text_eq relay r then n else rejects r

module _ {Event : Type 0} where
  -- A query, given whether it fails, what it answers and what it leaves.
  abbrev pub query :
      {A : Type 0}
      → A
      → (PublishQueue Event → A × PublishQueue Event)
      → PublishQueue Event
      → A × PublishQueue Event
  query failed run q =
      let q' = record q { faults = later_faults q.faults } in
      if next_fault q.faults then (failed, q') else run q'

  -- Whether the row is gone.
  unfoldable pub delete_publish_item : ℕ → PublishQueue Event → Bool × PublishQueue Event
  delete_publish_item id =
      query false λ q. (true, record q { rows = delete (λ r. r.id == id) q.rows })

  -- The id of the new row.
  unfoldable pub insert_publish_item :
      Text → Text → ℕ → PublishQueue Event → Option ℕ × PublishQueue Event
  insert_publish_item json relays created_at = query none λ q. (
    some q.rows_seq,
    record q {
      rows =
          q.rows
          ++ record { id = q.rows_seq; event_json = json; relays = relays; created_at = created_at }
            ∷ [];
      rows_seq = q.rows_seq + 1;
    },
  )

  unfoldable pub delete_item_locked : ℕ → PublishQueue Event → Bool × PublishQueue Event
  unfolding delete_publish_item
  delete_item_locked id q = delete_publish_item id q

  -- With the JSON of the event, where it has one.
  unfoldable pub insert_item_locked :
      Option Text → List Text → ℕ → PublishQueue Event → Option ℕ × PublishQueue Event
  unfolding insert_publish_item
  insert_item_locked none relays created_at q = (none, q)
  insert_item_locked (some json) relays created_at q =
      insert_publish_item json (join (newline ∷ []) relays) (created_at / second) q

  abbrev pub new_item : Event → List Text → PublishQueue Event → ℕ → PublishItem Event
  new_item evt relays q id = record {
    address = q.next_address;
    db_id = id;
    event = evt;
    pending = as_set relays;
    delivered = false;
    created_at = q.now;
    rejects = λ relay. 0;
  }

  -- An item that cannot be stored on disk stays in memory.
  unfoldable pub enqueue :
      (Event → Option Text) → Event → List Text → PublishQueue Event → PublishQueue Event
  enqueue marshal evt relays q =
      if is_nil relays
      then q
      else let (id, q') = insert_item_locked (marshal evt) relays q.now q in
        record q' {
          items = q.items ++ new_item evt relays q (id_or_zero id) ∷ [];
          next_address = q.next_address + 1;
          wake = true;
        }

  unfoldable pub record_reject : Text → PublishItem Event → PublishItem Event
  record_reject relay item =
      let n = item.rejects relay + 1 in
      if leb reject_threshold n
      then record item {
        pending = without_relay relay item.pending;
        rejects = with_count relay 0 item.rejects;
      }
      else record item { rejects = with_count relay n item.rejects }

  -- The row of an item that a relay accepts for the first time goes; the item forgets the row only
  -- if that succeeds.
  abbrev pub forget_row :
      Bool × PublishQueue Event → PublishItem Event → PublishItem Event × PublishQueue Event
  forget_row (true, q) item = (record item { db_id = 0 }, q)
  forget_row (false, q) item = (item, q)

  unfoldable pub accept :
      Text → PublishItem Event → PublishQueue Event → PublishItem Event × PublishQueue Event
  accept relay item q =
      let item' = record item { pending = without_relay relay item.pending; delivered = true } in
      if item.delivered || item.db_id == 0
      then (item', q)
      else forget_row (delete_item_locked item.db_id q) item'

  unfoldable pub store_item :
      PublishItem Event → List (PublishItem Event) → List (PublishItem Event)
  store_item item [] = []
  store_item item (x ∷ xs) = if x.address == item.address then item ∷ xs else x ∷ store_item item xs

  -- Whether the item is dropped.
  unfoldable pub evicted : ℕ → PublishItem Event → PublishQueue Event → Bool × PublishQueue Event
  evicted now item q =
      let age = now - item.created_at in
      if is_nil item.pending
      then (true, if item.db_id == 0 then q else (delete_item_locked item.db_id q).1)
      else if item.delivered && ltb ttl_delivered age
      then (true, q)
      else if not item.delivered && ltb ttl_undelivered age
      then if item.db_id == 0 then (true, q) else delete_item_locked item.db_id q
      else (false, q)

  unfoldable pub evict_items :
      ℕ
      → List (PublishItem Event)
      → PublishQueue Event
      → List (PublishItem Event) × PublishQueue Event
  evict_items now [] q = ([], q)
  evict_items now (x ∷ xs) q =
      let (gone, q') = evicted now x q in
      let (kept, q'') = evict_items now xs q' in (if gone then kept else x ∷ kept, q'')

  unfoldable pub evict_locked : ℕ → PublishQueue Event → PublishQueue Event
  evict_locked now q = let (kept, q') = evict_items now q.items q in record q' { items = kept }
