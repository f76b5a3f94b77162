-- ===== src/Nostr/PublishQueue/Load.antt =====
-- `newPublishQueue` and `load` of nostr/publish_queue.go: the queue after a start of the program.
--
-- `unmarshal` is the `UnmarshalJSON` of the nostr library's event.
use opencrow.Prelude.{
  ◌+◌, ◌*◌, Bool, true, false, ◌&&◌, ◌||◌, List, [], ◌∷◌, ◌++◌, Option, none, some, ltb, leb, ◌==◌,
  if◌then◌else◌,
}
use opencrow.Prelude.Text.{Text, is_empty, newline}
use opencrow.Prelude.Strings.{split, trim_space}
use opencrow.Conversation.{is_nil}
use opencrow.Nostr.Breaker.{second, new_breaker}
use opencrow.Nostr.PublishQueue.{
  QueueRow, PublishItem, PublishQueue, query, delete_publish_item, as_set,
}

-- ORDER BY created_at, id
abbrev pub listed_before : QueueRow → QueueRow → Bool
listed_before a b = ltb a.created_at b.created_at || (a.created_at == b.created_at && leb a.id b.id)

unfoldable pub list_row : QueueRow → List QueueRow → List QueueRow
list_row x [] = x ∷ []
list_row x (y ∷ ys) = if listed_before x y then x ∷ y ∷ ys else y ∷ list_row x ys

unfoldable pub list_rows : List QueueRow → List QueueRow
list_rows [] = []
list_rows (x ∷ xs) = list_row x (list_rows xs)

unfoldable pub named_relays : List Text → List Text
named_relays [] = []
named_relays (r ∷ rs) =
    let rest = named_relays rs in if is_empty (trim_space r) then rest else trim_space r ∷ rest

unfoldable pub pending_of : Text → List Text
pending_of relays = as_set (named_relays (split newline relays))

module _ {Event : Type 0} where
  unfoldable pub list_publish_queue :
      PublishQueue Event → Option (List QueueRow) × PublishQueue Event
  list_publish_queue = query none λ q. (some (list_rows q.rows), q)

  abbrev pub loaded_item : QueueRow → Event → List Text → PublishQueue Event → PublishItem Event
  loaded_item row evt pending q = record {
    address = q.next_address;
    db_id = row.id;
    event = evt;
    pending = pending;
    delivered = false;
    created_at = row.created_at * second;
    rejects = λ relay. 0;
  }

  -- A row that cannot be read or names no relay is deleted, if that succeeds.
  abbrev pub load_event :
      QueueRow → Option Event → List Text → PublishQueue Event → PublishQueue Event
  load_event row none pending q = (delete_publish_item row.id q).1
  load_event row (some evt) pending q =
      if is_nil pending then (delete_publish_item row.id q).1 else record q {
        items = q.items ++ loaded_item row evt pending q ∷ [];
        next_address = q.next_address + 1;
      }

  unfoldable pub load_rows :
      (Text → Option Event) → List QueueRow → PublishQueue Event → PublishQueue Event
  load_rows unmarshal [] q = q
  load_rows unmarshal (row ∷ rows) q =
      load_rows unmarshal rows (load_event row (unmarshal row.event_json) (pending_of row.relays) q)

  -- Whether the rows could be read.
  abbrev pub loaded :
      (Text → Option Event)
      → Option (List QueueRow) × PublishQueue Event
      → Bool × PublishQueue Event
  loaded unmarshal (none, q) = (false, q)
  loaded unmarshal (some rows, q) = (true, load_rows unmarshal rows q)

  unfoldable pub load : (Text → Option Event) → PublishQueue Event → Bool × PublishQueue Event
  unfolding list_publish_queue
  load unmarshal q = loaded unmarshal (list_publish_queue q)

  -- A start on the database that another run has left.
  unfoldable pub new_publish_queue :
      (Text → Option Event) → PublishQueue Event → Bool × PublishQueue Event
  unfolding load
  new_publish_queue unmarshal q = load unmarshal (record q {
    items = [];
    next_address = 0;
    breakers = λ relay. new_breaker;
    attempt_gen = 0;
    wake = false;
  })
