-- ===== src/Nostr/PublishQueue/RoundTrip.antt =====
-- `enqueue` and then `load` of nostr/publish_queue.go.
use opencrow.Prelude.{
  ℕ, ◌*◌, ◌/◌, ◌≡◌, refl, ap, ◌∙◌, false, List, [], ◌∷◌, ◌++◌, Option, some, ◌==◌, arith, All,
  exists,
}
use opencrow.Prelude.Text.{Text, is_empty, newline}
use opencrow.Prelude.Strings.{split, join, trim_space}
use opencrow.Conversation.{is_nil}
use opencrow.Nostr.Breaker.{second}
use opencrow.Nostr.PublishQueue.{
  QueueRow, PublishItem, PublishQueue, as_set, enqueue, insert_item_locked,
}
use opencrow.Nostr.PublishQueue.Load.{
  named_relays, pending_of, new_publish_queue, load_rows, list_rows, list_row,
}

split_none : (sep : ℕ) (s : Text) → exists (λ c. c == sep) s ≡ false → split sep s ≡ s ∷ []
unfolding split
split_none sep [] h = refl
split_none sep (c ∷ s) h = ground (arith, split_none sep s)

split-append :
    (sep : ℕ) (s t : Text)
    → exists (λ c. c == sep) s ≡ false
    → split sep (s ++ sep ∷ t) ≡ s ∷ split sep t
unfolding split
split-append sep [] t h = ground arith
split-append sep (c ∷ s) t h = ground (arith, split-append sep s t)

-- The address of a relay as the configuration gives it: not empty, on one line, without blanks at
-- its ends.
abbrev pub IsRelay : Text → Type 0
IsRelay r = (trim_space r ≡ r) × (is_empty r ≡ false) × (exists (λ c. c == newline) r ≡ false)

split-join :
    (rs : List Text)
    → is_nil rs ≡ false
    → All IsRelay rs
    → split newline (join (newline ∷ []) rs) ≡ rs
unfolding join
split-join [] n h = cc
split-join (r ∷ []) n h = split_none newline r h.0.2
split-join (r ∷ r' ∷ rs) n h =
    split-append newline r (join (newline ∷ []) (r' ∷ rs)) h.0.2
    ∙ ap (λ x. r ∷ x) (split-join (r' ∷ rs) refl h.1)

named_relays-All : (rs : List Text) → All IsRelay rs → named_relays rs ≡ rs
unfolding named_relays
named_relays-All [] h = refl
named_relays-All (r ∷ rs) h = rw (h.0.0, h.0.1, named_relays-All rs h.1)

pending_of-join :
    (rs : List Text)
    → is_nil rs ≡ false
    → All IsRelay rs
    → pending_of (join (newline ∷ []) rs) ≡ as_set rs
unfolding pending_of
pending_of-join rs n h = ap as_set (ap named_relays (split-join rs n h) ∙ named_relays-All rs h)

as_set_ne : (rs : List Text) → is_nil rs ≡ false → is_nil (as_set rs) ≡ false
unfolding as_set
as_set_ne [] n = n
as_set_ne (r ∷ []) n = refl
as_set_ne (r ∷ r' ∷ rs) n = ground (arith, as_set_ne (r' ∷ rs))

module _ {Event : Type 0} where
  abbrev pub enqueued_row : Text → List Text → PublishQueue Event → QueueRow
  enqueued_row json relays q = record {
    id = q.rows_seq;
    event_json = json;
    relays = join (newline ∷ []) relays;
    created_at = q.now / second;
  }

  enqueue-rows :
      (marshal : Event → Option Text) (evt : Event) (json : Text) (relays : List Text)
      (q : PublishQueue Event)
      → marshal evt ≡ some json
      → is_nil relays ≡ false
      → q.faults ≡ []
      → let q' = enqueue marshal evt relays q in
        (q'.rows ≡ q.rows ++ enqueued_row json relays q ∷ []) × (q'.faults ≡ [])
  unfolding enqueue insert_item_locked
  enqueue-rows marshal evt json relays q m n f = rw (n, m, f) (refl, refl)

  -- A start on one row that can be read.
  new_publish_queue_one :
      (unmarshal : Text → Option Event) (row : QueueRow) (evt : Event) (q : PublishQueue Event)
      → q.rows ≡ row ∷ []
      → q.faults ≡ []
      → unmarshal row.event_json ≡ some evt
      → is_nil (pending_of row.relays) ≡ false
      → (new_publish_queue unmarshal q).1.items
        ≡ record {
          address = 0;
          db_id = row.id;
          event = evt;
          pending = pending_of row.relays;
          delivered = false;
          created_at = row.created_at * second;
          rejects = λ relay. 0;
        }
          ∷ []
  unfolding new_publish_queue list_rows list_row load_rows
  new_publish_queue_one unmarshal row evt q r f u n = rw (r, f, u, n)

  -- The item that a restart makes of an event that was enqueued.
  abbrev pub restored_item : Event → List Text → PublishQueue Event → PublishItem Event
  restored_item evt relays q = record {
    address = 0;
    db_id = q.rows_seq;
    event = evt;
    pending = as_set relays;
    delivered = false;
    created_at = q.now / second * second;
    rejects = λ relay. 0;
  }

  -- While the database answers, an event that is enqueued to a queue without rows is there again
  -- after a restart, with the relays that it was to go to and the time of its entry in whole
  -- seconds, if the library reads back the JSON that it wrote of the event and the relays are
  -- addresses on one line without blanks at their ends.
  pub new_publish_queue-enqueue :
      (marshal : Event → Option Text) (unmarshal : Text → Option Event) (evt : Event) (json : Text)
      (relays : List Text) (q : PublishQueue Event)
      → marshal evt ≡ some json
      → unmarshal json ≡ some evt
      → is_nil relays ≡ false
      → All IsRelay relays
      → q.rows ≡ []
      → q.faults ≡ []
      → (new_publish_queue unmarshal (enqueue marshal evt relays q)).1.items
        ≡ restored_item evt relays q ∷ []
  new_publish_queue-enqueue marshal unmarshal evt json relays q m u n h r f =
      let (rows, up) = enqueue-rows marshal evt json relays q m n f in
      let e = pending_of-join relays n h in
      new_publish_queue_one unmarshal (enqueued_row json relays q) evt
        (enqueue marshal evt relays q) (rows ∙ ap (λ rs. rs ++ enqueued_row json relays q ∷ []) r)
        up u (ap is_nil e ∙ as_set_ne relays n)
      ∙ ap (λ pending. record (restored_item evt relays q) { pending = pending } ∷ []) e
