-- ===== src/Worker/Size.antt =====
-- The measure of `drainOnce` in worker.go: the rows that are there and the rows still to arrive.
use opencrow.Prelude.{
  ℕ, ◌+◌, ◌≤◌, ◌≡◌, refl, ap, ◌∙◌, inl, inr, Bool, true, false, not, ◌||◌, List, [], ◌∷◌, Option,
  none, some, arith, length, length-append, Bool-cases, delete,
}
use opencrow.Prelude.Text.{Text, is_empty}
use opencrow.Database.{Source, Inbox, Db}
use opencrow.Inbox.{enqueue}
use opencrow.Inbox.Rules.{enqueue_rule}
use opencrow.Worker.State.{
  emit, set_typing, CompactOutcome, replied, errored, prompt_pi, is_alive, Config, World, Arrival,
  Send, PiError, Outcome, arrive, arrive_all, stop_pi, notify, succeeded, notify_if,
}
use opencrow.Worker.Prompt.{
  ensure_pi, send_and_wait, next_send, is_replied, summary_prompt, settle, started, send_text,
  reply_or_summary, requeue_preempted, process_source, begin_item, end_item, compact_result,
  prompt_if, attempt, send_with_retry, deliver, handle_pi_error, retry_empty_response, prompt_room,
  process_prompt, process_compact, process_item, resolve_room_id, handle_no_room_id, build_prompt,
}

-- The rows that other goroutines are still to enqueue.
abbrev pub pending : List Send → ℕ
pending [] = 0
pending (s ∷ ss) = length s.arrivals + pending ss

-- What the loop has at most to take.
abbrev pub size : World → ℕ
size w = length w.db.inbox + pending w.sends

pub length-delete-le : (p : Inbox → Bool) (rs : List Inbox) → length (delete p rs) ≤ length rs
length-delete-le p [] = omega arith
length-delete-le p (r ∷ rs) = ground (arith, length-delete-le p rs)

length-enqueue :
    (priority : ℕ) (source : Source) (content reply_to : Text) (db : Db)
    → length (enqueue priority source content reply_to db).1.inbox ≤ length db.inbox + 1
length-enqueue priority source content reply_to db =
    enqueue_rule (λ d. length d.inbox ≤ length db.inbox + 1) db (omega arith) priority source
      content reply_to (omega (arith, length-append {0}))

size-notify_if : (b : Bool) (p : ℕ) (w : World) → size (notify_if b p w) ≡ size w
unfolding notify
size-notify_if true p w = refl
size-notify_if false p w = refl

size-arrive : (a : Arrival) (w : World) → size (arrive a w) ≤ size w + 1
unfolding arrive
size-arrive a w = omega (
  arith,
  size-notify_if (succeeded (enqueue a.priority a.source a.content a.reply_to w.db).0) a.priority
      (record w { db = (enqueue a.priority a.source a.content a.reply_to w.db).1 }),
  length-enqueue a.priority a.source a.content a.reply_to w.db,
)

size-arrive_all : (as' : List Arrival) (w : World) → size (arrive_all as' w) ≤ size w + length as'
unfolding arrive_all
size-arrive_all [] w = omega arith
size-arrive_all (a ∷ as') w = omega (arith, size-arrive_all as' (arrive a w), size-arrive a w)

size-next_send : (ss : List Send) (w : World) → w.sends ≡ ss → size (next_send ss w).1 ≤ size w
size-next_send [] w e = omega arith
size-next_send (s ∷ ss) w e =
    omega (arith, size-arrive_all s.arrivals (record w { sends = ss }), ap pending e)

size-send_and_wait : (prompt : Text) (w : World) → size (send_and_wait prompt w).1 ≤ size w
unfolding send_and_wait
size-send_and_wait prompt w =
    ground (arith, size-next_send w.sends (emit (prompt_pi prompt) w) refl)

size-stop_pi : (w : World) → size (stop_pi w) ≡ size w
unfolding stop_pi
size-stop_pi w = ground arith

size-resolve_room_id : (c : Config) (w : World) → size (resolve_room_id c w).1 ≡ size w
unfolding resolve_room_id
size-resolve_room_id c w = ground arith

size-started :
    (ss : List (Option PiError)) (room : Text) (fresh : Bool) (w : World)
    → size (started ss room fresh w).1 ≡ size w
size-started [] room fresh w = refl
size-started (none ∷ ss) room fresh w = refl
size-started (some e ∷ ss) room fresh w = refl

size-ensure_pi : (c : Config) (w : World) → size (ensure_pi c w).1 ≡ size w
unfolding ensure_pi
size-ensure_pi c w =
    let w' = (resolve_room_id c (record w { fresh_start = false })).1 in
    elim (Bool-cases (is_alive w.pi)) [
      | inl e ↦ rw e refl
      | inr e ↦ rw e (elim (Bool-cases w'.cancelled) [
        | inl k ↦ rw k (size-resolve_room_id c (record w { fresh_start = false }))
        | inr k ↦ rw k (
            size-started w'.starts _ w.fresh_start w'
            ∙ size-resolve_room_id c (record w { fresh_start = false }))
      ])
    ]

size-attempt : (prompt : Text) (r : Option PiError × World) → size (attempt prompt r).1 ≤ size r.1
size-attempt prompt (none, w) = size-send_and_wait prompt w
size-attempt prompt (some e, w) = omega arith

size-send_with_retry :
    (c : Config) (prompt : Text) (w : World) → size (send_with_retry c prompt w).1 ≤ size w
unfolding send_with_retry
size-send_with_retry c prompt w =
    let first = attempt prompt (ensure_pi c w) in
    let first_le = size-attempt prompt (ensure_pi c w) in
    let again = size-attempt prompt (ensure_pi c (stop_pi first.1)) in
    elim (Bool-cases (is_replied first.0.outcome || not first.0.has_pi || first.1.cancelled)) [
      | inl e ↦ rw e (omega (arith, first_le, size-ensure_pi c w))
      | inr e ↦ rw e (
          omega (
            arith,
            first_le,
            again,
            size-ensure_pi c w,
            size-ensure_pi c (stop_pi first.1),
            size-stop_pi first.1,
          ))
    ]

size-retry_empty_response : (w : World) → size (retry_empty_response w).1 ≤ size w
unfolding retry_empty_response
size-retry_empty_response w = size-send_and_wait summary_prompt w

-- Only an item that is put back may make the inbox grow, and then the loop stops.
abbrev pub Shrinks : World → Bool × World → Type 0
Shrinks w (stop, w') = stop ≡ false → size w' ≤ size w

size-reply_or_summary :
    (item : Inbox) (reply : Text) (w : World) → size (reply_or_summary item reply w).1 ≤ size w
unfolding reply_or_summary
size-reply_or_summary item reply w = ground (arith, size-retry_empty_response w)

size-send_text :
    (c : Config) (item : Inbox) (conv reply : Text) (w : World)
    → size (send_text c item conv reply w) ≡ size w
unfolding send_text
size-send_text c item conv reply w = ground arith

deliver-Shrinks :
    (c : Config) (item : Inbox) (conv reply : Text) (w : World)
    → Shrinks w (deliver c item conv reply w)
unfolding deliver
deliver-Shrinks c item conv reply w h =
    let (reply', w') = reply_or_summary item reply w in
    omega (arith, size-send_text c item conv reply' w', size-reply_or_summary item reply w)

handle_pi_error-Shrinks :
    (item : Inbox) (conv : Text) (e : PiError) (kill : Bool) (w : World)
    → Shrinks w (handle_pi_error item conv e kill w)
unfolding handle_pi_error requeue_preempted
handle_pi_error-Shrinks item conv e kill w h = ground (arith, size-stop_pi w)

handle_no_room_id-Shrinks : (item : Inbox) (w : World) → Shrinks w (handle_no_room_id item w)
unfolding handle_no_room_id
handle_no_room_id-Shrinks item w h = ground arith

settle-Shrinks :
    (c : Config) (item : Inbox) (conv : Text) (has_pi : Bool) (o : Outcome) (w : World)
    → Shrinks w (settle c item conv has_pi o w)
settle-Shrinks c item conv has_pi (replied reply) w = deliver-Shrinks c item conv reply w
settle-Shrinks c item conv has_pi (errored e) w = handle_pi_error-Shrinks item conv e has_pi w

prompt_room-Shrinks :
    (c : Config) (item : Inbox) (prompt conv : Text) (w : World)
    → Shrinks w (prompt_room c item prompt conv w)
unfolding prompt_room
prompt_room-Shrinks c item prompt conv w =
    let (sent, w') = send_with_retry c prompt (emit (set_typing conv true) w) in
    elim (Bool-cases (is_empty conv)) [
      | inl e ↦ rw e (handle_no_room_id-Shrinks item w)
      | inr e ↦ rw e (λ h. omega (
        arith,
        settle-Shrinks c item conv sent.has_pi sent.outcome w' h,
        size-send_with_retry c prompt (emit (set_typing conv true) w),
      ))
    ]

prompt_if-Shrinks :
    (c : Config) (item : Inbox) (o : Option Text) (w : World) → Shrinks w (prompt_if c item o w)
prompt_if-Shrinks c item none w h = omega arith
prompt_if-Shrinks c item (some prompt) w h =
    let (conv, w') = resolve_room_id c w in
    omega (arith, prompt_room-Shrinks c item prompt conv w' h, size-resolve_room_id c w)

size-compact_result : (os : List CompactOutcome) (w : World) → size (compact_result os w) ≡ size w
size-compact_result [] w = refl
size-compact_result (o ∷ os) w = refl

size-process_compact : (w : World) → size (process_compact w) ≡ size w
unfolding process_compact
size-process_compact w =
    ground (arith, size-compact_result w.compacts (record w { compact_pending = false }))

process_source-Shrinks :
    (c : Config) (s : Source) (item : Inbox) (w : World) → Shrinks w (process_source c s item w)
unfolding process_prompt
process_source-Shrinks c Source.compact item w h = omega (arith, size-process_compact w)
process_source-Shrinks c _ item w h =
    prompt_if-Shrinks c item (build_prompt c item.source item.content) w h

pub process_item-Shrinks :
    (c : Config) (item : Inbox) (w : World) → Shrinks w (process_item c item w)
unfolding process_item begin_item end_item
process_item-Shrinks c item w h = process_source-Shrinks c item.source item (begin_item item w) h
