-- ===== src/Worker/Delivery.antt =====
-- How the turn of an item in `processPrompt` of worker.go ends.
use opencrow.Prelude.{
  arith, ◌≡◌, ◌≢◌, refl, ap, sym, subst, ◌⊎◌, inl, inr, Bool, true, false, List, [], ◌∷◌, ◌++◌,
  Option, none, some, if◌then◌else◌, Bool-cases,
}
use opencrow.Prelude.Text.{Text, codes, is_empty}
use opencrow.Database.{Source, Inbox, Db, IsUp, next_fault, exec_cases}
use opencrow.Inbox.{is_user, is_heartbeat, new_row, requeue, enqueue_inbox}
use opencrow.Heartbeat.{should_suppress_reply}
use opencrow.Worker.State.{
  PiError, canceled, deadline_exceeded, other, Outcome, replied, errored, Config, World, emit,
  set_typing, send_message, send_reply, stop_pi,
}
use opencrow.Worker.Grows.{
  Grows, Grows-refl, Grows-trans, stop_pi_keeps, send_and_wait-Grows, send_with_retry-Grows,
}
use opencrow.Worker.Prompt.{
  send_with_retry, deliver, handle_pi_error, retry_empty_response, send_and_wait, prompt_room,
  settle, send_text, reply_or_summary, requeue_item, requeue_preempted, error_text, with_timing,
  is_context_error, was_preempted, summary_of, summary_prompt, typing_off,
}

-- What the inbox holds behind the query that puts an item back: the item is its last row, or, where
-- the query fails, it is lost.
pub data Requeued (item : Inbox) (db : Db) : List Inbox → Type 0 where
  restored :
      IsUp db
      → Requeued item db
          (db.inbox ++ new_row db item.priority item.source item.content item.reply_to ∷ [])
  lost : next_fault db.faults ≡ true → Requeued item db db.inbox

-- How the turn of a user message ends, from an inbox at its start, which only grows until then, and
-- from what the prompt came to, with the state then: with a text for the user, back in the inbox, or
-- with an error message; in each case the typing indicator goes off last.
pub data Disposed (conv : Text) (item : Inbox) (start : List Inbox) (o : Outcome) (w : World)
    : Bool × World → Type 0 where
  answered :
      (reply text : Text) (v : World)
      → o ≡ replied reply
      → is_empty text ≡ false
      → Grows start v.db.inbox
      → Disposed conv item start o w
          (false, emit (set_typing conv false) (emit (send_reply conv text item.reply_to) v))
  put_back :
      (e : PiError) (v : World)
      → o ≡ errored e
      → (is_context_error e ≡ true) ⊎ (w.cancelled ≡ true)
      → Grows start w.db.inbox
      → Requeued item w.db v.db.inbox
      → v.effects ≡ w.effects
      → Disposed conv item start o w (true, emit (set_typing conv false) v)
  reported :
      (reason : Text) (v : World)
      → o ≡ errored (other reason)
      → w.cancelled ≡ false
      → Grows start v.db.inbox
      → Disposed conv item start o w (
        false,
        emit (set_typing conv false) (emit (send_message conv (codes "Error: " ++ reason)) v),
      )

with_timing_ne :
    (t : Option Text) (reply : Text)
    → is_empty reply ≡ false
    → is_empty (with_timing t reply) ≡ false
with_timing_ne none reply h = h
with_timing_ne (some t) [] h = cc
with_timing_ne (some t) (ch ∷ reply) h = refl

summary_of_ne : (o : Outcome) → is_empty (summary_of o) ≡ false
summary_of_ne (replied []) = refl
summary_of_ne (replied (ch ∷ reply)) = refl
summary_of_ne (errored e) = refl

-- A reply that is not empty is kept back only from a heartbeat.
suppress_none :
    (reply : Text) (s : Source)
    → s ≢ Source.heartbeat
    → is_empty reply ≡ false
    → should_suppress_reply reply s ≡ false
unfolding should_suppress_reply
suppress_none reply Source.user ne h = h
suppress_none reply Source.trigger ne h = h
suppress_none reply Source.heartbeat ne h = absurd (ne refl)
suppress_none reply Source.compact ne h = h

send_text_sends :
    (c : Config) (item : Inbox) (conv reply : Text) (w : World)
    → item.source ≢ Source.heartbeat
    → is_empty reply ≡ false
    → send_text c item conv reply w
      ≡ emit (send_reply conv (with_timing c.timing reply) item.reply_to) w
unfolding send_text
send_text_sends c item conv reply w ne h = rw (suppress_none reply item.source ne h)

-- A reply that is not empty, to anything but a heartbeat, is sent whatever it says: the sentinel
-- HEARTBEAT_OK in it does not hold it back.
pub deliver_surfaces :
    (c : Config) (item : Inbox) (conv reply : Text) (w : World)
    → item.source ≢ Source.heartbeat
    → is_empty reply ≡ false
    → deliver c item conv reply w
      ≡ (false, emit (send_reply conv (with_timing c.timing reply) item.reply_to) w)
unfolding deliver reply_or_summary
deliver_surfaces c item conv reply w ne h = elim (Bool-cases (is_user item)) [
  | inl e ↦ rw (e, h) (ap (λ v. (false, v)) (send_text_sends c item conv reply w ne h))
  | inr e ↦ rw e (ap (λ v. (false, v)) (send_text_sends c item conv reply w ne h))
]

reply_or_summary_ne :
    (item : Inbox) (reply : Text) (w : World)
    → item.source ≡ Source.user
    → (is_empty (reply_or_summary item reply w).0 ≡ false)
      × Grows w.db.inbox (reply_or_summary item reply w).1.db.inbox
unfolding reply_or_summary retry_empty_response
reply_or_summary_ne item [] w u =
    rw u (summary_of_ne (send_and_wait summary_prompt w).0, send_and_wait-Grows summary_prompt w)
reply_or_summary_ne item (ch ∷ reply) w u = rw u (refl, Grows-refl w.db.inbox)

pub requeue_preempted-requeue_item :
    (item : Inbox) (w : World)
    → item.source ≢ Source.heartbeat
    → requeue_preempted item w ≡ (true, requeue_item item w)
unfolding requeue_preempted
requeue_preempted-requeue_item item w ne = ground arith

module _ (item : Inbox) (conv : Text) (start : List Inbox) (u : item.source ≡ Source.user) where
  deliver-Disposed :
      (c : Config) (reply : Text) (w : World)
      → Grows start w.db.inbox
      → Disposed conv item start (replied reply) w (typing_off conv (deliver c item conv reply w))
  unfolding deliver
  deliver-Disposed c reply w g =
      let (reply', w') = reply_or_summary item reply w in
      let (said, more) = reply_or_summary_ne item reply w u in
      subst
        (λ v. Disposed conv item start (replied reply) w (false, emit (set_typing conv false) v))
        (sym (send_text_sends c item conv reply' w' (λ e. cc (u, e)) said))
        (answered reply (with_timing c.timing reply') w' refl (with_timing_ne c.timing reply' said)
          (Grows-trans g more))

  requeue-Requeued : (db : Db) → Requeued item db (requeue item db).1.inbox
  unfolding requeue enqueue_inbox
  requeue-Requeued db =
      let marker : is_heartbeat item ≡ false = ground (arith, u) in
      rw marker
        (exec_cases (λ r. Requeued item db r.1.inbox) _ db (λ down. lost down) (λ up. restored up))

  was_preempted-why :
      (e : PiError) (w : World)
      → was_preempted e w ≡ true
      → (is_context_error e ≡ true) ⊎ (w.cancelled ≡ true)
  unfolding was_preempted
  was_preempted-why canceled w p = inl refl
  was_preempted-why deadline_exceeded w p = inl refl
  was_preempted-why (other t) w p = inr p

  -- An error that is no preemption is one of pi itself.
  reported-Disposed :
      (e : PiError) (kill : Bool) (w : World)
      → was_preempted e w ≡ false
      → Grows start w.db.inbox
      → Disposed conv item start (errored e) w (
        false,
        emit
            (set_typing conv false)
            (emit (send_message conv (error_text e)) (if kill then stop_pi w else w)),
      )
  unfolding was_preempted
  reported-Disposed canceled kill w p g = cc
  reported-Disposed deadline_exceeded kill w p g = cc
  reported-Disposed (other t) true w p g =
      reported t (stop_pi w) refl p (subst (Grows start) (sym (stop_pi_keeps w).1) g)
  reported-Disposed (other t) false w p g = reported t w refl p g

  handle_pi_error-Disposed :
      (e : PiError) (kill : Bool) (w : World)
      → Grows start w.db.inbox
      → Disposed conv item start
          (errored e)
          w
          (typing_off conv (handle_pi_error item conv e kill w))
  unfolding handle_pi_error
  handle_pi_error-Disposed e kill w g = elim (Bool-cases (was_preempted e w)) [
    | inl p ↦
        rw (p, requeue_preempted-requeue_item item w (λ e. cc (u, e)))
          (put_back e (requeue_item item w) refl (was_preempted-why e w p) g (requeue-Requeued w.db)
            refl)
    | inr p ↦
        let asked : is_user item ≡ true = ground (arith, u) in
        rw (p, asked) (reported-Disposed e kill w p g)
  ]

  settle-Disposed :
      (c : Config) (has_pi : Bool) (o : Outcome) (w : World)
      → Grows start w.db.inbox
      → Disposed conv item start o w (typing_off conv (settle c item conv has_pi o w))
  settle-Disposed c has_pi (replied reply) w g = deliver-Disposed c reply w g
  settle-Disposed c has_pi (errored e) w g = handle_pi_error-Disposed e has_pi w g

-- However pi, its process and the other goroutines behave, the turn of a user message with a room
-- ends in one of three ways, each with the rows that the inbox held still in front: the prompt came
-- to a reply, and a text that is not empty is sent in reply to the message; it came to an error of
-- the context, or to any error with the operation cancelled, and the loop stops, nothing is sent,
-- and the message is the last row of the inbox again, with its priority, source, content and reply
-- target, or lost if that query fails; or it came to another error, with the operation not
-- cancelled, and "Error: " with the text of that error is sent to the room. In each, the typing
-- indicator goes off last.
pub prompt_room-Disposed :
    (c : Config) (item : Inbox) (prompt conv : Text) (w : World)
    → item.source ≡ Source.user
    → is_empty conv ≡ false
    → let (sent, w') = send_with_retry c prompt (emit (set_typing conv true) w) in
      Disposed conv item w.db.inbox sent.outcome w' (prompt_room c item prompt conv w)
unfolding prompt_room
prompt_room-Disposed c item prompt conv w u h =
    let (sent, w') = send_with_retry c prompt (emit (set_typing conv true) w) in
    rw h (
      settle-Disposed item conv w.db.inbox u c sent.has_pi sent.outcome w'
        (send_with_retry-Grows c prompt (emit (set_typing conv true) w)))
