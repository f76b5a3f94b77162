-- ===== src/Worker/Preemption.antt =====
-- `Notify` and `handlePiError` of worker.go: what happens to an item when a more
-- urgent one arrives while pi works on it.
use opencrow.Prelude.{
  ◌<◌, ◌≡◌, ◌≢◌, refl, ◌∙◌, Bool, true, false, [], ◌∷◌, ◌++◌, none, some, if◌then◌else◌, ltb, arith,
  append_assoc, append-nil, sym, ap, List, Option,
}
use mathlib.Core.Option
use opencrow.Prelude.Text.{Text, is_empty}
use opencrow.Database.{Source, Inbox, Db, healthy, exec}
use opencrow.Inbox.{new_row, insert_row, enqueue, requeue}
use opencrow.Worker.State.{
  PiError, canceled, deadline_exceeded, other, Outcome, replied, errored, Arrival, Send, Config,
  World, emit, set_typing, send_reply, prompt_pi, arrive, arrive_all, notify, preempts,
}
use opencrow.Worker.Delivery.{requeue_preempted-requeue_item, deliver_surfaces}
use opencrow.Worker.Prompt.{
  send_with_retry, handle_pi_error, ensure_pi, send_and_wait, prompt_room, settle,
  requeue_preempted, was_preempted, typing_off, with_timing,
}

-- The same world with a database that answers every query.
abbrev pub answering : World → World
answering w = record w { db = healthy w.db }

-- A worker at work on `item`, with a pi process.
abbrev pub busy : Inbox → Send → World → World
busy item s w = record w {
  pi = some true;
  current_priority = some item.priority;
  cancelled = false;
  shutdown = false;
  sends = s ∷ w.sends;
}

-- While pi works on a prompt, one item arrives.
abbrev pub interrupted : Outcome → Bool → Arrival → Send
interrupted o exits a = record {
  outcome = o;
  exits = exits;
  arrivals = a ∷ [];
  aborted = false;
  stopped = false;
}

abbrev pub arrived_row : Arrival → Db → Inbox
arrived_row a db = new_row db a.priority a.source a.content a.reply_to

abbrev pub requeued_row : Inbox → Db → Inbox
requeued_row item db = new_row db item.priority item.source item.content item.reply_to

after_interrupt : (prompt : Text) → Inbox → Outcome → Bool → Arrival → World → World
after_interrupt prompt item o exits a w = record (busy item (interrupted o exits a) (answering w)) {
  db = insert_row (arrived_row a w.db) (healthy w.db);
  pi = if exits then some false else some true;
  wake = true;
  cancelled = true;
  effects = w.effects ++ prompt_pi prompt ∷ [];
  sends = w.sends;
}

send_and_wait-busy :
    (prompt : Text) (item : Inbox) (o : Outcome) (exits : Bool) (a : Arrival) (w : World)
    → a.priority < item.priority
    → send_and_wait prompt (busy item (interrupted o exits a) (answering w))
      ≡ (o, after_interrupt prompt item o exits a w)
unfolding send_and_wait arrive_all arrive enqueue exec notify preempts after_interrupt
send_and_wait-busy prompt item o exits a w lt =
    let urgent : ltb a.priority item.priority ≡ true = ground arith in rw urgent

pub ensure_pi-busy :
    (c : Config) (item : Inbox) (s : Send) (w : World)
    → ensure_pi c (busy item s w) ≡ (none, busy item s w)
unfolding ensure_pi
ensure_pi-busy c item s w = refl

-- A prompt that is interrupted is not sent again.
send_with_retry-busy :
    (c : Config) (prompt : Text) (item : Inbox) (o : Outcome) (exits : Bool) (a : Arrival)
    (w : World)
    → a.priority < item.priority
    → send_with_retry c prompt (busy item (interrupted o exits a) (answering w))
      ≡ (record { has_pi = true; outcome = o }, after_interrupt prompt item o exits a w)
unfolding send_with_retry after_interrupt
send_with_retry-busy c prompt item (replied r) exits a w lt = rw (
  ensure_pi-busy c item (interrupted (replied r) exits a) (answering w),
  send_and_wait-busy prompt item (replied r) exits a w lt,
)
send_with_retry-busy c prompt item (errored e) exits a w lt = rw (
  ensure_pi-busy c item (interrupted (errored e) exits a) (answering w),
  send_and_wait-busy prompt item (errored e) exits a w lt,
)

pub requeue-healthy :
    (item : Inbox) (db : Db)
    → item.source ≢ Source.heartbeat
    → (requeue item (healthy db)).1.inbox ≡ db.inbox ++ requeued_row item db ∷ []
unfolding requeue exec
requeue-healthy item db ne = ground arith

pub handle_pi_error_cancelled :
    (item : Inbox) (conv : Text) (e : PiError) (kill : Bool) (w : World)
    → w.cancelled ≡ true
    → handle_pi_error item conv e kill w ≡ requeue_preempted item w
unfolding handle_pi_error was_preempted
handle_pi_error_cancelled item conv canceled kill w h = refl
handle_pi_error_cancelled item conv deadline_exceeded kill w h = refl
handle_pi_error_cancelled item conv (other t) kill w h = simp h

prompt_room-busy :
    (c : Config) (item : Inbox) (prompt conv : Text) (o : Outcome) (exits : Bool) (a : Arrival)
    (w : World)
    → a.priority < item.priority
    → is_empty conv ≡ false
    → prompt_room c item prompt conv (busy item (interrupted o exits a) (answering w))
      ≡ typing_off conv (
          settle c item conv true o
            (after_interrupt prompt item o exits a (emit (set_typing conv true) w)))
unfolding prompt_room
prompt_room-busy c item prompt conv o exits a w lt h =
    rw (h, send_with_retry-busy c prompt item o exits a (emit (set_typing conv true) w) lt)

sent_text :
    (reply : Text) (timing : Option Text)
    → with_timing timing reply ≡ reply ++ Option.get_or timing []
sent_text reply none = sym (append-nil reply)
sent_text reply (some t) = refl

appended {ℓ} :
    {A : Type ℓ} (xs : List A) (a b c d : A)
    → (((xs ++ a ∷ []) ++ b ∷ []) ++ c ∷ []) ++ d ∷ [] ≡ xs ++ a ∷ b ∷ c ∷ d ∷ []
appended [] a b c d = refl
appended (x ∷ xs) a b c d = ap (λ ys. x ∷ ys) (appended xs a b c d)

-- With a database that answers every query: if a more urgent item arrives while pi works on an item
-- that is not a heartbeat and pi ends with an error, the loop stops, and the inbox holds what it held
-- besides, then the new item, then the interrupted one with its priority, source, content and reply
-- target.
pub preempted_put_back :
    (c : Config) (item : Inbox) (prompt conv : Text) (e : PiError) (exits : Bool) (a : Arrival)
    (w : World)
    → a.priority < item.priority
    → is_empty conv ≡ false
    → item.source ≢ Source.heartbeat
    → let (stop, w') =
        prompt_room c item prompt conv
          (busy item (interrupted (errored e) exits a) (answering w)) in
      (stop ≡ true)
      × (w'.db.inbox
          ≡ w.db.inbox
            ++ arrived_row a w.db ∷ requeued_row item (insert_row (arrived_row a w.db) w.db) ∷ [])
unfolding after_interrupt
preempted_put_back c item prompt conv e exits a w lt h ne =
    let v = after_interrupt prompt item (errored e) exits a (emit (set_typing conv true) w) in
    rw
      (
        prompt_room-busy c item prompt conv (errored e) exits a w lt h,
        handle_pi_error_cancelled item conv e true v refl,
        requeue_preempted-requeue_item item v ne,
      )
      (
        refl,
        requeue-healthy item (insert_row (arrived_row a w.db) w.db) ne
            ∙ append_assoc w.db.inbox _ _,
      )

-- With a database that answers every query: if a more urgent item arrives while pi works on an item
-- that is not a heartbeat and pi ends with a reply that is not empty, the item is not put back. All
-- that the turn does is to turn the typing indicator on, prompt pi, send the reply to the target of
-- the item and turn the indicator off; the loop goes on, and the inbox holds only the new item besides
-- what it held.
pub preempted_replied :
    (c : Config) (item : Inbox) (prompt conv reply : Text) (exits : Bool) (a : Arrival) (w : World)
    → a.priority < item.priority
    → is_empty conv ≡ false
    → is_empty reply ≡ false
    → item.source ≢ Source.heartbeat
    → let (stop, w') =
        prompt_room c item prompt conv
          (busy item (interrupted (replied reply) exits a) (answering w)) in
      (stop ≡ false)
      × (w'.db.inbox ≡ w.db.inbox ++ arrived_row a w.db ∷ [])
      × (w'.effects
          ≡ w.effects
            ++ set_typing conv true
              ∷ prompt_pi prompt
              ∷ send_reply conv (reply ++ Option.get_or c.timing []) item.reply_to
              ∷ set_typing conv false
              ∷ [])
unfolding after_interrupt
preempted_replied c item prompt conv reply exits a w lt h k ne =
    let v = after_interrupt prompt item (replied reply) exits a (emit (set_typing conv true) w) in
    rw
      (
        prompt_room-busy c item prompt conv (replied reply) exits a w lt h,
        deliver_surfaces c item conv reply v ne k,
      )
      (refl, refl, rw (sent_text reply c.timing) (appended w.effects _ _ _ _))
