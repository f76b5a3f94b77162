-- ===== src/Worker/Aborted.antt =====
-- `Abort` of worker.go, which the command !stop calls: what happens to the item of the turn.
use opencrow.Prelude.{◌≡◌, ◌≢◌, refl, Bool, true, false, [], ◌∷◌, ◌++◌, if◌then◌else◌, some}
use opencrow.Prelude.Text.{Text, is_empty}
use opencrow.Database.{Source, Inbox}
use opencrow.Worker.State.{
  arrive_all, PiError, errored, Send, Config, World, emit, set_typing, prompt_pi,
}
use opencrow.Worker.Prompt.{send_with_retry, send_and_wait, prompt_room}
use opencrow.Worker.Delivery.{requeue_preempted-requeue_item}
use opencrow.Worker.Preemption.{
  answering, busy, requeued_row, ensure_pi-busy, handle_pi_error_cancelled, requeue-healthy,
}

-- While pi works on a prompt, the operation is aborted, and nothing else happens.
abbrev pub stopped_turn : PiError → Bool → Send
stopped_turn e exits = record {
  outcome = errored e;
  exits = exits;
  arrivals = [];
  aborted = true;
  stopped = false;
}

after_stop : (prompt : Text) → Inbox → PiError → Bool → World → World
after_stop prompt item e exits w = record (busy item (stopped_turn e exits) (answering w)) {
  pi = if exits then some false else some true;
  cancelled = true;
  effects = w.effects ++ prompt_pi prompt ∷ [];
  sends = w.sends;
}

send_with_retry_stopped :
    (c : Config) (prompt : Text) (item : Inbox) (e : PiError) (exits : Bool) (w : World)
    → send_with_retry c prompt (busy item (stopped_turn e exits) (answering w))
      ≡ (record { has_pi = true; outcome = errored e }, after_stop prompt item e exits w)
unfolding send_with_retry send_and_wait after_stop arrive_all
send_with_retry_stopped c prompt item e exits w =
    rw (ensure_pi-busy c item (stopped_turn e exits) (answering w)) refl

-- With a database that answers every query: if the operation is aborted while pi works on an item that
-- is not a heartbeat, nothing else arrives and pi ends with an error, the loop stops and the aborted
-- item is put back behind what the inbox held.
pub aborted_put_back :
    (c : Config) (item : Inbox) (prompt conv : Text) (e : PiError) (exits : Bool) (w : World)
    → is_empty conv ≡ false
    → item.source ≢ Source.heartbeat
    → let (stop, w') =
        prompt_room c item prompt conv (busy item (stopped_turn e exits) (answering w)) in
      (stop ≡ true) × (w'.db.inbox ≡ w.db.inbox ++ requeued_row item w.db ∷ [])
unfolding prompt_room after_stop
aborted_put_back c item prompt conv e exits w h ne =
    let v = after_stop prompt item e exits (emit (set_typing conv true) w) in
    rw
      (
        h,
        send_with_retry_stopped c prompt item e exits (emit (set_typing conv true) w),
        handle_pi_error_cancelled item conv e true v refl,
        requeue_preempted-requeue_item item v ne,
      )
      (refl, requeue-healthy item w.db ne)
