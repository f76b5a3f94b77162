-- ===== src/Pi/Drains.antt =====
-- `drainEvents` of pi_rpc.go over events that do not end it, and over the one that does.
use opencrow.Prelude.{◌≡◌, Bool, true, false, ◌||◌, not, List, [], ◌∷◌, ◌++◌, arith, All}
use opencrow.Pi.Events.{
  agent_end, auto_retry_end, response, RpcEvent, AssistantResult, Json, extract_last_assistant,
}
use opencrow.Pi.Process.{
  Tick, arrived, read_failed, stream_closed, process_exited, context_done, window_elapsed,
  PiProcess, more, done, Drained, finished, handle_side_effects, is_failure, on_event, handled,
  drain_events, abort_once,
}
use opencrow.Pi.Result.{ResultWaiter, is_success, handle, handle_agent_end, handle_last}
use opencrow.Pi.Progress.{abort_once-ticks}

-- Whether the event ends a drain.
abbrev pub ends : RpcEvent → Bool
ends evt = elim evt.event_type [
  | agent_end ↦ true
  | auto_retry_end ↦ not (is_success evt.success)
  | response ↦ is_failure evt.success
  | _ ↦ false
]

-- Nothing but events that do not end a drain and the end of the context.
abbrev pub IsQuiet : Tick → Type 0
IsQuiet (arrived evt) = ends evt ≡ false
IsQuiet (read_failed t) = ⊥
IsQuiet stream_closed = ⊥
IsQuiet process_exited = ⊥
IsQuiet context_done = Unit
IsQuiet window_elapsed = Unit

module _ (json : Json) where
  -- The event is an agent_end whose last message of the assistant is `last`.
  abbrev pub Ends : RpcEvent → AssistantResult → Type 0
  Ends evt last = (evt.event_type ≡ agent_end) × (extract_last_assistant json evt.messages ≡ last)

  -- A quiet event leaves the waiter as it is, and the drain goes on.
  on_event-quiet :
      (evt : RpcEvent) (aborted : Bool) (w : ResultWaiter) (p : PiProcess)
      → ends evt ≡ false
      → (p' : PiProcess) × (on_event (handle json) evt aborted w p ≡ (more, w, p'))
  unfolding handle_side_effects handle
  on_event-quiet evt aborted w p h =
      let p' = abort_once (handle json) aborted p in
      ((handled (handle json) evt w (handle_side_effects evt p')).2, ground arith)

  -- What holds of every drain of the rest holds of the drain.
  pub drain_events-quiet :
      (P : Drained × ResultWaiter × PiProcess → Type 0) (ts us : List Tick) (aborted : Bool)
      (w : ResultWaiter) (p : PiProcess)
      → All IsQuiet ts
      → ((aborted' : Bool) (p' : PiProcess) → P (drain_events (handle json) aborted' us w p'))
      → P (drain_events (handle json) aborted (ts ++ us) w p)
  unfolding drain_events
  drain_events-quiet P [] us aborted w p q k = k aborted p
  drain_events-quiet P (arrived evt ∷ ts) us aborted w p q k =
      let (p', e) = on_event-quiet evt aborted w (record p { ticks = ts ++ us }) q.0 in
      rw e (drain_events-quiet P ts us (aborted || p.cancelled) w p' q.1 k)
  drain_events-quiet P (read_failed t ∷ ts) us aborted w p q k = absurd q.0
  drain_events-quiet P (stream_closed ∷ ts) us aborted w p q k = absurd q.0
  drain_events-quiet P (process_exited ∷ ts) us aborted w p q k = absurd q.0
  drain_events-quiet P (context_done ∷ ts) us aborted w p q k =
      drain_events-quiet P ts us aborted w (record p { cancelled = true; ticks = ts ++ us }) q.1 k
  drain_events-quiet P (window_elapsed ∷ ts) us aborted w p q k =
      drain_events-quiet P ts us aborted w (record p { ticks = ts ++ us }) q.1 k

  -- An agent_end ends the drain.
  on_event-Ends :
      (evt : RpcEvent) (last : AssistantResult) (aborted : Bool) (w : ResultWaiter) (p : PiProcess)
      → Ends evt last
      → on_event (handle json) evt aborted w p
        ≡ (done, handle_last last w, abort_once (handle json) aborted p)
  unfolding handle_side_effects handle handle_agent_end
  on_event-Ends evt last aborted w p (e, l) = ground (arith, e, l)

  pub drain_events-Ends :
      (P : Drained × ResultWaiter × PiProcess → Type 0) (ts : List Tick) (evt : RpcEvent)
      (last : AssistantResult) (aborted : Bool) (w : ResultWaiter) (p : PiProcess)
      → Ends evt last
      → ((p' : PiProcess) → p'.ticks ≡ ts → P (finished, handle_last last w, p'))
      → P (drain_events (handle json) aborted (arrived evt ∷ ts) w p)
  unfolding drain_events
  drain_events-Ends P ts evt last aborted w p e k =
      let p' = record p { ticks = ts } in
      rw (on_event-Ends evt last aborted w p' e)
        (k (abort_once (handle json) aborted p') (abort_once-ticks (handle json) aborted p'))
