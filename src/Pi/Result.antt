-- ===== src/Pi/Result.antt =====
-- `resultWaiter`, `waitForResult` and `waitForCompactResponse` of pi_rpc.go.
use opencrow.Prelude.{
  ℕ, zero, suc, Bool, true, false, ◌&&◌, not, List, [], ◌∷◌, ◌++◌, Option, none, some,
  if◌then◌else◌, length,
}
use opencrow.Prelude.Text.{Text, codes, text_eq, is_empty}
use opencrow.Pi.Events.{
  EventType, auto_retry_start, auto_retry_end, auto_compaction_start, agent_end, message_update,
  response, AssistantMessageEvent, RpcEvent, AssistantResult, CompactResult, Json,
  extract_last_assistant,
}
use opencrow.Pi.Process.{
  Tick, arrived, context_done, PiProcess, CallError, not_alive, write_failed, canceled,
  bad_compact_result, Verdict, more, done, refused, Drained, finished, waits, stopped,
  send_prompt_command, send_command, compact, drain_events,
}

-- With `onDelta` given or nil.
pub record ResultWaiter : Type 0 where
  pub reply : Text
  pub final_err : Text
  pub streams : Bool

unfoldable pub continues_turn : EventType → Bool
continues_turn auto_retry_start = true
continues_turn auto_compaction_start = true
continues_turn _ = false

abbrev pub is_success : Option Bool → Bool
is_success (some true) = true
is_success _ = false

-- The text delta of an event, empty for none.
abbrev pub delta_of : Option AssistantMessageEvent → Text
delta_of none = []
delta_of (some e) = if text_eq e.kind (codes "text_delta") then e.delta else []

abbrev pub on_delta : ResultWaiter → Text → PiProcess → PiProcess
on_delta w delta p =
    if w.streams && not (is_empty delta) then record p { deltas = p.deltas ++ delta ∷ [] } else p

unfoldable pub handle_last : AssistantResult → ResultWaiter → ResultWaiter
handle_last last w =
    if text_eq last.stop_reason (codes "error")
    then record w { reply = last.text; final_err = last.error_message }
    else record w { reply = last.text }

-- What a call comes to. It may never return, `waiting`; `out_of_fuel` is not of the program.
pub data Returned (A : Type 0) : Type 0 where
  returned : A → Returned A
  failed : CallError → Returned A
  waiting out_of_fuel : Returned A

abbrev pub error_of : CallError → PiProcess → CallError
error_of e p = if p.cancelled then canceled else e

-- The reply, or the committed error where there is none.
unfoldable pub reply_text : ResultWaiter → Text
reply_text w =
    if is_empty w.reply && not (is_empty w.final_err)
    then codes "Request failed: "
      ++ (w.final_err
          ++ codes "\n\nTry `!compact` to shrink the context, or `!restart` for a clean session.")
    else w.reply

-- `graceDrain`: whether the error is rescinded. Where nothing more arrives its timer ends it.
unfoldable pub grace_drain : List Tick → ResultWaiter → PiProcess → Bool × ResultWaiter × PiProcess
unfolding continues_turn
grace_drain [] w p = (false, w, record p { ticks = [] })
grace_drain (arrived evt ∷ ts) w p =
    let rest = grace_drain ts w (record p { ticks = ts }) in
    if continues_turn evt.event_type
    then (true, record w { final_err = [] }, record p { ticks = ts })
    else rest
grace_drain (context_done ∷ ts) w p = (false, w, record p { cancelled = true; ticks = ts })
grace_drain (t ∷ ts) w p = (false, w, record p { ticks = ts })

module _ (json : Json) where
  unfoldable pub handle_agent_end : RpcEvent → ResultWaiter → ResultWaiter
  unfolding handle_last
  handle_agent_end evt w = handle_last (extract_last_assistant json evt.messages) w

  unfoldable pub handle : RpcEvent → ResultWaiter × PiProcess → Verdict × ResultWaiter × PiProcess
  unfolding handle_agent_end
  handle evt (w, p) = elim evt.event_type [
    | auto_retry_end ↦
        if is_success evt.success
        then (more, w, p)
        else (done, record w { final_err = evt.final_error }, p)
    | message_update ↦ (more, w, on_delta w (delta_of evt.assistant_message_event) p)
    | agent_end ↦ (done, handle_agent_end evt w, p)
    | _ ↦ (more, w, p)
  ]

  -- What `waitForResult` does after `drainEvents`: it ends, or goes round again.
  abbrev pub after_grace :
      (ResultWaiter × PiProcess → Returned Text × PiProcess)
      → Bool × ResultWaiter × PiProcess
      → Returned Text × PiProcess
  after_grace next (true, w, p) = next (w, p)
  after_grace next (false, w, p) = (returned (reply_text w), p)

  abbrev pub after_drain :
      (ResultWaiter × PiProcess → Returned Text × PiProcess)
      → Drained × ResultWaiter × PiProcess
      → Returned Text × PiProcess
  after_drain next (stopped e, w, p) = (failed (error_of e p), p)
  after_drain next (waits, w, p) = (waiting, p)
  after_drain next (finished, w, p) =
      if is_empty w.final_err
      then (returned (reply_text w), p)
      else after_grace next (grace_drain p.ticks w p)

  unfoldable pub wait_rounds : ℕ → ResultWaiter → PiProcess → Returned Text × PiProcess
  unfolding handle
  wait_rounds zero w p = (out_of_fuel, p)
  wait_rounds (suc fuel) w p =
      after_drain (λ (q : ResultWaiter × PiProcess). wait_rounds fuel q.0 q.1)
        (drain_events handle false p.ticks w p)

  -- On fuel for as many rounds as there are ticks.
  unfoldable pub wait_for_result : Bool → PiProcess → Returned Text × PiProcess
  unfolding wait_rounds
  wait_for_result streams p =
      wait_rounds (suc (length p.ticks)) (record { reply = []; final_err = []; streams = streams })
        p

  abbrev pub if_written :
      (PiProcess → Returned Text × PiProcess) → Bool × PiProcess → Returned Text × PiProcess
  if_written next (true, p) = next p
  if_written next (false, p) = (failed write_failed, p)

  unfoldable pub send_and_wait : Text → Bool → PiProcess → Returned Text × PiProcess
  send_and_wait message streams p =
      if p.is_alive
      then if_written (wait_for_result streams) (send_prompt_command message p)
      else (failed not_alive, p)

  abbrev pub is_compact_response : RpcEvent → Bool
  is_compact_response evt = elim evt.event_type [
    | response ↦ text_eq evt.command (codes "compact")
    | _ ↦ false
  ]

  abbrev pub parsed_result :
      Option CompactResult
      → Option CompactResult × PiProcess
      → Verdict × Option CompactResult × PiProcess
  parsed_result none (r, p) = (refused bad_compact_result, r, p)
  parsed_result (some result) (r, p) = (done, some result, p)

  unfoldable pub handle_compact :
      RpcEvent → Option CompactResult × PiProcess → Verdict × Option CompactResult × PiProcess
  handle_compact evt (r, p) =
      if is_compact_response evt
      then parsed_result (json.compact_result evt.payload) (r, p)
      else (more, r, p)

  abbrev pub compact_returned :
      Drained × Option CompactResult × PiProcess → Returned (Option CompactResult) × PiProcess
  compact_returned (stopped e, r, p) = (failed (error_of e p), p)
  compact_returned (waits, r, p) = (waiting, p)
  compact_returned (finished, r, p) = (returned r, p)

  unfoldable pub wait_for_compact_response : PiProcess → Returned (Option CompactResult) × PiProcess
  unfolding handle_compact
  wait_for_compact_response p = compact_returned (drain_events handle_compact false p.ticks none p)

  abbrev pub if_asked : Bool × PiProcess → Returned (Option CompactResult) × PiProcess
  if_asked (true, p) = wait_for_compact_response p
  if_asked (false, p) = (failed write_failed, p)

  unfoldable pub compact_session : PiProcess → Returned (Option CompactResult) × PiProcess
  compact_session p =
      if p.is_alive then if_asked (send_command compact p) else (failed not_alive, p)
