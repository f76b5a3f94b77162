-- ===== src/Pi/Process.antt =====
-- The state of a call to pi in pi_rpc.go, what it writes, and `drainEvents`.
use opencrow.Prelude.{
  Bool, true, false, ◌&&◌, ◌||◌, not, List, [], ◌∷◌, ◌++◌, Option, none, some, if◌then◌else◌,
}
use opencrow.Prelude.Text.{Text, codes, text_eq}
use opencrow.Database.{next_fault, later_faults}
use opencrow.Pi.Events.{response, extension_ui_request, tool_execution_start, RpcEvent}

pub data Command : Type 0 where
  prompt : Text → Command
  abort compact : Command
  extension_ui_response : Text → Command  -- `cancelled` for the request with this id

pub data Tick : Type 0 where
  arrived : RpcEvent → Tick
  read_failed : Text → Tick
  stream_closed process_exited context_done window_elapsed : Tick

pub record ToolCallEvent : Type 0 where
  pub tool_name : Text
  pub args : Text → Option Text

pub record PiProcess : Type 0 where
  pub ticks : List Tick
  pub is_alive : Bool
  pub cancelled : Bool  -- the context of the call
  pub faults : List Bool  -- which of the next writes to stdin fail
  pub sent : List Command
  pub reports_tools : Bool  -- `onToolCall` is not nil
  pub tool_calls : List ToolCallEvent
  pub deltas : List Text

pub data CallError : Type 0 where
  not_alive write_failed eof exited canceled bad_compact_result : CallError
  stdout_error : Text → CallError
  rejected : Text → Text → CallError  -- the command and pi's error

-- Whether the command was written.
unfoldable pub send_command : Command → PiProcess → Bool × PiProcess
send_command c p =
    let p' = record p { faults = later_faults p.faults } in
    if next_fault p.faults then (false, p') else (true, record p' { sent = p.sent ++ c ∷ [] })

unfoldable pub send_prompt_command : Text → PiProcess → Bool × PiProcess
unfolding send_command
send_prompt_command message p = send_command (prompt message) p

unfoldable pub send_abort : PiProcess → PiProcess
unfolding send_command
send_abort p = (send_command abort p).1

abbrev pub is_ui_method : Text → Bool
is_ui_method m =
    text_eq m (codes "select")
    || text_eq m (codes "confirm")
    || text_eq m (codes "input")
    || text_eq m (codes "editor")

unfoldable pub auto_respond_extension_ui : RpcEvent → PiProcess → PiProcess
unfolding send_command
auto_respond_extension_ui evt p =
    if is_ui_method evt.method then (send_command (extension_ui_response evt.id) p).1 else p

abbrev pub is_failure : Option Bool → Bool
is_failure (some false) = true
is_failure _ = false

abbrev pub report_tool : RpcEvent → PiProcess → PiProcess
report_tool evt p =
    if p.reports_tools
    then record p {
      tool_calls = p.tool_calls ++ record { tool_name = evt.tool_name; args = evt.args } ∷ [];
    }
    else p

unfoldable pub handle_side_effects : RpcEvent → PiProcess → Option CallError × PiProcess
unfolding auto_respond_extension_ui
handle_side_effects evt p = elim evt.event_type [
  | extension_ui_request ↦ (none, auto_respond_extension_ui evt p)
  | tool_execution_start ↦ (none, report_tool evt p)
  | response ↦ (if is_failure evt.success then some (rejected evt.command evt.error) else none, p)
  | _ ↦ (none, p)
]

-- What a handler says of one event.
pub data Verdict : Type 0 where
  more done : Verdict
  refused : CallError → Verdict

-- How a drain comes out: with the event that ends it, with an error, or not at all: the script is used
-- up, and the call waits as long as pi is alive and silent.
pub data Drained : Type 0 where
  finished waits : Drained
  stopped : CallError → Drained

module _ {S : Type 0} (handle : RpcEvent → S × PiProcess → Verdict × S × PiProcess) where
  -- The abort is written once, before the first event that is read after the end of the context.
  abbrev pub abort_once : Bool → PiProcess → PiProcess
  abort_once aborted p = if not aborted && p.cancelled then send_abort p else p

  -- What `drainEvents` does with one event.
  abbrev pub handled : RpcEvent → S → Option CallError × PiProcess → Verdict × S × PiProcess
  handled evt s (some e, p) = (refused e, s, p)
  handled evt s (none, p) = handle evt (s, p)

  abbrev pub on_event : RpcEvent → Bool → S → PiProcess → Verdict × S × PiProcess
  on_event evt aborted s p = handled evt s (handle_side_effects evt (abort_once aborted p))

  abbrev pub go_on :
      (S × PiProcess → Drained × S × PiProcess) → Verdict × S × PiProcess → Drained × S × PiProcess
  go_on next (more, s, p) = next (s, p)
  go_on next (done, s, p) = (finished, s, p)
  go_on next (refused e, s, p) = (stopped e, s, p)

  -- `drainEvents` on the ticks that are left, which it leaves in the process.
  unfoldable pub drain_events : Bool → List Tick → S → PiProcess → Drained × S × PiProcess
  drain_events aborted [] s p = (waits, s, record p { ticks = [] })
  drain_events aborted (arrived evt ∷ ts) s p =
      let p' = record p { ticks = ts } in
      go_on (λ (q : S × PiProcess). drain_events (aborted || p'.cancelled) ts q.0 q.1)
        (on_event evt aborted s p')
  drain_events aborted (read_failed t ∷ ts) s p =
      (stopped (stdout_error t), s, record p { ticks = ts })
  drain_events aborted (stream_closed ∷ ts) s p = (stopped eof, s, record p { ticks = ts })
  drain_events aborted (process_exited ∷ ts) s p = (stopped exited, s, record p { ticks = ts })
  drain_events aborted (context_done ∷ ts) s p =
      drain_events aborted ts s (record p { cancelled = true; ticks = ts })
  drain_events aborted (window_elapsed ∷ ts) s p =
      drain_events aborted ts s (record p { ticks = ts })
