-- ===== src/Tests/Pi.antt =====
-- A turn of pi that overflows its context, compacts it and goes on, at concrete events.
use opencrow.Prelude.{List, refl, [], ◌∷◌, none, some, if◌then◌else◌, true, false}
use opencrow.Prelude.Text.{Text, codes, text_eq}
use opencrow.Pi.Events.{EventType, RpcEvent, Json, AgentMessage, AssistantResult}
use opencrow.Pi.Process.{Tick, arrived, context_done, process_exited, PiProcess}
use opencrow.Pi.Result.{wait_for_result}
use opencrow.Pi.Progress.{IsEnded, wait_for_result-IsEnded}

abbrev message : Text → Text → Text → AgentMessage
message content stop_reason error_message = record {
  role = codes "assistant";
  content = content;
  stop_reason = stop_reason;
  error_message = error_message;
}

-- The messages of an agent_end: one that failed where there are none, an answer otherwise.
abbrev messages_of : Text → List AgentMessage
messages_of raw =
    if text_eq raw (codes "!")
    then message [] (codes "error") (codes "overflow") ∷ []
    else message raw (codes "stop") [] ∷ []

-- A string stands for itself, and everything else is rejected.
abbrev json : Json
json = record {
  event = λ line. none;
  messages = λ raw. some (messages_of raw);
  string = λ raw. some raw;
  blocks = λ raw. none;
  compact_result = λ raw. none;
}

abbrev event : EventType → Text → RpcEvent
event event_type messages = record {
  event_type = event_type;
  id = [];
  command = [];
  success = none;
  error = [];
  payload = [];
  messages = messages;
  method = [];
  tool_name = [];
  args = λ key. none;
  final_error = [];
  assistant_message_event = none;
}

abbrev failed_end : RpcEvent
failed_end = event EventType.agent_end (codes "!")

abbrev answer_end : RpcEvent
answer_end = event EventType.agent_end (codes "42")

abbrev compaction : RpcEvent
compaction = event EventType.auto_compaction_start []

abbrev retry : List Tick
retry = arrived (event EventType.agent_start []) ∷ context_done ∷ arrived answer_end ∷ []

abbrev process : PiProcess
process = record {
  ticks = arrived failed_end ∷ arrived compaction ∷ retry;
  is_alive = true;
  cancelled = false;
  faults = [];
  sent = [];
  reports_tools = true;
  tool_calls = [];
  deltas = [];
}

abbrev overflow : AssistantResult
overflow = record { text = []; stop_reason = codes "error"; error_message = codes "overflow" }

abbrev the_answer : AssistantResult
the_answer = record { text = codes "42"; stop_reason = codes "stop"; error_message = [] }

-- A failed attempt, and the exit of the process.
abbrev dying : PiProcess
dying = record process {
  ticks = arrived failed_end ∷ arrived compaction ∷ context_done ∷ process_exited ∷ [];
}

wait_for_result-IsEnded_example : IsEnded (wait_for_result json false dying).0
wait_for_result-IsEnded_example = wait_for_result-IsEnded json false dying refl
