-- ===== src/Pi/Events.antt =====
-- The events of pi_rpc.go, and what the code reads from the messages of an agent_end.
use mathlib.Core.List.{reverse}
use opencrow.Prelude.{ℕ, Bool, ◌&&◌, not, List, [], ◌∷◌, Option, none, some, if◌then◌else◌}
use opencrow.Prelude.Text.{Text, codes, text_eq, is_empty, newline}
use opencrow.Prelude.Strings.{join}

-- The types that the code names; every other one is `other_type`.
pub data EventType : Type 0 where
  response agent_start agent_end message_update tool_execution_start : EventType
  tool_execution_end tool_execution_update auto_retry_start auto_retry_end : EventType
  extension_error extension_ui_request auto_compaction_start other_type : EventType

pub record AssistantMessageEvent : Type 0 where
  pub kind : Text
  pub delta : Text

-- The fields that the code reads. `args` gives the arguments that are strings.
pub record RpcEvent : Type 0 where
  pub event_type : EventType
  pub id : Text
  pub command : Text
  pub success : Option Bool
  pub error : Text
  pub payload : Text  -- `Data`, as it was received
  pub messages : Text  -- as they were received
  pub method : Text
  pub tool_name : Text
  pub args : Text → Option Text
  pub final_error : Text
  pub assistant_message_event : Option AssistantMessageEvent

pub record AgentMessage : Type 0 where
  pub role : Text
  pub content : Text
  pub stop_reason : Text
  pub error_message : Text

pub record ContentBlock : Type 0 where
  pub kind : Text
  pub text : Text

pub record CompactResult : Type 0 where
  pub summary : Text
  pub tokens_before : ℕ

-- `json.Unmarshal` into the types of the code.
pub record Json : Type 0 where
  pub event : Text → Option RpcEvent
  pub messages : Text → Option (List AgentMessage)
  pub string : Text → Option Text
  pub blocks : Text → Option (List ContentBlock)
  pub compact_result : Text → Option CompactResult

pub record AssistantResult : Type 0 where
  pub text : Text
  pub stop_reason : Text
  pub error_message : Text

abbrev pub no_result : AssistantResult
no_result = record { text = []; stop_reason = []; error_message = [] }

unfoldable pub text_parts : List ContentBlock → List Text
text_parts [] = []
text_parts (b ∷ bs) =
    let rest = text_parts bs in
    if text_eq b.kind (codes "text") && not (is_empty b.text) then b.text ∷ rest else rest

abbrev pub joined : Option (List ContentBlock) → Text
joined none = []
joined (some blocks) = join (newline ∷ []) (text_parts blocks)

abbrev pub content_of : Option Text → Option (List ContentBlock) → Text
content_of (some text) blocks = text
content_of none blocks = joined blocks

-- The first message of the assistant in a list that begins with the last message.
unfoldable pub last_of : (AgentMessage → AssistantResult) → List AgentMessage → AssistantResult
last_of result [] = no_result
last_of result (m ∷ ms) = if text_eq m.role (codes "assistant") then result m else last_of result ms

-- What pi writes on a line that is not empty; other lines are skipped.
abbrev pub after_line : Option RpcEvent → List RpcEvent → List RpcEvent
after_line none events = events
after_line (some evt) events = evt ∷ events

module _ (json : Json) where
  unfoldable pub parse_assistant_content : Text → Text
  unfolding text_parts
  parse_assistant_content raw = content_of (json.string raw) (json.blocks raw)

  abbrev pub result_of : AgentMessage → AssistantResult
  result_of m = record {
    text = parse_assistant_content m.content;
    stop_reason = m.stop_reason;
    error_message = m.error_message;
  }

  abbrev pub last_assistant : Option (List AgentMessage) → AssistantResult
  last_assistant none = no_result
  last_assistant (some messages) = last_of result_of (reverse messages)

  unfoldable pub extract_last_assistant : Text → AssistantResult
  unfolding last_of
  extract_last_assistant raw =
      if is_empty raw then no_result else last_assistant (json.messages raw)

  -- The events of the lines of pi's stdout.
  unfoldable pub read_events : List Text → List RpcEvent
  read_events [] = []
  read_events (line ∷ lines) =
      let rest = read_events lines in
      if is_empty line then rest else after_line (json.event line) rest
