-- ===== src/Signal/Backend.antt =====
-- signal/backend.go: the messages that reach the handler, and those that are sent.
--
-- The daemon and the socket are outside: a call of signal-cli takes the next of `results`.
use opencrow.Prelude.{
  Bool, true, false, not, ◌||◌, List, [], ◌∷◌, ◌++◌, Option, none, some, if◌then◌else◌,
}
use opencrow.Prelude.Text.{Text, codes, text_eq, is_empty}
use opencrow.Prelude.Strings.{trim_space, cut_prefix}
use opencrow.Prelude.Fallible.{Fallible, value, error}
use opencrow.Conversation.{ActiveConversation, claim, reset, is_allowed}
use opencrow.App.Messages.{Message}
use opencrow.Signal.Types.{Library}
use opencrow.Signal.Decode.{group_conversation_prefix, decode_receive_notification, formatted}

-- Where a message goes: the parameters `groupId` and `recipient` of a call.
pub data Recipient : Type 0 where
  group direct : Text → Recipient

abbrev pub group_in : Option Text → Option Text
group_in none = none
group_in (some group_id) = if is_empty group_id then none else some group_id

unfoldable pub parse_group_conversation_id : Text → Option Text
unfolding cut_prefix
parse_group_conversation_id conversation_id =
    group_in (cut_prefix conversation_id group_conversation_prefix)

abbrev pub recipient_or : Text → Option Text → Recipient
recipient_or conversation_id none = direct conversation_id
recipient_or conversation_id (some group_id) = group group_id

unfoldable pub add_recipient_params : Text → Recipient
unfolding parse_group_conversation_id
add_recipient_params conversation_id =
    recipient_or conversation_id (parse_group_conversation_id conversation_id)

pub record Notification : Type 0 where
  pub method : Text
  pub params : Text

module _ (lib : Library) where
  -- The parameters of a call of `send`.
  pub record SendParams : Type 0 where
    pub message : Option Text
    pub attachment : Option Text
    pub recipient : Recipient
    pub quote_timestamp : Option lib.Int64

  pub record Backend : Type 0 where
    pub account : Text
    pub config_dir : Text
    pub allowed_users : List Text
    pub active : ActiveConversation
    pub requests : List SendParams
    pub results : List (Fallible lib.Int64)  -- what the calls return, `Timestamp` of a success
    pub handled : List Message

  abbrev pub next_result : List (Fallible lib.Int64) → Fallible lib.Int64
  next_result [] = error (codes "signal json-rpc client is not connected")
  next_result (r ∷ rs) = r

  abbrev pub later_results : List (Fallible lib.Int64) → List (Fallible lib.Int64)
  later_results [] = []
  later_results (r ∷ rs) = rs

  unfoldable pub rpc_call : SendParams → Backend → Fallible lib.Int64 × Backend
  rpc_call params b = (
    next_result b.results,
    record b { requests = b.requests ++ params ∷ []; results = later_results b.results },
  )

  abbrev pub timestamp_of : Fallible lib.Int64 → Text
  timestamp_of (value timestamp) = formatted lib timestamp
  timestamp_of (error e) = []

  -- The id of the message that was sent, empty where none was.
  unfoldable pub send_message : Text → Text → Text → Backend → Text × Backend
  unfolding rpc_call
  send_message conversation_id text reply_to_id b =
      let params : SendParams = record {
        message = some text;
        attachment = none;
        recipient = add_recipient_params conversation_id;
        quote_timestamp = if is_empty reply_to_id then none else lib.parse_int reply_to_id;
      } in
      let (r, b') = rpc_call params b in
      if is_empty (trim_space text) then ([], b) else (timestamp_of r, b')

  abbrev pub error_of : Fallible lib.Int64 → Option Text
  error_of (value timestamp) = none
  error_of (error e) = some (codes "signal send attachment: " ++ e)

  unfoldable pub send_file : Text → Text → Backend → Option Text × Backend
  unfolding rpc_call
  send_file conversation_id file_path b =
      let (r, b') =
        rpc_call
          (record {
            message = none;
            attachment = some file_path;
            recipient = add_recipient_params conversation_id;
            quote_timestamp = none;
          })
          b in
      (error_of r, b')

  unfoldable pub reset_conversation : Text → Backend → Backend
  reset_conversation conversation_id b = record b { active = reset conversation_id b.active }

  abbrev pub claimed : Message → Bool × ActiveConversation → Backend → Backend
  claimed msg (true, active) b = record b { active = active; handled = b.handled ++ msg ∷ [] }
  claimed msg (false, active) b = record b { active = active }

  abbrev pub on_message : Fallible (Option Message) → Backend → Backend
  on_message (error e) b = b
  on_message (value none) b = b
  on_message (value (some msg)) b =
      if text_eq msg.sender_id b.account || not (is_allowed b.allowed_users msg.sender_id)
      then b
      else claimed msg (claim msg.conversation_id b.active) b

  -- A notification in the loop of `Run`.
  unfoldable pub on_notification : Notification → Backend → Backend
  on_notification n b =
      if text_eq n.method (codes "receive")
      then on_message (decode_receive_notification lib n.params b.config_dir) b
      else b

  unfoldable pub on_notifications : List Notification → Backend → Backend
  unfolding on_notification
  on_notifications [] b = b
  on_notifications (n ∷ ns) b = on_notifications ns (on_notification n b)
