-- ===== src/Socket/Wire.antt =====
-- The wire protocol of socket/backend.go: events to clients and commands from them.
use opencrow.Prelude.{ℕ, Option, none, []}
use opencrow.Prelude.Text.{Text}

-- "delta" and "typing" are written where they are sent.
pub data EventKind : Type 0 where
  status msg sent ack img error delta typing : EventKind

pub data Dir : Type 0 where
  dir_in dir_out : Dir

-- The wire's message, but for the fields that the code sets nowhere, and `State`, which is always
-- "sent".
pub record WireMessage : Type 0 where
  pub id : Text
  pub content : Text
  pub ts : ℕ
  pub dir : Dir
  pub image : Text
  pub reply_to : Text
  pub message_type : Text

-- The wire's event, but for the fields that the code sets nowhere, and `Streaming`, which is always
-- true.
pub record Event : Type 0 where
  pub kind : EventKind
  pub message : Option WireMessage
  pub target : Text
  pub text : Text
  pub relays_up : ℕ
  pub relays_total : ℕ
  pub name : Text

abbrev pub event_of : EventKind → Event
event_of kind = record {
  kind = kind;
  message = none;
  target = [];
  text = [];
  relays_up = 0;
  relays_total = 0;
  name = [];
}

pub data CmdName : Type 0 where
  send send_file replay mark_read unknown : CmdName

pub record Command : Type 0 where
  pub cmd : CmdName
  pub text : Text
  pub reply_to : Text
  pub path : Text
  pub message_type : Text
