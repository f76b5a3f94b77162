-- ===== src/Socket.antt =====
-- socket/backend.go: the backend over a local UNIX socket.
--
-- Accepting connections, reading their lines and JSON are outside: the commands and connections come
-- as steps. `time.Now` is the next of `clock`, and the decimal of an id is a parameter. Several
-- goroutines send: a message takes its id in one step, and its push, which locks, is another.
pub mod Wire
pub mod Ids
use opencrow.Prelude.{
  ℕ, zero, suc, ◌+◌, ◌%◌, ◌^◌, Bool, true, false, List, [], ◌∷◌, ◌++◌, Option, none, some,
  if◌then◌else◌, ◌==◌,
}
use mathlib.Core.Option
use opencrow.Prelude.Text.{Text, codes, is_empty}
use opencrow.Conversation.{attachment_text}
use opencrow.App.Messages.{Message}
use opencrow.Socket.Wire.{
  EventKind, status, msg, delta, typing, Dir, dir_in, dir_out, WireMessage, Event, event_of,
  CmdName, send, send_file, replay, mark_read, unknown, Command,
}

-- A connection: what was written to it, and which of the next writes fail.
pub record Conn : Type 0 where
  pub number : ℕ
  pub lines : List Event
  pub faults : List Bool

-- A message that has its id and is to be pushed, and what the app is to be called with then.
pub record Waiting : Type 0 where
  pub message : WireMessage
  pub hands_on : Option Message

pub record Backend : Type 0 where
  pub name : Text
  pub conns : List Conn
  pub msg_seq : ℕ
  pub clock : List ℕ
  pub taken : List Text  -- every id of `nextID`, in order
  pub waiting : List Waiting
  pub pushed : List Event  -- every event of `push`, in order
  pub handled : List Message

abbrev pub conversation_id : Text
conversation_id = codes "local"

-- `New`, where there is a path.
unfoldable pub new_backend : Text → Text → List ℕ → Option Backend
new_backend socket_path name clock =
    if is_empty socket_path
    then none
    else some (record {
      name = if is_empty name then codes "OpenCrow" else name;
      conns = [];
      msg_seq = 0;
      clock = clock;
      taken = [];
      waiting = [];
      pushed = [];
      handled = [];
    })

abbrev pub next_fails : Conn → Bool
next_fails c = elim c.faults [ [] ↦ false | b ∷ bs ↦ b ]

abbrev pub later_faults : List Bool → List Bool
later_faults [] = []
later_faults (b ∷ bs) = bs

abbrev pub written : Event → Conn → Conn
written ev c = record c { lines = c.lines ++ ev ∷ []; faults = later_faults c.faults }

-- A connection that cannot be written to is closed and forgotten.
unfoldable pub push_all : Event → List Conn → List Conn
push_all ev [] = []
push_all ev (c ∷ cs) =
    let rest = push_all ev cs in if next_fails c then rest else written ev c ∷ rest

unfoldable pub push : Event → Backend → Backend
unfolding push_all
push ev b = record b { conns = push_all ev b.conns; pushed = b.pushed ++ ev ∷ [] }

-- A failed write only leaves a line in the log.
unfoldable pub push_to : ℕ → Event → List Conn → List Conn
push_to n ev [] = []
push_to n ev (c ∷ cs) =
    let rest = push_to n ev cs in
    let failed = record c { faults = later_faults c.faults } in
    (if c.number == n then (if next_fails c then failed else written ev c) else c) ∷ rest

abbrev pub now : List ℕ → ℕ
now [] = 0
now (t ∷ ts) = t

abbrev pub later : List ℕ → List ℕ
later [] = []
later (t ∷ ts) = ts

-- SetTyping, and the delta of a message.
unfoldable pub set_typing : Bool → Backend → Backend
unfolding push
set_typing on b = if on then push (event_of typing) b else b

unfoldable pub send_delta : Text → Text → Backend → Backend
unfolding push
send_delta message_id delta_text b =
    push (record (event_of delta) { target = message_id; text = delta_text }) b

unfoldable pub remove_conn : ℕ → List Conn → List Conn
remove_conn n [] = []
remove_conn n (c ∷ cs) = let rest = remove_conn n cs in if c.number == n then rest else c ∷ rest

abbrev pub status_of : Backend → Event
status_of b = record (event_of status) { relays_up = 1; relays_total = 1; name = b.name }

-- What happens to a backend: connections come and go, clients send commands, and opencrow sends.
pub data Step : Type 0 where
  connect : ℕ → List Bool → Step
  disconnect : ℕ → Step
  command : Command → ℕ → Step
  message_out : Text → Text → Step
  file_out : Text → Step
  delta_out : Text → Text → Step
  typing_out : Bool → Step
  push_waiting : ℕ → Step  -- of the messages that are to be pushed, the one at this place

abbrev pub blank : Dir → WireMessage
blank dir = record {
  id = [];
  content = [];
  ts = 0;
  dir = dir;
  image = [];
  reply_to = [];
  message_type = [];
}

abbrev pub from_client : Text → Text → Text → Message
from_client id text reply_to = record {
  conversation_id = conversation_id;
  sender_id = codes "local";
  text = text;
  message_id = id;
  reply_to_id = reply_to;
}

unfoldable pub take_at : ℕ → List Waiting → Option (Waiting × List Waiting)
take_at i [] = none
take_at zero (w ∷ ws) = some (w, ws)
take_at (suc i) (w ∷ ws) =
    Option.map (λ (r : Waiting × List Waiting). (r.0, w ∷ r.1)) (take_at i ws)

abbrev pub hand_on : Option Message → Backend → Backend
hand_on none b = b
hand_on (some m) b = record b { handled = b.handled ++ m ∷ [] }

-- The event with the time, its push, and for a message of a client the call of the handler.
abbrev pub push_taken : Option (Waiting × List Waiting) → Backend → Backend
unfolding push
push_taken none b = b
push_taken (some (w, ws)) b = hand_on w.hands_on (
    push (record (event_of msg) { message = some (record w.message { ts = now b.clock }) })
      (record b { waiting = ws; clock = later b.clock }))

unfoldable pub push_message : ℕ → Backend → Backend
unfolding push_taken take_at
push_message i b = push_taken (take_at i b.waiting) b

module _ (format_int : ℕ → Text) where
  -- `msgSeq` is kept as the bits of an int64, of which `format_int` gives the decimal.
  unfoldable pub next_id : Backend → Text × Backend
  next_id b =
      let n = (b.msg_seq + 1) % 2 ^ 64 in
      (
        codes "local-" ++ format_int n,
        record b { msg_seq = n; taken = b.taken ++ (codes "local-" ++ format_int n) ∷ [] },
      )

  -- A message takes the next id; its push is another step.
  unfoldable pub begin_message : WireMessage → (Text → Option Message) → Backend → Text × Backend
  unfolding next_id
  begin_message m hands_on b =
      let (id, b') = next_id b in
      (
        id,
        record b' {
          waiting =
              b.waiting ++ record { message = record m { id = id }; hands_on = hands_on id } ∷ [];
        },
      )

  unfoldable pub send_message : Text → Text → Backend → Text × Backend
  unfolding begin_message
  send_message text reply_to_id b =
      begin_message (record (blank dir_in) { content = text; reply_to = reply_to_id }) (λ id. none)
        b

  unfoldable pub send_file_path : Text → Backend → Backend
  unfolding begin_message
  send_file_path file_path b =
      (begin_message (record (blank dir_in) { image = file_path }) (λ id. none) b).1

  unfoldable pub handle_send : Command → Backend → Backend
  unfolding begin_message
  handle_send c b =
      let own = record (blank dir_out) {
        content = c.text;
        reply_to = c.reply_to;
        message_type = c.message_type;
      } in
      if is_empty c.text
      then b
      else (begin_message own (λ id. some (from_client id c.text c.reply_to)) b).1

  unfoldable pub handle_send_file : Command → Backend → Backend
  unfolding begin_message
  handle_send_file c b =
      if is_empty c.path
      then b
      else (begin_message (record (blank dir_out) { image = c.path })
          (λ id. some (from_client id (attachment_text [] c.path) [])) b).1

  unfoldable pub handle_command : Command → ℕ → Backend → Backend
  unfolding handle_send handle_send_file push_to
  handle_command c conn b = elim c.cmd [
    | send ↦ handle_send c b
    | send_file ↦ handle_send_file c b
    | replay ↦ record b { conns = push_to conn (status_of b) b.conns }
    | mark_read ↦ b
    | unknown ↦ b
  ]

  unfoldable pub step : Step → Backend → Backend
  unfolding handle_command send_message send_file_path send_delta set_typing remove_conn
      push_message
  step (connect n faults) b = record b {
    conns = b.conns ++ record { number = n; lines = []; faults = faults } ∷ [];
  }
  step (disconnect n) b = record b { conns = remove_conn n b.conns }
  step (command c conn) b = handle_command c conn b
  step (message_out text reply_to) b = (send_message text reply_to b).1
  step (file_out path) b = send_file_path path b
  step (delta_out id text) b = send_delta id text b
  step (typing_out on) b = set_typing on b
  step (push_waiting i) b = push_message i b

  unfoldable pub steps : List Step → Backend → Backend
  unfolding step
  steps [] b = b
  steps (s ∷ ss) b = steps ss (step s b)
