-- ===== src/Tests/Signal.antt =====
-- The signal backend at a message of a group, and a call that signal-cli answers.
use opencrow.Prelude.{ℕ, ◌≡◌, refl, ap, ◌≤◌, List, [], ◌∷◌, none, some, true, arith, All}
use opencrow.Prelude.Text.{Text, codes, is_empty}
use opencrow.Prelude.Fallible.{value, error}
use opencrow.Signal.Types.{Library, ReceiveLine}
use opencrow.Signal.Backend.{Backend, Notification, on_notifications}
use opencrow.Signal.Accepted.{IsAccepted, on_notifications-All}
use opencrow.Signal.Rpc.{Json, Step, call, end_of_stream, step, steps, new_client}
use opencrow.Signal.Counts.{calls, responses}
use opencrow.Signal.Responses.{FormatsApart, steps-responses}

-- Integers are texts, and every payload is a message of one group.
abbrev the_line : ReceiveLine Text
the_line = record {
  envelope = some (record {
    source = [];
    source_number = codes "+49";
    source_uuid = [];
    timestamp = codes "7";
    data_message = some (record {
      timestamp = codes "7";
      message = codes "hi";
      quote = none;
      group_info = some (codes "abc");
      attachments = [];
    });
  });
}

abbrev lib : Library
lib = record {
  Int64 = Text;
  is_zero = λ n. is_empty n;
  format_int = λ n. n;
  parse_int = λ t. some t;
  base = λ t. t;
  is_abs = λ t. true;
  join_path = λ s t. t;
  receive_line = λ payload. value the_line;
  wrapped = λ payload. value none;
  marshal = λ line. error (codes "unsupported");
}

abbrev backend : Backend lib
backend = record {
  account = codes "+41";
  config_dir = [];
  allowed_users = [];
  active = [];
  requests = [];
  results = [];
  handled = [];
}

abbrev received : List Notification
received = record { method = codes "receive"; params = codes "{}" } ∷ []

on_notifications-All_example :
    All (IsAccepted lib backend received) (on_notifications lib received backend).handled
on_notifications-All_example = on_notifications-All lib backend received refl

-- An id is its number.
abbrev json : Json
json = record {
  envelope = λ line. none;
  string = λ raw. none;
  number = λ raw. none;
  format_uint = λ n. n ∷ [];
}

first_or_zero : Text → ℕ
first_or_zero [] = 0
first_or_zero (n ∷ t) = n

apart : FormatsApart json
unfolding first_or_zero
apart m n e = ap first_or_zero e

abbrev a_call : List Step
a_call = call (codes "send") true ∷ []

abbrev eof : Text
eof = codes "EOF"

steps-responses_example :
    (calls (1 ∷ []) (steps json a_call new_client).pending (steps json a_call new_client).delivered
      ≤ 1)
    × (responses (1 ∷ []) (step json (end_of_stream eof) (steps json a_call new_client)).delivered
        ≡ calls
            (1 ∷ [])
            (steps json a_call new_client).pending
            (steps json a_call new_client).delivered)
    × ((step json (end_of_stream eof) (steps json a_call new_client)).pending ≡ [])
unfolding steps
steps-responses_example = steps-responses json a_call (1 ∷ []) eof apart (omega arith) refl
