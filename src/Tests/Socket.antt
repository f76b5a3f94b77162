-- ===== src/Tests/Socket.antt =====
-- The socket backend with one client, before and after a restart.
use opencrow.Prelude.{ℕ, ◌≡◌, refl, List, [], ◌∷◌, ◌++◌, ◌+◌, true, false, arith}
use opencrow.Prelude.Text.{Text, codes}
use opencrow.Database.{healthy}
use opencrow.Outbox.{put, get}
use opencrow.Socket.{
  Backend, Step, connect, command, message_out, push_waiting, conversation_id, send_message, steps,
}
use opencrow.Socket.Wire.{Command, CmdName}
use opencrow.Socket.Ids.{ids_of, waiting_ids, count, first_ids, steps-ids, get-put-send_message}
use opencrow.Tests.Data.{three_rows, three_rows-IsBounded}

abbrev new : Backend
new = record {
  name = codes "OpenCrow";
  conns = [];
  msg_seq = 0;
  clock = 5 ∷ [];
  taken = [];
  waiting = [];
  pushed = [];
  handled = [];
}

-- A number in place of its decimal.
abbrev digits : ℕ → Text
digits n = n ∷ []

abbrev hello : Command
hello = record {
  cmd = CmdName.send;
  text = codes "hello";
  reply_to = [];
  path = [];
  message_type = [];
}

abbrev chat : List Step
chat =
    connect 7 (false ∷ true ∷ [])
    ∷ command hello 7
    ∷ message_out (codes "Hi.") []
    ∷ push_waiting 1
    ∷ push_waiting 0
    ∷ []

gone_test : (steps digits chat new).conns ≡ []
unfolding steps
gone_test = refl

-- The message that took its id last is pushed first.
order_test :
    ids_of (steps digits chat new).pushed
    ≡ (codes "local-" ++ digits 2) ∷ (codes "local-" ++ digits 1) ∷ []
unfolding steps
order_test = refl

steps-ids_example :
    ((steps digits chat new).taken ≡ first_ids digits (steps digits chat new).msg_seq)
    × ((id : Text)
        → count id (ids_of (steps digits chat new).pushed)
            + count id (waiting_ids (steps digits chat new).waiting)
          ≡ count id (steps digits chat new).taken)
steps-ids_example = steps-ids digits chat new (refl, refl, refl, refl) (omega arith)

get-put-send_message_example :
    (get conversation_id (send_message digits (codes "Before.") [] (steps digits chat new)).0 (
      put conversation_id
        (send_message digits (codes "After.") [] (steps digits chat new)).0
        (codes "After.")
        (healthy three_rows))).0
    ≡ codes "After."
get-put-send_message_example =
    get-put-send_message digits chat chat new new (codes "Before.") [] (codes "After.") []
      three_rows (refl, refl, refl, refl) (refl, refl, refl, refl) (omega arith) (omega arith) refl
      three_rows-IsBounded
