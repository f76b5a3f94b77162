-- ===== src/Signal/Rpc.antt =====
-- signal/rpc.go: the calls that wait for a response of signal-cli, and the responses.
--
-- `newJSONRPCClient` and the goroutines are one sequence of steps: a call begins or gives up, a line
-- arrives, the stream ends. The number of a call stands for its id in decimal.
use opencrow.Prelude.{
  ℕ, ◌+◌, ◌%◌, ◌^◌, Bool, true, false, not, ◌&&◌, List, [], ◌∷◌, ◌++◌, Option, none, some,
  if◌then◌else◌,
}
use opencrow.Prelude.Text.{Text, codes, text_eq, is_empty}
use opencrow.Prelude.Strings.{trim_space}
use opencrow.Prelude.Fallible.{Fallible, value, error}

pub record RpcError : Type 0 where
  pub code : Text
  pub message : Text

pub record RpcResponseEnvelope : Type 0 where
  pub method : Text
  pub params : Text
  pub id : Text  -- as it was received
  pub result : Text
  pub error : Option RpcError

pub record RpcNotification : Type 0 where
  pub method : Text
  pub params : Text

-- What comes through the channel of a call.
pub data RpcResponse : Type 0 where
  answer : Text → Option RpcError → RpcResponse
  broken : Text → RpcResponse

-- `json.Unmarshal`, and `strconv.FormatUint`.
pub record Json : Type 0 where
  pub envelope : Text → Option RpcResponseEnvelope
  pub string : Text → Option Text
  pub number : Text → Option Text
  pub format_uint : ℕ → Text

pub record Request : Type 0 where
  pub id : Text
  pub method : Text

-- `pending` are the ids that the map has; `delivered` is what was sent on their channels.
pub record JsonRpcClient : Type 0 where
  pub next_id : ℕ
  pub pending : List Text
  pub requests : List Request
  pub delivered : List (Text × RpcResponse)
  pub notifications : List RpcNotification
  pub read_error : Option Text
  pub done : Bool

abbrev pub new_client : JsonRpcClient
new_client = record {
  next_id = 0;
  pending = [];
  requests = [];
  delivered = [];
  notifications = [];
  read_error = none;
  done = false;
}

unfoldable pub is_pending : Text → List Text → Bool
is_pending id [] = false
is_pending id (x ∷ xs) = if text_eq x id then true else is_pending id xs

-- delete(c.pending, id)
unfoldable pub without_id : Text → List Text → List Text
without_id id [] = []
without_id id (x ∷ xs) = let rest = without_id id xs in if text_eq x id then rest else x ∷ rest

unfoldable pub remove_pending : Text → JsonRpcClient → JsonRpcClient
unfolding without_id
remove_pending id c = record c { pending = without_id id c.pending }

abbrev pub delivered_to_all : RpcResponse → List Text → List (Text × RpcResponse)
delivered_to_all r [] = []
delivered_to_all r (id ∷ ids) = (id, r) ∷ delivered_to_all r ids

unfoldable pub fail_pending : Text → JsonRpcClient → JsonRpcClient
fail_pending e c = record c {
  pending = [];
  delivered = c.delivered ++ delivered_to_all (broken e) c.pending;
}

abbrev pub or_number : Option Text → Option Text → Text
or_number (some str) num = str
or_number none (some num) = num
or_number none none = []

abbrev pub failure_of : RpcError → Text
failure_of e = codes "json-rpc error " ++ (e.code ++ (codes ": " ++ e.message))

-- How `Call` reads the response, which it decodes into `out` where it wants a result.
abbrev pub has_result : Text → Bool
has_result result = not (is_empty result) && not (text_eq result (codes "null"))

abbrev pub decoded : {A : Type 0} → (Text → Fallible A) → Text → Fallible (Option A)
decoded out result = elim (out result) [
  | value a ↦ value (some a)
  | error e ↦ error (codes "decoding json-rpc response: " ++ e)
]

unfoldable pub call_result :
    {A : Type 0} → Option (Text → Fallible A) → RpcResponse → Fallible (Option A)
call_result out (broken e) = error e
call_result out (answer result (some e)) = error (failure_of e)
call_result none (answer result none) = value none
call_result (some out) (answer result none) =
    if has_result result then decoded out result else value none

unfoldable pub deliver : Text → RpcResponse → JsonRpcClient → JsonRpcClient
unfolding without_id is_pending
deliver id r c =
    if is_pending id c.pending
    then record c { pending = without_id id c.pending; delivered = c.delivered ++ (id, r) ∷ [] }
    else c

abbrev pub respond : Text → RpcResponseEnvelope → JsonRpcClient → JsonRpcClient
respond id msg c = if is_empty id then c else deliver id (answer msg.result msg.error) c

pub data Step : Type 0 where
  call : Text → Bool → Step
  give_up : Text → Step  -- the context of the call with this id ends
  arrives : Text → Step
  end_of_stream : Text → Step

module _ (json : Json) where
  unfoldable pub normalize_json_rpc_id : Text → Text
  normalize_json_rpc_id raw =
      if is_empty raw then [] else or_number (json.string raw) (json.number raw)

  -- `Call` up to the wait: the id, and whether the request was written.
  unfoldable pub begin_call : Text → Bool → JsonRpcClient → JsonRpcClient
  unfolding remove_pending without_id
  begin_call method written c =
      let n = (c.next_id + 1) % 2 ^ 64 in
      let id = json.format_uint n in
      let c' = record c { next_id = n; pending = id ∷ without_id id c.pending } in
      if written
      then record c' { requests = c.requests ++ record { id = id; method = method } ∷ [] }
      else remove_pending id c'

  abbrev pub on_envelope : Option RpcResponseEnvelope → JsonRpcClient → JsonRpcClient
  on_envelope none c = c
  on_envelope (some msg) c =
      if not (is_empty msg.method) && is_empty msg.id
      then record c {
        notifications = c.notifications ++ record { method = msg.method; params = msg.params } ∷ [];
      }
      else respond (normalize_json_rpc_id msg.id) msg c

  -- A line of the stream, and the end of the stream, in `readLoop`.
  unfoldable pub on_line : Text → JsonRpcClient → JsonRpcClient
  unfolding normalize_json_rpc_id deliver
  on_line line c =
      let line' = trim_space line in
      if is_empty line' then c else on_envelope (json.envelope line') c

  unfoldable pub on_end : Text → JsonRpcClient → JsonRpcClient
  unfolding fail_pending
  on_end e c = record (fail_pending (codes "json-rpc read loop ended: " ++ e) c) {
    read_error = some e;
    done = true;
  }

  unfoldable pub step : Step → JsonRpcClient → JsonRpcClient
  unfolding begin_call on_line on_end remove_pending
  step (call method written) c = begin_call method written c
  step (give_up id) c = remove_pending id c
  step (arrives text) c = if c.done then c else on_line text c
  step (end_of_stream e) c = if c.done then c else on_end e c

  unfoldable pub steps : List Step → JsonRpcClient → JsonRpcClient
  unfolding step
  steps [] c = c
  steps (s ∷ ss) c = steps ss (step s c)
