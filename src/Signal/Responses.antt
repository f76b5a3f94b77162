-- ===== src/Signal/Responses.antt =====
-- Which responses the calls of signal/rpc.go get.
use opencrow.Prelude.{
  ℕ, ◌+◌, ◌%◌, ◌^◌, ◌≤◌, ◌<◌, ◌≡◌, refl, inl, inr, Bool, false, not, ◌&&◌, List, [], ◌∷◌, ◌++◌,
  Option, none, some, arith, length, if_keeps, Bool-cases,
}
use opencrow.Prelude.Text.{Text, codes, text_eq, text_eq_sound, is_empty}
use opencrow.Prelude.Strings.{trim_space}
use opencrow.Signal.Counts.{
  waiting, responses, calls, responses-append, responses-delivered_to_all, waiting-without_id_le,
  calls-taken, calls-begun,
}
use opencrow.Signal.Rpc.{
  RpcResponse, broken, Request, JsonRpcClient, new_client, Json, RpcResponseEnvelope, is_pending,
  without_id, remove_pending, fail_pending, delivered_to_all, begin_call, deliver, on_envelope,
  on_end, Step, call, give_up, arrives, end_of_stream, step, steps, normalize_json_rpc_id,
}

module _ (json : Json) where
  -- The number that the code prints of an id is the number of no other.
  abbrev pub FormatsApart : Type 0
  FormatsApart = (m n : ℕ) → json.format_uint m ≡ json.format_uint n → m ≡ n

  formats_ne :
      (m n : ℕ) → FormatsApart → m < n → text_eq (json.format_uint m) (json.format_uint n) ≡ false
  formats_ne m n apart lt = elim (Bool-cases (text_eq (json.format_uint m) (json.format_uint n))) [
    | inl e ↦ absurd (omega (arith, apart m n (text_eq_sound _ _ e)))
    | inr e ↦ e
  ]

  -- A call waits for one response, or has got it; ids from `next_id` on are unused.
  record IsFair (c : JsonRpcClient) : Type 0 where
    once : (id : Text) → waiting id c.pending + responses id c.delivered ≤ 1
    unused :
        (n : ℕ)
        → c.next_id < n
        → waiting (json.format_uint n) c.pending + responses (json.format_uint n) c.delivered ≡ 0

  new_client-IsFair : IsFair new_client
  new_client-IsFair = record { once = λ id. omega arith; unused = λ n lt. omega arith }

  remove_pending-IsFair : (x : Text) (c : JsonRpcClient) → IsFair c → IsFair (remove_pending x c)
  unfolding remove_pending
  remove_pending-IsFair x c f = record {
    once = λ id. omega (arith, f.once id, waiting-without_id_le id x c.pending);
    unused = λ n lt.
        omega (arith, f.unused n lt, waiting-without_id_le (json.format_uint n) x c.pending);
  }

  deliver-IsFair :
      (x : Text) (r : RpcResponse) (c : JsonRpcClient) → IsFair c → IsFair (deliver x r c)
  unfolding deliver
  deliver-IsFair x r c f = elim (Bool-cases (is_pending x c.pending)) [
    | inl e ↦ rw e (record {
      once = λ id. calls-taken 1 x r c.pending c.delivered id e (f.once id);
      unused = λ n lt. omega (
        arith,
        calls-taken 0 x r c.pending c.delivered (json.format_uint n) e
            (omega (arith, f.unused n lt)),
      );
    })
    | inr e ↦ rw e f
  ]

  fail_pending-IsFair : (e : Text) (c : JsonRpcClient) → IsFair c → IsFair (fail_pending e c)
  unfolding fail_pending
  fail_pending-IsFair e c f = record {
    once = λ id. omega (
      arith,
      f.once id,
      responses-append id c.delivered (delivered_to_all (broken e) c.pending),
      responses-delivered_to_all id (broken e) c.pending,
    );
    unused = λ n lt. omega (
      arith,
      f.unused n lt,
      responses-append (json.format_uint n) c.delivered (delivered_to_all (broken e) c.pending),
      responses-delivered_to_all (json.format_uint n) (broken e) c.pending,
    );
  }

  begun-IsFair :
      (c : JsonRpcClient) (n : ℕ)
      → FormatsApart
      → n ≡ c.next_id + 1
      → IsFair c
      → (requests : List Request)
      → IsFair (record c {
        next_id = n;
        pending = json.format_uint n ∷ without_id (json.format_uint n) c.pending;
        requests = requests;
      })
  begun-IsFair c n apart next f requests = record {
    once = λ id.
        calls-begun id (json.format_uint n) c.pending c.delivered (f.once id)
          (f.unused n (omega arith));
    unused = λ k lt.
        let other = formats_ne n k apart (omega arith) in
        rw other (
          omega (
            arith,
            f.unused k (omega arith),
            waiting-without_id_le (json.format_uint k) (json.format_uint n) c.pending,
          ));
  }

  begin_call-IsFair :
      (method : Text) (written : Bool) (c : JsonRpcClient)
      → FormatsApart
      → c.next_id + 1 < 2 ^ 64
      → IsFair c
      → IsFair (begin_call json method written c)
  unfolding begin_call
  begin_call-IsFair method written c apart lt f =
      let n : ℕ = (c.next_id + 1) % 2 ^ 64 in
      let next : n ≡ c.next_id + 1 = omega arith in
      let begun = begun-IsFair c n apart next f in
      if_keeps IsFair written (begun _)
        (remove_pending-IsFair (json.format_uint n) _ (begun c.requests))

  on_envelope-IsFair :
      (msg : Option RpcResponseEnvelope) (c : JsonRpcClient)
      → IsFair c
      → IsFair (on_envelope json msg c)
  on_envelope-IsFair none c f = f
  on_envelope-IsFair (some msg) c f =
      if_keeps IsFair (not (is_empty msg.method) && is_empty msg.id)
        (record { once = f.once; unused = f.unused })
        (if_keeps IsFair (is_empty (normalize_json_rpc_id json msg.id)) f
          (deliver-IsFair (normalize_json_rpc_id json msg.id) _ c f))

  on_end-IsFair : (e : Text) (c : JsonRpcClient) → IsFair c → IsFair (on_end json e c)
  unfolding on_end
  on_end-IsFair e c f =
      let g = fail_pending-IsFair (codes "json-rpc read loop ended: " ++ e) c f in
      record { once = g.once; unused = g.unused }

  step-IsFair :
      (s : Step) (c : JsonRpcClient)
      → FormatsApart
      → c.next_id + 1 < 2 ^ 64
      → IsFair c
      → IsFair (step json s c)
  unfolding step
  step-IsFair (call method written) c apart lt f = begin_call-IsFair method written c apart lt f
  step-IsFair (give_up id) c apart lt f = remove_pending-IsFair id c f
  step-IsFair (arrives text) c apart lt f =
      if_keeps IsFair c.done f
        (if_keeps IsFair (is_empty (trim_space text)) f (on_envelope-IsFair _ c f))
  step-IsFair (end_of_stream e) c apart lt f = if_keeps IsFair c.done f (on_end-IsFair e c f)

  on_envelope-next_id :
      (msg : Option RpcResponseEnvelope) (c : JsonRpcClient)
      → (on_envelope json msg c).next_id ≡ c.next_id
  unfolding deliver
  on_envelope-next_id none c = refl
  on_envelope-next_id (some msg) c =
      let same = λ (d : JsonRpcClient). d.next_id ≡ c.next_id in
      if_keeps same (not (is_empty msg.method) && is_empty msg.id) refl (
        if_keeps same (is_empty (normalize_json_rpc_id json msg.id)) refl
          (if_keeps same (is_pending (normalize_json_rpc_id json msg.id) c.pending) refl refl))

  step-next_id : (s : Step) (c : JsonRpcClient) → (step json s c).next_id ≤ c.next_id + 1
  unfolding step
  step-next_id (call method written) c = ground arith
  step-next_id (give_up id) c = omega arith
  step-next_id (arrives text) c =
      ground (arith, on_envelope-next_id (json.envelope (trim_space text)) c)
  step-next_id (end_of_stream e) c = ground arith

  steps-IsFair :
      (ss : List Step) (c : JsonRpcClient)
      → FormatsApart
      → c.next_id + length ss < 2 ^ 64
      → IsFair c
      → IsFair (steps json ss c)
  unfolding steps
  steps-IsFair [] c apart lt f = f
  steps-IsFair (s ∷ ss) c apart lt f =
      steps-IsFair ss (step json s c) apart (omega (arith, step-next_id s c))
        (step-IsFair s c apart (omega arith) f)

  -- Whatever happens, in fewer than 2 ^ 64 steps from the start, if no two numbers print alike: an id
  -- gets at most one response, and none while its call still waits; and if the stream then ends for
  -- the first time, exactly the calls that wait have one more response, and none waits.
  pub steps-responses :
      (ss : List Step) (id e : Text)
      → FormatsApart
      → length ss < 2 ^ 64
      → (steps json ss new_client).done ≡ false
      → (calls id (steps json ss new_client).pending (steps json ss new_client).delivered ≤ 1)
        × (responses id (step json (end_of_stream e) (steps json ss new_client)).delivered
            ≡ calls id (steps json ss new_client).pending (steps json ss new_client).delivered)
        × ((step json (end_of_stream e) (steps json ss new_client)).pending ≡ [])
  unfolding step
  steps-responses ss id e apart lt open_yet =
      let c = steps json ss new_client in
      let fair = steps-IsFair ss new_client apart (omega arith) new_client-IsFair in
      (
        fair.once id,
        rw open_yet (
            let ended = broken (codes "json-rpc read loop ended: " ++ e) in
            omega (
              arith,
              responses-append id c.delivered (delivered_to_all ended c.pending),
              responses-delivered_to_all id ended c.pending,
            )),
        rw open_yet refl,
      )
