-- ===== src/Pi/Progress.antt =====
-- `waitForResult` of pi_rpc.go: what each part of it reads of the script, and when it ends.
use opencrow.Prelude.{
  ℕ, zero, suc, ◌<◌, ◌≡◌, refl, ap, ◌∙◌, Bool, true, false, ◌||◌, List, [], ◌∷◌, Option, none, some,
  exists, arith, length, if_keeps,
}
use opencrow.Prelude.Text.{Text, is_empty}
use opencrow.Pi.Events.{RpcEvent, Json}
use opencrow.Pi.Process.{
  Tick, arrived, read_failed, stream_closed, process_exited, context_done, window_elapsed, Drained,
  finished, waits, stopped, PiProcess, CallError, Command, Verdict, more, done, refused,
  send_command, send_abort, handle_side_effects, auto_respond_extension_ui, abort_once, handled,
  on_event, go_on, drain_events,
}
use opencrow.Pi.Result.{
  ResultWaiter, Returned, returned, failed, continues_turn, grace_drain, handle, after_grace,
  after_drain, wait_rounds, wait_for_result, on_delta,
}

send_command-ticks : (c : Command) (p : PiProcess) → (send_command c p).1.ticks ≡ p.ticks
unfolding send_command
send_command-ticks c p = ground arith

pub abort_once-ticks :
    {S : Type 0} (h : RpcEvent → S × PiProcess → Verdict × S × PiProcess) (aborted : Bool)
    (p : PiProcess)
    → (abort_once h aborted p).ticks ≡ p.ticks
unfolding send_abort
abort_once-ticks h aborted p = ground (arith, send_command-ticks Command.abort p)

pub handle_side_effects-ticks :
    (evt : RpcEvent) (p : PiProcess) → (handle_side_effects evt p).1.ticks ≡ p.ticks
unfolding handle_side_effects auto_respond_extension_ui
handle_side_effects-ticks evt p =
    ground (arith, send_command-ticks (Command.extension_ui_response evt.id) p)

-- The output of pi is over: an error of its reader, its end, or the exit of the process.
abbrev pub closes : Tick → Bool
closes (arrived evt) = false
closes (read_failed t) = true
closes stream_closed = true
closes process_exited = true
closes context_done = false
closes window_elapsed = false

-- The handler leaves the script alone.
abbrev pub KeepsTicks : {S : Type 0} → (RpcEvent → S × PiProcess → Verdict × S × PiProcess) → Type 0
KeepsTicks {S} h = (evt : RpcEvent) (s : S) (p : PiProcess) → (h evt (s, p)).2.ticks ≡ p.ticks

module _ {S : Type 0} (h : RpcEvent → S × PiProcess → Verdict × S × PiProcess)
    (keeps : KeepsTicks h) where
  handled-ticks :
      (evt : RpcEvent) (s : S) (r : Option CallError × PiProcess)
      → (handled h evt s r).2.ticks ≡ r.1.ticks
  handled-ticks evt s (some e, p) = refl
  handled-ticks evt s (none, p) = keeps evt s p

  pub on_event-ticks :
      (evt : RpcEvent) (aborted : Bool) (s : S) (p : PiProcess)
      → (on_event h evt aborted s p).2.ticks ≡ p.ticks
  on_event-ticks evt aborted s p =
      handled-ticks evt s (handle_side_effects evt (abort_once h aborted p))
      ∙ handle_side_effects-ticks evt (abort_once h aborted p)
      ∙ abort_once-ticks h aborted p

  -- A drain that ends with its event has read one, and none after which nothing comes; one that waits
  -- has read all, and there was none of those.
  abbrev Drains : List Tick → Drained × S × PiProcess → Type 0
  Drains ts (finished, s, p) =
      (length p.ticks < length ts) × (exists closes ts ≡ true → exists closes p.ticks ≡ true)
  Drains ts (waits, s, p) = exists closes ts ≡ false
  Drains ts (stopped e, s, p) = Unit

  Drains-suc :
      (t : Tick) (ts : List Tick) (r : Drained × S × PiProcess)
      → closes t ≡ false
      → Drains ts r
      → Drains (t ∷ ts) r
  Drains-suc t ts (finished, s, p) c k = rw c (omega (arith, k.0), k.1)
  Drains-suc t ts (waits, s, p) c k = rw c k
  Drains-suc t ts (stopped e, s, p) c k = tt

  go_on-Drains :
      (evt : RpcEvent) (ts : List Tick) (next : S × PiProcess → Drained × S × PiProcess)
      (v : Verdict × S × PiProcess)
      → v.2.ticks ≡ ts
      → ((q : S × PiProcess) → Drains ts (next q))
      → Drains (arrived evt ∷ ts) (go_on h next v)
  go_on-Drains evt ts next (more, s, p) e k =
      Drains-suc (arrived evt) ts (next (s, p)) refl (k (s, p))
  go_on-Drains evt ts next (done, s, p) e k =
      (omega (arith, ap (length {0}) e), λ c. ap (exists closes) e ∙ c)
  go_on-Drains evt ts next (refused x, s, p) e k = tt

  drain_events-Drains :
      (ts : List Tick) (aborted : Bool) (s : S) (p : PiProcess)
      → Drains ts (drain_events h aborted ts s p)
  unfolding drain_events
  drain_events-Drains [] aborted s p = refl
  drain_events-Drains (arrived evt ∷ ts) aborted s p =
      go_on-Drains evt ts _ (on_event h evt aborted s (record p { ticks = ts }))
        (on_event-ticks evt aborted s (record p { ticks = ts }))
        (λ (q : S × PiProcess). drain_events-Drains ts (aborted || p.cancelled) q.0 q.1)
  drain_events-Drains (read_failed t ∷ ts) aborted s p = tt
  drain_events-Drains (stream_closed ∷ ts) aborted s p = tt
  drain_events-Drains (process_exited ∷ ts) aborted s p = tt
  drain_events-Drains (context_done ∷ ts) aborted s p =
      Drains-suc context_done ts (drain_events h aborted ts s _) refl
        (drain_events-Drains ts aborted s _)
  drain_events-Drains (window_elapsed ∷ ts) aborted s p =
      Drains-suc window_elapsed ts (drain_events h aborted ts s _) refl
        (drain_events-Drains ts aborted s _)

on_delta-ticks :
    (w : ResultWaiter) (delta : Text) (p : PiProcess) → (on_delta w delta p).ticks ≡ p.ticks
on_delta-ticks w delta p = ground arith

pub handle-KeepsTicks : (json : Json) → KeepsTicks (handle json)
unfolding handle
handle-KeepsTicks json evt w p = ground arith

-- A grace window that an event rescinds has read up to that event, and only events.
abbrev Rescinds : List Tick → Bool × ResultWaiter × PiProcess → Type 0
Rescinds ts (true, w, p) =
    (length p.ticks < length ts) × (exists closes ts ≡ true → exists closes p.ticks ≡ true)
Rescinds ts (false, w, p) = Unit

Rescinds-suc :
    (evt : RpcEvent) (ts : List Tick) (r : Bool × ResultWaiter × PiProcess)
    → Rescinds ts r
    → Rescinds (arrived evt ∷ ts) r
Rescinds-suc evt ts (true, w, p) k = (omega (arith, k.0), k.1)
Rescinds-suc evt ts (false, w, p) k = tt

grace_drain-Rescinds :
    (ts : List Tick) (w : ResultWaiter) (p : PiProcess) → Rescinds ts (grace_drain ts w p)
unfolding grace_drain
grace_drain-Rescinds [] w p = tt
grace_drain-Rescinds (arrived evt ∷ ts) w p =
    if_keeps (Rescinds (arrived evt ∷ ts)) (continues_turn evt.event_type) (omega arith, λ c. c)
      (Rescinds-suc evt ts (grace_drain ts w (record p { ticks = ts }))
        (grace_drain-Rescinds ts w (record p { ticks = ts })))
grace_drain-Rescinds (read_failed t ∷ ts) w p = tt
grace_drain-Rescinds (stream_closed ∷ ts) w p = tt
grace_drain-Rescinds (process_exited ∷ ts) w p = tt
grace_drain-Rescinds (context_done ∷ ts) w p = tt
grace_drain-Rescinds (window_elapsed ∷ ts) w p = tt

-- The call came to an end.
pub data IsEnded {A : Type 0} : Returned A → Type 0 where
  replied : (a : A) → IsEnded (returned a)
  errored : (e : CallError) → IsEnded (failed e)

module _ (json : Json) where
  -- What the rounds to come are to show.
  abbrev Goes : ℕ → (ResultWaiter × PiProcess → Returned Text × PiProcess) → Type 0
  Goes n next =
      (w : ResultWaiter) (p : PiProcess)
      → length p.ticks < n
      → exists closes p.ticks ≡ true
      → IsEnded (next (w, p)).0

  after_grace-IsEnded :
      (n : ℕ) (ts : List Tick) (next : ResultWaiter × PiProcess → Returned Text × PiProcess)
      (r : Bool × ResultWaiter × PiProcess)
      → length ts < n
      → exists closes ts ≡ true
      → Rescinds ts r
      → Goes n next
      → IsEnded (after_grace json next r).0
  after_grace-IsEnded n ts next (true, w, p) lt c d k = k w p (omega (arith, d.0)) (d.1 c)
  after_grace-IsEnded n ts next (false, w, p) lt c d k = replied _

  after_drain-IsEnded :
      (n : ℕ) (ts : List Tick) (next : ResultWaiter × PiProcess → Returned Text × PiProcess)
      (r : Drained × ResultWaiter × PiProcess)
      → length ts < suc n
      → exists closes ts ≡ true
      → Drains (handle json) (handle-KeepsTicks json) ts r
      → Goes n next
      → IsEnded (after_drain json next r).0
  after_drain-IsEnded n ts next (stopped e, w, p) lt c d k = errored _
  after_drain-IsEnded n ts next (waits, w, p) lt c d k = absurd (ground (arith, c, d))
  after_drain-IsEnded n ts next (finished, w, p) lt c d k =
      if_keeps {A = Returned Text × PiProcess} (λ z. IsEnded z.0) (is_empty w.final_err) (replied _)
        (after_grace-IsEnded n p.ticks next (grace_drain p.ticks w p) (omega (arith, d.0)) (d.1 c)
          (grace_drain-Rescinds p.ticks w p) k)

  wait_rounds-IsEnded :
      (fuel : ℕ) (w : ResultWaiter) (p : PiProcess)
      → length p.ticks < fuel
      → exists closes p.ticks ≡ true
      → IsEnded (wait_rounds json fuel w p).0
  unfolding wait_rounds
  wait_rounds-IsEnded zero w p lt c = absurd (omega arith)
  wait_rounds-IsEnded (suc fuel) w p lt c =
      after_drain-IsEnded fuel p.ticks
        (λ (q : ResultWaiter × PiProcess). wait_rounds json fuel q.0 q.1)
        (drain_events (handle json) false p.ticks w p) lt c
        (drain_events-Drains (handle json) (handle-KeepsTicks json) p.ticks false w p)
        (wait_rounds-IsEnded fuel)

  -- If the output of pi is over at some time, with an error of its reader, its end or the exit of the
  -- process, the wait for its result comes to an end, with a reply or an error, whatever else pi writes
  -- before and after and however often it retries: it neither waits for ever nor runs out of fuel.
  pub wait_for_result-IsEnded :
      (streams : Bool) (p : PiProcess)
      → exists closes p.ticks ≡ true
      → IsEnded (wait_for_result json streams p).0
  unfolding wait_for_result
  wait_for_result-IsEnded streams p c =
      wait_rounds-IsEnded (suc (length p.ticks)) _ p (omega arith) c
