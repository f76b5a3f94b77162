-- ===== src/Pi/Turns.antt =====
-- A whole turn of pi, and what `waitForResult` of pi_rpc.go returns for it.
use opencrow.Prelude.{◌≡◌, Bool, true, false, ◌&&◌, not, List, ◌∷◌, ◌++◌, All, if◌then◌else◌}
use opencrow.Prelude.Text.{Text, codes, text_eq, is_empty}
use opencrow.Pi.Events.{RpcEvent, AssistantResult, Json}
use opencrow.Pi.Process.{
  Tick, arrived, read_failed, stream_closed, process_exited, context_done, window_elapsed,
}
use opencrow.Pi.Result.{ResultWaiter, continues_turn}
use opencrow.Pi.Drains.{IsQuiet, Ends}

-- An event within the grace window that does not rescind the error.
abbrev pub IsSwallowed : Tick → Type 0
IsSwallowed (arrived evt) = continues_turn evt.event_type ≡ false
IsSwallowed (read_failed t) = ⊥
IsSwallowed stream_closed = ⊥
IsSwallowed process_exited = ⊥
IsSwallowed context_done = ⊥
IsSwallowed window_elapsed = ⊥

module _ (json : Json) where
  abbrev pub is_error : AssistantResult → Bool
  is_error last = text_eq last.stop_reason (codes "error") && not (is_empty last.error_message)

  -- What the user gets of an error that stands: the text of the attempt, or else the error with the
  -- hint of `finalErrorHint`.
  abbrev pub error_reply : AssistantResult → Text
  error_reply last =
      if is_empty last.text
      then codes "Request failed: "
        ++ (last.error_message
            ++ codes "\n\nTry `!compact` to shrink the context, or `!restart` for a clean session.")
      else last.text

  -- What pi does in a turn that follows failed attempts, and the text that it comes to: an answer;
  -- an error that pi retries, or compacts its context for, and then goes on; an error that nothing
  -- rescinds within the window.
  pub data Turn : List Tick → Text → Type 0 where
    answered :
        (ts rest : List Tick) (evt : RpcEvent) (last : AssistantResult)
        → All IsQuiet ts
        → Ends json evt last
        → text_eq last.stop_reason (codes "error") ≡ false
        → Turn (ts ++ arrived evt ∷ rest) last.text
    retried :
        (ts us rest : List Tick) (evt next : RpcEvent) (text : Text) (last : AssistantResult)
        → All IsQuiet ts
        → Ends json evt last
        → is_error last ≡ true
        → All IsSwallowed us
        → continues_turn next.event_type ≡ true
        → Turn rest text
        → Turn (ts ++ arrived evt ∷ (us ++ arrived next ∷ rest)) text
    gave_up :
        (ts us rest : List Tick) (evt : RpcEvent) (last : AssistantResult)
        → All IsQuiet ts
        → Ends json evt last
        → is_error last ≡ true
        → All IsSwallowed us
        → Turn (ts ++ arrived evt ∷ (us ++ window_elapsed ∷ rest)) (error_reply last)

  abbrev waiter : Text → Text → Bool → ResultWaiter
  waiter reply final_err streams = record {
    reply = reply;
    final_err = final_err;
    streams = streams;
  }
