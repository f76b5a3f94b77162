-- ===== src/Worker/Prompt.antt =====
-- One inbox item in worker.go: from its prompt to the reply, an error or a requeue.
use opencrow.Prelude.{
  Bool, true, false, not, ◌&&◌, ◌||◌, List, [], ◌∷◌, ◌++◌, Option, none, some, if◌then◌else◌,
}
use opencrow.Prelude.Text.{Text, codes, is_empty}
use opencrow.Prelude.Strings.{trim_space}
use opencrow.Database.{Source, Inbox}
use opencrow.Inbox.{requeue, is_user}
use opencrow.Heartbeat.{parse_heartbeat_items, build_heartbeat_prompt, should_suppress_reply}
use opencrow.Trigger.{build_trigger_prompt}
use opencrow.Worker.State.{
  PiError, canceled, deadline_exceeded, other, Outcome, replied, errored, Send, CompactOutcome,
  no_active_session, compact_failed, set_typing, send_message, send_reply, start_pi, prompt_pi,
  compact_answer, Config, World, emit, is_alive, arrive_all, stop_pi,
}

unfoldable pub build_prompt : Config → Source → Text → Option Text
build_prompt c Source.user content = some content
build_prompt c Source.trigger content = some (build_trigger_prompt c.trigger_prompt content)
build_prompt c Source.heartbeat content = elim (parse_heartbeat_items c.heartbeat_file) [
  | [] ↦ none
  | it ∷ items ↦ some (build_heartbeat_prompt c.hb_prompt (it ∷ items))
]
build_prompt c Source.compact content = none

-- The id of the atomic, or that of the file, which is then stored.
abbrev pub room_from : Option Text → World → Text × World
room_from none w = ([], w)
room_from (some text) w = (trim_space text, record w { room_id = trim_space text })

unfoldable pub resolve_room_id : Config → World → Text × World
resolve_room_id c w = if is_empty w.room_id then room_from c.room_file w else (w.room_id, w)

-- `StartPi`: `none` in the script is a process that starts.
abbrev pub started : List (Option PiError) → Text → Bool → World → Option PiError × World
started [] room fresh w = (some canceled, w)
started (none ∷ ss) room fresh w =
    (none, emit (start_pi room fresh) (record w { pi = some true; starts = ss }))
started (some e ∷ ss) room fresh w = (some e, record w { starts = ss })

-- The error, if there is one. The mark for a fresh session is cleared before the start.
unfoldable pub ensure_pi : Config → World → Option PiError × World
ensure_pi c w =
    if is_alive w.pi
    then (none, w)
    else let (room, w') = resolve_room_id c (record w { fresh_start = false }) in
      if w'.cancelled then (some canceled, w') else started w'.starts room w.fresh_start w'

abbrev pub after_send : Send → World → World
after_send s w = record w {
  pi = if s.exits then some false else w.pi;
  cancelled = w.cancelled || s.aborted || s.stopped;
  shutdown = w.shutdown || s.stopped;
}

abbrev pub next_send : List Send → World → Outcome × World
next_send [] w = (errored canceled, record w { cancelled = true; shutdown = true })
next_send (s ∷ ss) w = (s.outcome, after_send s (arrive_all s.arrivals (record w { sends = ss })))

unfoldable pub send_and_wait : Text → World → Outcome × World
send_and_wait prompt w =
    if is_alive w.pi
    then next_send w.sends (emit (prompt_pi prompt) w)
    else (errored (other (codes "pi process is not alive")), w)

-- What `sendWithRetry` returns: whether there is a process, and what became of the prompt.
pub record Sent : Type 0 where
  pub has_pi : Bool
  pub outcome : Outcome

abbrev pub attempt : Text → Option PiError × World → Sent × World
attempt prompt (some e, w) = (record { has_pi = false; outcome = errored e }, w)
attempt prompt (none, w) =
    let (o, w') = send_and_wait prompt w in (record { has_pi = true; outcome = o }, w')

abbrev pub is_replied : Outcome → Bool
is_replied (replied reply) = true
is_replied (errored e) = false

-- Once more, after a crash, with a fresh process.
unfoldable pub send_with_retry : Config → Text → World → Sent × World
send_with_retry c prompt w =
    let (sent, w') = attempt prompt (ensure_pi c w) in
    if is_replied sent.outcome || not sent.has_pi || w'.cancelled
    then (sent, w')
    else attempt prompt (ensure_pi c (stop_pi w'))

abbrev pub is_context_error : PiError → Bool
is_context_error canceled = true
is_context_error deadline_exceeded = true
is_context_error (other t) = false

unfoldable pub was_preempted : PiError → World → Bool
was_preempted e w = is_context_error e || w.cancelled

abbrev pub requeue_item : Inbox → World → World
requeue_item item w = record w { db = (requeue item w.db).1 }

-- Whether `drainOnce` is to stop. Nothing is asked for a heartbeat.
unfoldable pub requeue_preempted : Inbox → World → Bool × World
requeue_preempted item w = elim item.source [
  | Source.heartbeat ↦ (true, w)
  | _ ↦ (true, requeue_item item w)
]

unfoldable pub handle_no_room_id : Inbox → World → Bool × World
handle_no_room_id item w = elim item.source [
  | Source.trigger ↦ (true, requeue_item item w)
  | _ ↦ (false, w)
]

abbrev pub error_text : PiError → Text
error_text canceled = codes "Error: context canceled"
error_text deadline_exceeded = codes "Error: context deadline exceeded"
error_text (other t) = codes "Error: " ++ t

unfoldable pub handle_pi_error : Inbox → Text → PiError → Bool → World → Bool × World
handle_pi_error item conv e kill w =
    if was_preempted e w
    then requeue_preempted item w
    else let w' = if kill then stop_pi w else w in
      (false, if is_user item then emit (send_message conv (error_text e)) w' else w')

abbrev pub summary_prompt : Text
summary_prompt =
    codes
      "You just completed a task but your response contained no text for the user. Please briefly summarize what you did or respond to the user's message."

abbrev pub no_summary : Text
no_summary = codes "(I completed some actions but failed to generate a summary.)"

abbrev pub or_else : Text → Text → Text
or_else [] other_text = other_text
or_else (c ∷ s) other_text = c ∷ s

abbrev pub summary_of : Outcome → Text
summary_of (replied reply) = or_else reply (codes "(empty response)")
summary_of (errored e) = no_summary

unfoldable pub retry_empty_response : World → Text × World
retry_empty_response w = let (o, w') = send_and_wait summary_prompt w in (summary_of o, w')

abbrev pub with_timing : Option Text → Text → Text
with_timing none reply = reply
with_timing (some t) reply = reply ++ t

-- A user's message that pi has nothing to say to is asked about once more.
unfoldable pub reply_or_summary : Inbox → Text → World → Text × World
reply_or_summary item reply w =
    if is_user item && is_empty reply then retry_empty_response w else (reply, w)

unfoldable pub send_text : Config → Inbox → Text → Text → World → World
send_text c item conv reply w =
    if should_suppress_reply reply item.source
    then w
    else emit (send_reply conv (with_timing c.timing reply) item.reply_to) w

-- What happens to a reply of pi; the loop goes on.
unfoldable pub deliver : Config → Inbox → Text → Text → World → Bool × World
deliver c item conv reply w =
    let (reply', w') = reply_or_summary item reply w in (false, send_text c item conv reply' w')

abbrev pub settle : Config → Inbox → Text → Bool → Outcome → World → Bool × World
settle c item conv has_pi (replied reply) w = deliver c item conv reply w
settle c item conv has_pi (errored e) w = handle_pi_error item conv e has_pi w

-- The typing indicator is on from before the prompt until after all else.
abbrev pub typing_off : Text → Bool × World → Bool × World
typing_off conv (stop, w) = (stop, emit (set_typing conv false) w)

unfoldable pub prompt_room : Config → Inbox → Text → Text → World → Bool × World
prompt_room c item prompt conv w =
    if is_empty conv
    then handle_no_room_id item w
    else let (sent, w') = send_with_retry c prompt (emit (set_typing conv true) w) in
      typing_off conv (settle c item conv sent.has_pi sent.outcome w')

abbrev pub prompt_if : Config → Inbox → Option Text → World → Bool × World
prompt_if c item none w = (false, w)
prompt_if c item (some prompt) w =
    let (conv, w') = resolve_room_id c w in prompt_room c item prompt conv w'

unfoldable pub process_prompt : Config → Inbox → World → Bool × World
process_prompt c item w = prompt_if c item (build_prompt c item.source item.content) w

abbrev pub compact_result : List CompactOutcome → World → World
compact_result [] w = emit (compact_answer (compact_failed canceled)) w
compact_result (o ∷ os) w = emit (compact_answer o) (record w { compacts = os })

unfoldable pub process_compact : World → World
process_compact w =
    let w' = record w { compact_pending = false } in
    if not w.compact_pending
    then w'
    else if is_alive w.pi
    then compact_result w.compacts w'
    else emit (compact_answer no_active_session) w'

-- The item's own context begins as that of `Run`.
unfoldable pub begin_item : Inbox → World → World
begin_item item w = record w { current_priority = some item.priority; cancelled = w.shutdown }

unfoldable pub end_item : World → World
end_item w = record w { current_priority = none }

abbrev pub process_source : Config → Source → Inbox → World → Bool × World
process_source c Source.compact item w = (false, process_compact w)
process_source c _ item w = process_prompt c item w

unfoldable pub process_item : Config → Inbox → World → Bool × World
process_item c item w =
    let (stop, w') = process_source c item.source item (begin_item item w) in (stop, end_item w')
