-- ===== src/App/Messages.antt =====
-- `HandleMessage` of app.go with the commands and the prompt.
use opencrow.Prelude.{ℕ, Bool, true, false, List, [], ◌∷◌, ◌++◌, Option, if◌then◌else◌, length}
use opencrow.Prelude.Text.{Text, codes, text_eq, is_empty, newline}
use opencrow.Prelude.Strings.{trim_space}
use opencrow.Conversation.{is_nil}
use opencrow.Database.{Source, DbError, failed, Db, Result, ok, err}
use opencrow.Inbox.{enqueue, priority_user}
use opencrow.Outbox.{put, get}
use opencrow.Worker.State.{
  PiError, canceled, deadline_exceeded, other, CompactOutcome, compacted, no_active_session,
  compact_failed, send_message, reset_conversation, World, emit, notify, abort, is_active, restart,
  set_room_id, CompactStart, refused_inactive, refused_in_progress, refused_enqueue, waiting,
  compact_start,
}

-- What the code calls of the standard library: `strconv.Quote`, decimals, `filepath.Base`, and the
-- texts of errors.
pub record Go : Type 0 where
  pub quote : Text → Text
  pub decimal : ℕ → Text
  pub base : Text → Text
  pub database_error : DbError → Text  -- the text of an error of `Enqueue`

pub record Message : Type 0 where
  pub conversation_id : Text
  pub sender_id : Text
  pub text : Text
  pub message_id : Text
  pub reply_to_id : Text

pub record AppState : Type 0 where
  pub world : World
  pub skills : List Text
  pub sent_ids : List Text  -- what `SendMessage` returns
  pub file_errors : List (Option Text)  -- what `SendFile` returns
  pub compactions : List CompactOutcome  -- what a caller of `Compact` waits for

abbrev pub on_world : (World → World) → AppState → AppState
on_world f s = record s { world = f s.world }

-- A message of the app itself: the id that it gets is not used.
abbrev pub answer : Message → Text → AppState → AppState
answer msg text = on_world (emit (send_message msg.conversation_id text))

unfoldable pub help_text : Text
help_text =
    codes "Available commands:\n"
    ++ (codes "  !help    — Show this help message\n"
        ++ (codes "  !restart — Kill the current session and start fresh\n"
            ++ (codes "  !stop    — Abort the currently running agent turn\n"
                ++ (codes "  !compact — Compact conversation context to reduce token usage\n"
                    ++ codes "  !skills  — List loaded skills"))))

unfoldable pub handle_help : Message → AppState → AppState
handle_help msg s = answer msg help_text s

unfoldable pub handle_restart : Message → AppState → AppState
handle_restart msg s =
    let s' = on_world (λ w. restart (emit (reset_conversation msg.conversation_id) w)) s in
    answer msg
      (codes "Session restarted. Next message starts a fresh session (previous context discarded).")
      s'

abbrev pub stop_text : Bool → Text
stop_text true = codes "Aborted current operation."
stop_text false = codes "Nothing running to stop."

unfoldable pub handle_stop : Message → AppState → AppState
handle_stop msg s =
    let (aborted, w) = abort s.world in
    if is_active s.world
    then answer msg (stop_text aborted) (record s { world = w })
    else answer msg (codes "No active session.") s

-- What the worker answers the caller that waits.
abbrev pub pi_error_text : PiError → Text
pi_error_text canceled = codes "context canceled"
pi_error_text deadline_exceeded = codes "context deadline exceeded"
pi_error_text (other t) = t

abbrev pub compact_failure : Text → Text
compact_failure e = codes "Compaction failed: " ++ e

unfoldable pub compact_reply : Go → CompactOutcome → Text
compact_reply go (compacted summary tokens_before) =
    codes "Compacted conversation (was "
    ++ (go.decimal tokens_before ++ (codes " tokens).\nSummary: " ++ summary))
compact_reply go no_active_session = compact_failure (codes "no active session")
compact_reply go (compact_failed e) = compact_failure (pi_error_text e)

abbrev pub later_compactions : List CompactOutcome → List CompactOutcome
later_compactions [] = []
later_compactions (o ∷ os) = os

-- `Compact` of the worker, to its end; the caller's context ends where no outcome is left.
abbrev pub compact_text : Go → CompactStart → List CompactOutcome → Text
compact_text go refused_inactive os = compact_failure (codes "no active session")
compact_text go refused_in_progress os = compact_failure (codes "compact already in progress")
compact_text go refused_enqueue os =
    compact_failure (codes "enqueuing compact: " ++ go.database_error failed)
compact_text go waiting [] = compact_failure (codes "compact cancelled: context canceled")
compact_text go waiting (o ∷ os) = compact_reply go o

abbrev pub after_start : CompactStart → List CompactOutcome → List CompactOutcome
after_start waiting os = later_compactions os
after_start _ os = os

unfoldable pub handle_compact : Go → Message → AppState → AppState
handle_compact go msg s =
    let (start, w) = compact_start s.world in
    if is_active s.world
    then answer msg (compact_text go start s.compactions)
        (record s { world = w; compactions = after_start start s.compactions })
    else answer msg (codes "No active session to compact.") s

unfoldable pub skill_lines : Go → List Text → Text
skill_lines go [] = []
skill_lines go (s ∷ ss) = codes "- " ++ (go.base s ++ newline ∷ skill_lines go ss)

unfoldable pub skills_summary : Go → List Text → Text
unfolding skill_lines
skills_summary go skills =
    if is_nil skills
    then codes "No skills loaded."
    else go.decimal (length skills) ++ (codes " skill(s) loaded:\n" ++ skill_lines go skills)

unfoldable pub handle_skills : Go → Message → AppState → AppState
handle_skills go msg s = answer msg (skills_summary go s.skills) s

abbrev pub unavailable : Text
unavailable =
    codes
      "[user replied to a message whose content is unavailable — ask for clarification if their message is unclear]\n"

abbrev pub quoted_text : Go → Text → Text → Text
quoted_text go quoted text =
    if is_empty quoted
    then unavailable ++ text
    else codes "[user replied to message: " ++ (go.quote quoted ++ (codes "]\n" ++ text))

unfoldable pub build_prompt_text : Go → Message → Db → Text × Db
build_prompt_text go msg db =
    let (quoted, db') = get msg.conversation_id msg.reply_to_id db in
    if is_empty msg.reply_to_id then (msg.text, db) else (quoted_text go quoted msg.text, db')

abbrev pub enqueued : Go → Message → Result (Unit {0}) × Db → AppState → AppState
enqueued go msg (ok _, db) s = on_world (λ w. notify priority_user (record w { db = db })) s
enqueued go msg (err e, db) s =
    answer msg (codes "Error: " ++ go.database_error e) (on_world (λ w. record w { db = db }) s)

unfoldable pub handle_prompt : Go → Message → AppState → AppState
unfolding build_prompt_text
handle_prompt go msg s =
    let s' = on_world (set_room_id msg.conversation_id) s in
    let (prompt, db) = build_prompt_text go msg s.world.db in
    enqueued go msg (enqueue priority_user Source.user prompt msg.reply_to_id db) s'

abbrev pub is_command : Message → Text → Bool
is_command msg command = text_eq (trim_space msg.text) command

unfoldable pub dispatch : Go → Message → AppState → AppState
dispatch go msg s =
    if is_command msg (codes "!help")
    then handle_help msg s
    else if is_command msg (codes "!restart")
    then handle_restart msg s
    else if is_command msg (codes "!stop")
    then handle_stop msg s
    else if is_command msg (codes "!compact")
    then handle_compact go msg s
    else if is_command msg (codes "!skills")
    then handle_skills go msg s
    else handle_prompt go msg s

-- The message is on record before anything else.
abbrev pub recorded : Message → World → World
recorded msg w = record w { db = put msg.conversation_id msg.message_id msg.text w.db }

unfoldable pub handle_message : Go → Message → AppState → AppState
unfolding dispatch
handle_message go msg s = dispatch go msg (on_world (recorded msg) s)
