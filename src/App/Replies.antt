-- ===== src/App/Replies.antt =====
-- `sendReplyWithFiles` and `systemPrompt` of app.go.
use mathlib.Core.List.{reverse}
use opencrow.Prelude.{
  ◌==◌, Bool, true, false, List, [], ◌∷◌, ◌++◌, Option, none, some, if◌then◌else◌,
}
use opencrow.Prelude.Text.{Text, codes, is_empty, newline}
use opencrow.Outbox.{put}
use opencrow.Worker.State.{send_in_reply, send_file, emit}
use opencrow.App.Files.{extract_send_files}
use opencrow.App.Messages.{Go, AppState, on_world}

-- `SendFile` for each path, and the text about those that fail.
abbrev pub next_file_error : List (Option Text) → Option Text
next_file_error [] = none
next_file_error (e ∷ es) = e

abbrev pub later_file_errors : List (Option Text) → List (Option Text)
later_file_errors [] = []
later_file_errors (e ∷ es) = es

abbrev pub failure_text : Go → Text → Option Text → Text
failure_text go path none = []
failure_text go path (some e) =
    codes "\n\n(failed to send file " ++ (go.base path ++ (codes ": " ++ (e ++ codes ")")))

unfoldable pub send_files : Go → Text → List Text → AppState → Text × AppState
send_files go conv [] s = ([], s)
send_files go conv (path ∷ paths) s =
    let s' =
      on_world (emit (send_file conv path))
        (record s { file_errors = later_file_errors s.file_errors }) in
    let (errors, s'') = send_files go conv paths s' in
    (failure_text go path (next_file_error s.file_errors) ++ errors, s'')

abbrev pub next_id : List Text → Text
next_id [] = []
next_id (id ∷ ids) = id

abbrev pub later_ids : List Text → List Text
later_ids [] = []
later_ids (id ∷ ids) = ids

-- `SendMessage`, and the message on record under the id that it gets.
unfoldable pub send_and_record : Text → Text → Text → AppState → AppState
send_and_record conv text reply_to s = record s {
  world =
      emit (send_in_reply conv text reply_to)
        (record s.world { db = put conv (next_id s.sent_ids) text s.world.db });
  sent_ids = later_ids s.sent_ids;
}

abbrev pub send_if : Bool → Text → Text → Text → AppState → AppState
send_if true conv text reply_to s = s
send_if false conv text reply_to s = send_and_record conv text reply_to s

unfoldable pub send_reply_with_files : Go → Text → Text → Text → AppState → AppState
unfolding send_files
send_reply_with_files go conv reply reply_to s =
    let (clean, paths) = extract_send_files reply in
    let (errors, s') = send_files go conv paths s in
    send_if (is_empty (clean ++ errors)) conv (clean ++ errors) reply_to s'

unfoldable pub skip_newlines : Text → Text
skip_newlines [] = []
skip_newlines (ch ∷ t) = let rest = skip_newlines t in if ch == newline then rest else ch ∷ t

-- `systemPrompt`, given what the backend adds.
unfoldable pub system_prompt : Text → Text → Text
system_prompt base_prompt extra =
    if is_empty extra
    then base_prompt
    else reverse (skip_newlines (reverse base_prompt)) ++ newline ∷ newline ∷ extra
