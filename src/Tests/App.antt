-- ===== src/Tests/App.antt =====
-- The chat commands, replies and files at concrete messages.
use opencrow.Prelude.{List, ◌≡◌, refl, [], ◌∷◌, ◌++◌, arith}
use opencrow.Prelude.Text.{codes, text_eq, newline}
use opencrow.Prelude.Strings.{trim_space}
use opencrow.Outbox.{find_text}
use opencrow.Outbox.Recent.{put_all}
use opencrow.App.Files.{extract_send_files, skip_blanks}
use opencrow.App.Messages.{Go, Message, AppState, handle_message, on_world, quoted_text}
use opencrow.App.Replies.{send_and_record}
use opencrow.App.Quotes.{reply-quoted, HasQueued, up}
use opencrow.App.Extraction.{Piece, words, file, rendered, extract_send_files-rendered}
use opencrow.Tests.Data.{three_rows, world_with}

abbrev go : Go
go = record {
  quote = λ t. 34 ∷ (t ++ 34 ∷ []);
  decimal = λ n. 48 ∷ [];
  base = λ t. t;
  database_error = λ e. codes "database is locked";
}

abbrev app : AppState
app = record {
  world = world_with three_rows [];
  skills = [];
  sent_ids = codes "m7" ∷ [];
  file_errors = [];
  compactions = [];
}

abbrev question : Message
question = record {
  conversation_id = codes "room";
  sender_id = codes "alice";
  text = codes "why?";
  message_id = codes "m8";
  reply_to_id = codes "m7";
}

abbrev stop : Message
stop = record question { text = codes " !stop"; reply_to_id = [] }

extract_send_files_test :
    extract_send_files (codes "see <sendfile> /tmp/a b.png\n</sendfile> <sendfile></sendfile>!")
    ≡ (codes "see  !", codes "/tmp/a b.png" ∷ [])
unfolding extract_send_files trim_space
extract_send_files_test = refl

newline_test :
    extract_send_files (codes "<sendfile>a\nb</sendfile>") ≡ (codes "<sendfile>a\nb</sendfile>", [])
unfolding extract_send_files trim_space
newline_test = refl

abbrev pieces : List Piece
pieces = words (codes "Here: ") ∷ file (codes "/tmp/a b.png") ∷ words (newline ∷ []) ∷ []

extract_send_files-rendered_example :
    extract_send_files (rendered pieces)
    ≡ (trim_space (codes "Here: \n"), codes "/tmp/a b.png" ∷ [])
unfolding trim_space skip_blanks
extract_send_files-rendered_example =
    extract_send_files-rendered pieces (refl, ((refl, refl, refl, refl, refl, refl), (refl, tt)))

reply-quoted_example :
    HasQueued question
      (quoted_text go (codes "Because.") (codes "why?"))
      three_rows
      (handle_message go question (
        on_world
          (λ w. record w { db = put_all [] w.db })
          (send_and_record (codes "room") (codes "Because.") [] (up app)))).world.db
unfolding text_eq trim_space find_text
reply-quoted_example =
    reply-quoted go question (codes "Because.") [] [] app refl refl refl (refl, tt) (omega arith)
      (refl, refl, refl, refl, refl)
