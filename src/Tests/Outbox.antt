-- ===== src/Tests/Outbox.antt =====
-- The outbox at a concrete conversation.
use opencrow.Prelude.{◌≡◌, refl, some, if◌then◌else◌}
use opencrow.Prelude.Text.{codes, text_eq}
use opencrow.Database.{healthy}
use opencrow.Outbox.{put, get, upsert_row, find_text, max_outbox_per_conversation}
use opencrow.Outbox.Window.{messages, newest, messages-put}
use opencrow.Outbox.Replies.{get-put}
use opencrow.Tests.Data.{three_rows, three_rows-IsBounded}

find_text_test : find_text (codes "room") (codes "m1") three_rows.sent_messages ≡ some (codes "hi")
unfolding find_text text_eq
find_text_test = refl

messages-put_example :
    messages
      (codes "room")
      (put (codes "room") (codes "m2") (codes "yes") (healthy three_rows)).sent_messages
    ≡ (if text_eq (codes "room") (codes "room")
        then newest max_outbox_per_conversation (
            upsert_row
              (codes "room")
              (codes "m2")
              (codes "yes")
              (messages (codes "room") three_rows.sent_messages))
        else messages (codes "room") three_rows.sent_messages)
messages-put_example =
    messages-put (codes "room") (codes "m2") (codes "yes") (codes "room") three_rows refl

get-put_example :
    (get
      (codes "room")
      (codes "m1")
      (put (codes "room") (codes "m1") (codes "edited") (healthy three_rows))).0
    ≡ codes "edited"
get-put_example =
    get-put (codes "room") (codes "m1") (codes "edited") three_rows refl three_rows-IsBounded
