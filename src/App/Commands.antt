-- ===== src/App/Commands.antt =====
-- What `HandleMessage` of app.go does with a message of a user, on every branch.
use opencrow.Prelude.{◌≡◌, true, List, [], ◌∷◌, ◌++◌, select}
use opencrow.Prelude.Text.{Text}
use opencrow.Database.{Source, Inbox}
use opencrow.Inbox.{is_user, priority_user}
use opencrow.Worker.State.{World, Effect, send_message}
use opencrow.App.Quotes.{IsPlain}
use opencrow.App.Answers.{Asks, Says}
use opencrow.App.Messages.{Go, Message, AppState}

abbrev rows : AppState → List Inbox
rows s = s.world.db.inbox

abbrev user_rows : World → List Inbox
user_rows w = select is_user w.db.inbox

-- Either the message waits in the inbox as the work of a user, the worker is woken and nothing is
-- said, or the conversation gets the answer that is due, after anything else that the command does,
-- and there is no new work of a user.
pub data Handled (go : Go) (msg : Message) (s s' : AppState) : Type 0 where
  queued :
      (row : Inbox)
      → row.priority ≡ priority_user
      → row.source ≡ Source.user
      → Asks go msg row.content
      → row.reply_to ≡ msg.reply_to_id
      → IsPlain msg
      → rows s' ≡ rows s ++ row ∷ []
      → s'.world.wake ≡ true
      → s'.world.effects ≡ s.world.effects
      → Handled go msg s s'
  answered :
      (es : List Effect) (text : Text)
      → Says go msg s s' es text
      → s'.world.effects ≡ s.world.effects ++ (es ++ send_message msg.conversation_id text ∷ [])
      → user_rows s'.world ≡ user_rows s.world
      → Handled go msg s s'
