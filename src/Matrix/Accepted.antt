-- ===== src/Matrix/Accepted.antt =====
-- The messages that the backend of matrix/backend.go hands on.
use opencrow.Prelude.{◌≡◌, ap, Bool, true, false, not, ◌||◌, ap, List, [], ◌∷◌, All}
use opencrow.Prelude.Text.{Text, text_eq, is_empty}
use opencrow.Prelude.Fallible.{Fallible}
use opencrow.Conversation.{is_allowed}
use opencrow.App.Messages.{Message}
use opencrow.Matrix.Types.{Library}
use opencrow.Matrix.Same.{Same}
use opencrow.Matrix.Admitted.{Admitted}
use opencrow.Matrix.Rooms.{Backend, Event, synced}

-- The answer to a request of the sync that names where the last one ended.
abbrev pub is_resumed : Event → Bool
is_resumed (synced since) = not (is_empty since)
is_resumed _ = false

abbrev pub has_resumed : List Event → Bool
has_resumed [] = false
has_resumed (e ∷ es) = is_resumed e || has_resumed es

module _ (lib : Library) (start : Backend lib) where
  -- The message is from somebody else than the bot, who may write to it.
  abbrev pub IsAccepted : Message → Type 0
  IsAccepted m =
      (text_eq m.sender_id start.user_id ≡ false)
      × (is_allowed start.allowed_users m.sender_id ≡ true)

  -- The configuration is that of the start, what was handed on was accepted, and as long as the sync
  -- is at its start there is nothing, and no room.
  record Keeps (b : Backend lib) : Type 0 where
    user_id : b.user_id ≡ start.user_id
    allowed_users : b.allowed_users ≡ start.allowed_users
    handled : All IsAccepted b.handled
    quiet : b.initial_synced ≡ false → b.handled ≡ []

  -- What the invariant reads of a state.
  record Core : Type 0 where
    bot : Text
    allowed : List Text
    is_synced : Bool
    messages : List Message

  core : Backend lib → Core
  core b = record {
    bot = b.user_id;
    allowed = b.allowed_users;
    is_synced = b.initial_synced;
    messages = b.handled;
  }

  Untouched : Backend lib → Backend lib → Type 0
  Untouched b b' = core b' ≡ core b
