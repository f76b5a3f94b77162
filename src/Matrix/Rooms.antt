-- ===== src/Matrix/Rooms.antt =====
-- matrix/backend.go: the events of the rooms, and the room that the bot is in.
--
-- The homeserver is outside: each event comes with what its calls return, `Answers`.
use opencrow.Prelude.{
  ℕ, Bool, true, false, not, Option, none, some, List, [], ◌∷◌, ◌++◌, ltb, if◌then◌else◌,
}
use mathlib.Core.Option
use opencrow.Prelude.Text.{Text, codes, text_eq, is_empty}
use opencrow.Prelude.Fallible.{Fallible, value, error, Done}
use opencrow.Conversation.{ActiveConversation, reset, is_allowed, attachment_text}
use opencrow.App.Messages.{Message}
use opencrow.Matrix.Types.{
  Library, Membership, invite, leave, ban, join, knock, unknown, MsgType, text, image, file, audio,
  video, MessageContent, MessageEvent, MemberEvent,
}
use opencrow.Matrix.Chunks.{Client, send_message}
use opencrow.Matrix.Files
use opencrow.Matrix.Files.{Files, download_attachment}

-- What the calls of one handler return.
pub record Answers : Type 0 where
  pub members : Fallible ℕ  -- the number of joined members
  pub verified : Done  -- `ensureCrossSigning`
  pub download : Files.World

abbrev pub is_handled_type : MsgType → Bool
is_handled_type text = true
is_handled_type image = true
is_handled_type file = true
is_handled_type audio = true
is_handled_type video = true
is_handled_type _ = false

abbrev pub of_handled_type : Option MessageContent → Option MessageContent
of_handled_type none = none
of_handled_type (some msg) = if is_handled_type msg.msg_type then some msg else none

unfoldable pub cross_signing_failed : Text → Text
cross_signing_failed e =
    codes "Cross-signing failed: "
    ++ (e
        ++ (codes "\n\nIf the homeserver requires browser approval, log in as the bot at:\n"
            ++ (codes
                  "https://account.matrix.org/account/?action=org.matrix.cross_signing_reset\n\n"
                ++ codes "Approve the reset, then run `!verify` again.")))

abbrev pub caption_of : MessageContent → Text
caption_of msg = if text_eq msg.body msg.file_name then [] else msg.body

abbrev pub reply_target : Option Text → Text
reply_target none = []
reply_target (some id) = id

-- The joins under way but one of this room, if there is one.
unfoldable pub end_join : Text → List Text → Option (List Text)
end_join room_id [] = none
end_join room_id (r ∷ rs) =
    if text_eq room_id r then some rs else Option.map (λ others. r ∷ others) (end_join room_id rs)

-- What the backend is called with: an event of the sync loop, the end of a sync, a reset of the app.
-- `handleInvite` runs in a goroutine of its own, and holds the lock neither while it joins nor between
-- its check and its write: it is two steps, up to the call of `JoinRoomByID` and from its return on.
pub data Event : Type 0 where
  member : Answers → MemberEvent → Event
  message : Answers → MessageEvent → Event
  join_returned : Text → Done → Event
  synced reset_of : Text → Event

module _ (lib : Library) where
  pub record Backend : Type 0 where
    pub user_id : Text
    pub allowed_users : List Text
    pub session_base_dir : Text
    pub initial_synced : Bool
    pub active_room : ActiveConversation
    pub joining : List Text  -- the rooms that a `handleInvite` waits to have joined
    pub client : Client lib
    pub files : Files
    pub marked_read : List Text
    pub left_rooms : List Text
    pub cleaned : List Text  -- the calls of `onRoomCleanup`
    pub handled : List Message

  -- The callback of `OnSync`.
  unfoldable pub on_sync : Text → Backend → Backend
  on_sync since b = if is_empty since then b else record b { initial_synced = true }

  unfoldable pub reset_conversation : Text → Backend → Backend
  reset_conversation conversation_id b = record b {
    active_room = reset conversation_id b.active_room;
  }

  unfoldable pub cleanup_room : Text → Backend → Backend
  cleanup_room room_id b = record b {
    active_room = reset room_id b.active_room;
    cleaned = b.cleaned ++ room_id ∷ [];
  }

  abbrev pub after_join : Text → Done → Option (List Text) → Backend → Backend
  after_join room_id r none b = b
  after_join room_id (value _) (some rest) b = record b { active_room = room_id; joining = rest }
  after_join room_id (error e) (some rest) b = record b { joining = rest }

  -- `handleInvite` from the return of `JoinRoomByID` on: the room is set, whatever it is by then.
  unfoldable pub finish_invite : Text → Done → Backend → Backend
  unfolding end_join
  finish_invite room_id r b = after_join room_id r (end_join room_id b.joining) b

  -- `handleInvite` up to the call of `JoinRoomByID`.
  unfoldable pub handle_invite : MemberEvent → Backend → Backend
  handle_invite evt b =
      if not (text_eq evt.state_key b.user_id)
      then b
      else if not (is_allowed b.allowed_users evt.sender)
      then b
      else if not (is_empty b.active_room)
      then b
      else record b { joining = b.joining ++ evt.room_id ∷ [] }

  -- The call of `LeaveRoom`, whose error is only logged.
  abbrev pub leave_room : Text → Backend → Backend
  leave_room room_id b = record b { left_rooms = b.left_rooms ++ room_id ∷ [] }

  abbrev pub if_alone : Text → Fallible ℕ → Backend → Backend
  if_alone room_id (error e) b = b
  if_alone room_id (value members) b =
      if ltb 1 members then b else cleanup_room room_id (leave_room room_id b)

  unfoldable pub handle_leave : Answers → MemberEvent → Backend → Backend
  unfolding cleanup_room
  handle_leave answers evt b =
      if text_eq evt.state_key b.user_id
      then cleanup_room evt.room_id b
      else if_alone evt.room_id answers.members b

  abbrev pub on_membership : Answers → MemberEvent → Option Membership → Backend → Backend
  on_membership answers evt none b = b
  on_membership answers evt (some invite) b = handle_invite evt b
  on_membership answers evt (some leave) b = handle_leave answers evt b
  on_membership answers evt (some ban) b = handle_leave answers evt b
  on_membership answers evt (some join) b = b
  on_membership answers evt (some knock) b = b
  on_membership answers evt (some unknown) b = b

  unfoldable pub handle_membership : Answers → MemberEvent → Backend → Backend
  unfolding handle_invite handle_leave
  handle_membership answers evt b =
      if not b.initial_synced then b else on_membership answers evt evt.membership b

  unfoldable pub track_room : Text → Backend → Backend
  track_room room_id b = if is_empty b.active_room then record b { active_room = room_id } else b

  unfoldable pub filter_message : MessageEvent → Backend → Option MessageContent
  filter_message evt b =
      if not b.initial_synced
      then none
      else if text_eq evt.sender b.user_id
      then none
      else if not (is_allowed b.allowed_users evt.sender)
      then none
      else of_handled_type evt.content

  -- A message of the bot itself, not in reply to anything.
  unfoldable pub send : Text → Text → Backend → Backend
  unfolding send_message
  send room_id body b = record b { client = (send_message lib room_id body [] b.client).1 }

  unfoldable pub handle_verify : Text → Done → Backend → Backend
  unfolding send cross_signing_failed
  handle_verify room_id (error e) b = send room_id (cross_signing_failed e) b
  handle_verify room_id (value _) b = send room_id (codes "Cross-signing verified.") b

  abbrev pub downloaded : MessageContent → Text → Fallible Text × Files → Backend → Text × Backend
  downloaded msg room_id (value path, fs) b =
      (attachment_text (caption_of msg) path, record b { files = fs })
  downloaded msg room_id (error e, fs) b =
      ([], send room_id (codes "Failed to download attachment: " ++ e) (record b { files = fs }))

  -- The text for the agent, empty where the download failed.
  unfoldable pub handle_attachment : Answers → MessageContent → Text → Backend → Text × Backend
  unfolding send
  handle_attachment answers msg room_id b =
      downloaded msg room_id
        (download_attachment lib answers.download b.session_base_dir msg b.files) b

  -- The text to hand on, if there is one: an attachment needs one, a message of text need not.
  abbrev pub body_of : Answers → MessageContent → Text → MsgType → Backend → Option Text × Backend
  body_of answers msg room_id text b = (some msg.body, b)
  body_of answers msg room_id _ b =
      let (body, b') = handle_attachment answers msg room_id b in
      (if is_empty body then none else some body, b')

  abbrev pub hand_on : MessageEvent → MessageContent → Option Text × Backend → Backend
  hand_on evt msg (none, b) = b
  hand_on evt msg (some body, b) = record b {
    handled =
        b.handled
        ++ (record {
          conversation_id = evt.room_id;
          sender_id = evt.sender;
          text = body;
          message_id = evt.id;
          reply_to_id = reply_target msg.reply_to;
        })
          ∷ [];
  }

  abbrev pub on_content : Answers → MessageEvent → Option MessageContent → Backend → Backend
  on_content answers evt none b = b
  on_content answers evt (some msg) b =
      let tracked =
        track_room evt.room_id (record b { marked_read = b.marked_read ++ evt.id ∷ [] }) in
      if text_eq msg.body (codes "!verify")
      then handle_verify evt.room_id answers.verified tracked
      else hand_on evt msg (body_of answers msg evt.room_id msg.msg_type tracked)

  unfoldable pub handle_message : Answers → MessageEvent → Backend → Backend
  unfolding filter_message track_room handle_verify handle_attachment
  handle_message answers evt b = on_content answers evt (filter_message evt b) b

  unfoldable pub on_event : Event → Backend → Backend
  unfolding handle_membership handle_message on_sync reset_conversation finish_invite
  on_event (member answers evt) b = handle_membership answers evt b
  on_event (message answers evt) b = handle_message answers evt b
  on_event (join_returned room_id r) b = finish_invite room_id r b
  on_event (synced since) b = on_sync since b
  on_event (reset_of conversation_id) b = reset_conversation conversation_id b

  unfoldable pub on_events : List Event → Backend → Backend
  unfolding on_event
  on_events [] b = b
  on_events (e ∷ es) b = on_events es (on_event e b)
