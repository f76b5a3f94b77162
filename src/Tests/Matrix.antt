-- ===== src/Tests/Matrix.antt =====
-- The matrix backend in one room, with a text of two chunks, a download and a login.
use opencrow.Prelude.{
  ℕ, zero, suc, ◌≡◌, refl, subst, inl, inr, Bool-cases, false, List, [], ◌∷◌, ◌++◌, none, some,
  if◌then◌else◌,
}
use opencrow.Prelude.Text.{Text, codes, text_eq, text_eq_sound, is_empty}
use opencrow.Prelude.Fallible.{value, error}
use opencrow.Matrix.Types.{Library, MessageContent, MessageEvent, MemberEvent, invite, text, image}
use opencrow.Matrix.Chunks.{Client, send_message}
use opencrow.Matrix.Split.{Delivered, send_message-Delivered}
use opencrow.Matrix.Files
use opencrow.Matrix.Files.{download_attachment, attachment_url}
use opencrow.Matrix.Attachments.{Left, download_attachment-Left}
use opencrow.Matrix.Rooms.{
  Answers, Backend, Event, member, message, join_returned, synced, on_event,
}
use opencrow.Matrix.Moves.{Move, rooms, on_event-Move}
use opencrow.Matrix.Login
use opencrow.Matrix.Login.{StoredSession}
use opencrow.Matrix.Session.{StoresCredentials, ReadsBack, restarted, ensure_password_login_restart}

abbrev lib : Library
lib = record {
  Content = Text;
  Uri = Text;
  render_markdown = λ t. t;
  parse_uri = λ t. value t;
  decrypt = λ keys t. value t;
  file_base = λ t. t;
  file_ext = λ t. [];
  path_join = λ s t. s ++ t;
  type_by_extension = λ t. [];
  detect_content_type = λ t. codes "text/plain";
}

-- A text that is too long for one event.
abbrev long : ℕ → Text
long zero = codes "the end"
long (suc n) = b'x' ∷ long n

abbrev client : Client lib
client = record { events = []; answers = value (codes "$1") ∷ error (codes "down") ∷ [] }

send_message-Delivered_example :
    Delivered lib
      (codes "!room")
      (codes "$0")
      []
      (long 30000)
      client
      (send_message lib (codes "!room") (long 30000) (codes "$0") client)
send_message-Delivered_example =
    send_message-Delivered lib (codes "!room") (long 30000) (codes "$0") client

abbrev world : Files.World
world = record {
  made_dir = value tt;
  temp_name = λ dir pattern. value (dir ++ codes "/new");
  closed = value tt;
  response = value (record { status = 200; bytes = codes "png"; broken = none });
  created = value tt;
  status_text = λ n. [];
}

abbrev picture : MessageContent
picture = record {
  msg_type = image;
  body = codes "cat.png";
  file_name = [];
  url = codes "mxc://example.org/1";
  encrypted_file = none;
  reply_to = none;
}

no_files :
    (dir pattern path : Text) → world.temp_name dir pattern ≡ value path → Files.read path [] ≡ none
unfolding Files.read
no_files dir pattern path made = refl

download_attachment-Left_example :
    Left lib world
      (attachment_url picture).1
      []
      (download_attachment lib world (codes "/tmp") picture [])
download_attachment-Left_example =
    download_attachment-Left lib world (codes "/tmp") picture [] no_files

abbrev answers : Answers
answers = record { members = value 1; verified = value tt; download = world }

abbrev backend : Backend lib
backend = record {
  user_id = codes "@bot:example.org";
  allowed_users = codes "@ann:example.org" ∷ [];
  session_base_dir = codes "/tmp";
  initial_synced = false;
  active_room = [];
  joining = [];
  client = client;
  files = [];
  marked_read = [];
  left_rooms = [];
  cleaned = [];
  handled = [];
}

abbrev invitation : MemberEvent
invitation = record {
  room_id = codes "!room";
  sender = codes "@ann:example.org";
  state_key = codes "@bot:example.org";
  membership = some invite;
}

abbrev greeting : MessageEvent
greeting = record {
  id = codes "$5";
  room_id = codes "!room";
  sender = codes "@ann:example.org";
  content = some (record picture { msg_type = text; body = codes "hi" });
}

-- The bot, behind its first sync, begins to join the room.
on_event-Move_example :
    Move lib (on_event lib (synced (codes "s1")) backend) (member answers invitation) (
      rooms lib
        (on_event lib (member answers invitation) (on_event lib (synced (codes "s1")) backend)))
on_event-Move_example =
    on_event-Move lib (member answers invitation) (on_event lib (synced (codes "s1")) backend)

abbrev events : List Event
events =
    message answers greeting
    ∷ synced (codes "s1")
    ∷ member answers invitation
    ∷ join_returned (codes "!room") (value tt)
    ∷ message answers greeting
    ∷ []

-- The file of a session of this device is its token.
abbrev stored : Text → StoredSession
stored token = record { access_token = token; device_id = codes "opencrow" }

-- A homeserver that gives one token.
abbrev server : Login.World
server = record {
  unmarshal = λ t. some (stored t);
  marshal = λ session.
      if text_eq session.device_id (codes "opencrow") then value session.access_token else error [];
  whoami = λ t. value (codes "@bot:example.org");
  login = λ req c. (
    value (stored (codes "tok")),
    record { access_token = codes "tok"; device_id = codes "opencrow" },
  );
  made_dir = value tt;
  written = value tt;
}

abbrev config : Login.Config
config = record { user_id = codes "@bot:example.org"; password = codes "secret"; device_id = [] }

abbrev state : Login.State
state = record {
  client = record { access_token = []; device_id = [] };
  session_file = none;
  logins = [];
}

server-StoresCredentials : StoresCredentials server
server-StoresCredentials req c session h =
    subst
      (λ (x : StoredSession).
        (codes "tok" ≡ x.access_token)
        × (codes "opencrow" ≡ x.device_id)
        × (is_empty x.access_token ≡ false)
        × (is_empty x.device_id ≡ false))
      same (refl, refl, refl, refl)
  where
    same : stored (codes "tok") ≡ session
    same = cc h

server-ReadsBack : ReadsBack server
server-ReadsBack session contents h =
    elim (Bool-cases (text_eq session.device_id (codes "opencrow"))) [
      | inl e ↦
          let device = text_eq_sound session.device_id (codes "opencrow") e in
          let token : value session.access_token ≡ value contents = rw e at h in cc (device, token)
      | inr e ↦ let no : error [] ≡ value contents = rw e at h in cc
    ]

ensure_password_login_restart_example :
    Login.ensure_password_login server config
      (restarted state.client (Login.ensure_password_login server config state).1)
    ≡ (value tt, (Login.ensure_password_login server config state).1)
unfolding Login.ensure_password_login text_eq
ensure_password_login_restart_example =
    ensure_password_login_restart server config state server-StoresCredentials server-ReadsBack refl
      refl
