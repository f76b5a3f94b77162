-- ===== src/Matrix/Types.antt =====
-- matrix/backend.go: what the backend takes from mautrix, and the data of an event.
use opencrow.Prelude.{ℕ, Option}
use opencrow.Prelude.Text.{Text}
use opencrow.Prelude.Fallible.{Fallible}

-- `event.Membership`
pub data Membership : Type 0 where
  invite leave ban join knock unknown : Membership

-- `event.MessageType`
pub data MsgType : Type 0 where
  text image file audio video emote notice location verification_request beeper_gallery other :
      MsgType

-- `event.EncryptedFileInfo`: the URL, and the keys as mautrix reads them.
pub record EncryptedFile : Type 0 where
  pub url : Text
  pub keys : Text

-- `event.MessageEventContent`, `reply_to` being what `GetReplyTo` gives.
pub record MessageContent : Type 0 where
  pub msg_type : MsgType
  pub body : Text
  pub file_name : Text
  pub url : Text
  pub encrypted_file : Option EncryptedFile
  pub reply_to : Option Text

-- An event of type `m.room.message`; the content is none where it is not that of a message.
pub record MessageEvent : Type 0 where
  pub id : Text
  pub room_id : Text
  pub sender : Text
  pub content : Option MessageContent

-- An event of type `m.room.member`.
pub record MemberEvent : Type 0 where
  pub room_id : Text
  pub sender : Text
  pub state_key : Text
  pub membership : Option Membership

-- An answer to a download: its status, the bytes of its body, and the error behind them if it breaks off.
pub record Response : Type 0 where
  pub status : ℕ
  pub bytes : Text
  pub broken : Option Text

-- mautrix, Go's path functions and its content types.
pub record Library : Type 1 where
  pub Content : Type 0
  pub Uri : Type 0
  pub render_markdown : Text → Content  -- `format.RenderMarkdown(chunk, true, false)`
  pub parse_uri : Text → Fallible Uri  -- `ContentURIString.Parse`
  pub decrypt : EncryptedFile → Text → Fallible Text  -- `DecryptInPlace`
  pub file_base : Text → Text  -- `filepath.Base`
  pub file_ext : Text → Text  -- `filepath.Ext`
  pub path_join : Text → Text → Text  -- `filepath.Join`
  pub type_by_extension : Text → Text  -- `mime.TypeByExtension`
  pub detect_content_type : Text → Text  -- `http.DetectContentType`
