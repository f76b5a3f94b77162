-- ===== src/Matrix/Same.antt =====
-- matrix/backend.go: what replies and downloads leave as it is.
use opencrow.Prelude.{◌≡◌, refl}
use opencrow.Prelude.Text.{Text, codes}
use opencrow.Prelude.Fallible.{Fallible, value, error, Done}
use opencrow.Matrix.Types.{
  Library, MsgType, text, image, file, audio, video, emote, notice, location, verification_request,
  beeper_gallery, other, MessageContent,
}
use opencrow.Matrix.Files.{Files, download_attachment}
use opencrow.Matrix.Rooms.{
  Answers, Backend, send, cross_signing_failed, handle_verify, downloaded, handle_attachment,
  body_of,
}

module _ (lib : Library) where
  pub record Same (b b' : Backend lib) : Type 0 where
    pub user_id : b'.user_id ≡ b.user_id
    pub allowed_users : b'.allowed_users ≡ b.allowed_users
    pub initial_synced : b'.initial_synced ≡ b.initial_synced
    pub active_room : b'.active_room ≡ b.active_room
    pub joining : b'.joining ≡ b.joining
    pub cleaned : b'.cleaned ≡ b.cleaned
    pub handled : b'.handled ≡ b.handled

  send-Same : (room_id body : Text) (b : Backend lib) → Same b (send lib room_id body b)
  unfolding send
  send-Same room_id body b = record {
    user_id = refl;
    allowed_users = refl;
    initial_synced = refl;
    active_room = refl;
    joining = refl;
    cleaned = refl;
    handled = refl;
  }

  pub handle_verify-Same :
      (room_id : Text) (verified : Done) (b : Backend lib)
      → Same b (handle_verify lib room_id verified b)
  unfolding handle_verify
  handle_verify-Same room_id (error e) b = send-Same room_id (cross_signing_failed e) b
  handle_verify-Same room_id (value _) b = send-Same room_id (codes "Cross-signing verified.") b

  downloaded-Same :
      (msg : MessageContent) (room_id : Text) (r : Fallible Text × Files) (b : Backend lib)
      → Same b (downloaded lib msg room_id r b).1
  unfolding send
  downloaded-Same msg room_id (value path, fs) b = record {
    user_id = refl;
    allowed_users = refl;
    initial_synced = refl;
    active_room = refl;
    joining = refl;
    cleaned = refl;
    handled = refl;
  }
  downloaded-Same msg room_id (error e, fs) b = record {
    user_id = refl;
    allowed_users = refl;
    initial_synced = refl;
    active_room = refl;
    joining = refl;
    cleaned = refl;
    handled = refl;
  }

  handle_attachment-Same :
      (answers : Answers) (msg : MessageContent) (room_id : Text) (b : Backend lib)
      → Same b (handle_attachment lib answers msg room_id b).1
  unfolding handle_attachment
  handle_attachment-Same answers msg room_id b =
      downloaded-Same msg room_id
        (download_attachment lib answers.download b.session_base_dir msg b.files) b

  pub body_of-Same :
      (answers : Answers) (msg : MessageContent) (room_id : Text) (t : MsgType) (b : Backend lib)
      → Same b (body_of lib answers msg room_id t b).1
  body_of-Same answers msg room_id text b = record {
    user_id = refl;
    allowed_users = refl;
    initial_synced = refl;
    active_room = refl;
    joining = refl;
    cleaned = refl;
    handled = refl;
  }
  body_of-Same answers msg room_id image b = handle_attachment-Same answers msg room_id b
  body_of-Same answers msg room_id file b = handle_attachment-Same answers msg room_id b
  body_of-Same answers msg room_id audio b = handle_attachment-Same answers msg room_id b
  body_of-Same answers msg room_id video b = handle_attachment-Same answers msg room_id b
  body_of-Same answers msg room_id emote b = handle_attachment-Same answers msg room_id b
  body_of-Same answers msg room_id notice b = handle_attachment-Same answers msg room_id b
  body_of-Same answers msg room_id location b = handle_attachment-Same answers msg room_id b
  body_of-Same answers msg room_id verification_request b =
      handle_attachment-Same answers msg room_id b
  body_of-Same answers msg room_id beeper_gallery b = handle_attachment-Same answers msg room_id b
  body_of-Same answers msg room_id other b = handle_attachment-Same answers msg room_id b
