-- ===== src/Matrix/Upload.antt =====
-- matrix/backend.go: `SendFile`, and the indicator of typing.
use opencrow.Prelude.{Bool, ◌++◌, length, ℕ, if◌then◌else◌}
use opencrow.Prelude.Text.{Text, codes, is_empty}
use opencrow.Prelude.Strings.{has_prefix}
use opencrow.Prelude.Fallible.{Fallible, ◌>>=◌, wrap, Done}
use opencrow.Matrix.Types.{Library, MsgType, image, audio, video, file}

-- `event.MessageEventContent` of a file.
pub record FileContent : Type 0 where
  pub msg_type : MsgType
  pub body : Text
  pub url : Text
  pub file_name : Text
  pub mime_type : Text
  pub size : ℕ

unfoldable pub type_of_content : Text → MsgType
unfolding has_prefix
type_of_content content_type =
    if has_prefix content_type (codes "image/")
    then image
    else if has_prefix content_type (codes "audio/")
    then audio
    else if has_prefix content_type (codes "video/")
    then video
    else file

module _ (lib : Library) where
  -- `cmp.Or(mime.TypeByExtension(filepath.Ext(filePath)), http.DetectContentType(data))`
  unfoldable pub content_type_of : Text → Text → Text
  content_type_of file_path bytes =
      if is_empty (lib.type_by_extension (lib.file_ext file_path))
      then lib.detect_content_type bytes
      else lib.type_by_extension (lib.file_ext file_path)

  -- The content of the event for a file that was read and uploaded.
  unfoldable pub file_content : Text → Text → Text → FileContent
  unfolding type_of_content content_type_of
  file_content file_path bytes content_uri = record {
    msg_type = type_of_content (content_type_of file_path bytes);
    body = lib.file_base file_path;
    url = content_uri;
    file_name = lib.file_base file_path;
    mime_type = content_type_of file_path bytes;
    size = length bytes;
  }

  -- `read`, `upload` and `send` are what the calls return.
  unfoldable pub send_file :
      Text → Fallible Text → (Text → Text → Fallible Text) → (FileContent → Done) → Done
  unfolding file_content
  send_file file_path read upload send = wrap (◌++◌ (codes "reading file: ")) read >>= λ bytes.
      wrap (◌++◌ (codes "uploading media: ")) (upload bytes (content_type_of file_path bytes))
      >>= λ content_uri.
          wrap (◌++◌ (codes "sending file message: "))
            (send (file_content file_path bytes content_uri))

-- The timeout that `SetTyping` gives, in seconds.
unfoldable pub typing_timeout : Bool → ℕ
typing_timeout typing = if typing then 30 else 0
