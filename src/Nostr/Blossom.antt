-- ===== src/Nostr/Blossom.antt =====
-- nostr/blossom.go: uploads to the first server that takes them, and downloads.
--
-- HTTP, files and Go's functions on URLs are outside: `Uploader` and `Fetch` have what their calls
-- return. A text is its bytes.
use opencrow.Prelude.{
  ℕ, suc, ◌*◌, ◌-◌, not, ◌||◌, ◌&&◌, List, [], ◌∷◌, ◌++◌, Option, none, some, length, take, ltb,
  ◌==◌, if◌then◌else◌,
}
use opencrow.Prelude.Text.{Text, codes, is_empty}
use opencrow.Prelude.Fallible.{Fallible, value, error, ◌>>=◌, wrap, Done}
use opencrow.Conversation.{is_nil}
use opencrow.Nostr.Crypto.{Aes, EncryptedFile, encrypt_file_for_upload}
use opencrow.Nostr.Relays.{normalized}
use opencrow.Nostr.FileNames.{file_ext, sanitize_filename}

pub record Response : Type 0 where
  pub status : ℕ
  pub body : Text

pub record Uploader : Type 0 where
  pub aes : Aes
  pub random_key : Fallible Text
  pub random_nonce : Fallible Text
  pub read_file : Text → Fallible Text
  pub ext_of : Text → Text  -- `filepath.Ext`
  pub type_by_extension : Text → Text  -- `mime.TypeByExtension`
  pub detect_content_type : Text → Text  -- `http.DetectContentType`
  pub auth_header : Text → Fallible Text  -- of the signed event for a hash
  pub put : Text → Text → Text → Text → Fallible Response  -- for a URL, the data, its type and the header
  pub url_in : Text → Option Text  -- the field `url` of a JSON body, none where that is not one
  pub decimal : ℕ → Text

pub record BlossomUpload : Type 0 where
  pub url : Text
  pub mime_type : Text
  pub x_hex : Text
  pub enc : EncryptedFile

unfoldable pub detect_content_type : Uploader → Text → Text → Text
detect_content_type u file_path bytes =
    if not (is_empty (u.ext_of file_path))
      && not (is_empty (u.type_by_extension (u.ext_of file_path)))
    then u.type_by_extension (u.ext_of file_path)
    else u.detect_content_type bytes

abbrev pub or_url : Option Text → Text → Text
or_url none fallback = fallback
or_url (some url) fallback = if is_empty url then fallback else url

abbrev pub url_of : Uploader → Text → Text → Response → Fallible Text
url_of u server hash_hex r =
    if r.status == 200 || r.status == 201
    then value (or_url (u.url_in r.body) (normalized server ++ (codes "/" ++ hash_hex)))
    else error (codes "HTTP " ++ (u.decimal r.status ++ (codes ": " ++ r.body)))

-- The URL of the blob on the server.
unfoldable pub upload_to_server : Uploader → Text → Text → Text → Text → Text → Fallible Text
unfolding normalized
upload_to_server u server bytes content_type auth_header hash_hex =
    wrap (λ e. codes "uploading to " ++ (server ++ (codes ": " ++ e)))
      (u.put (normalized server ++ codes "/upload") bytes content_type auth_header)
    >>= url_of u server hash_hex

-- The servers one after the other, with the last error so far.
unfoldable pub try_servers : Uploader → List Text → Text → Text → Text → Text → Text → Fallible Text
unfolding upload_to_server
try_servers u [] bytes content_type auth_header hash_hex last_err =
    error (codes "all blossom servers failed, last error: " ++ last_err)
try_servers u (server ∷ servers) bytes content_type auth_header hash_hex last_err =
    elim (upload_to_server u server bytes content_type auth_header hash_hex) [
      | value url ↦ value url
      | error e ↦ try_servers u servers bytes content_type auth_header hash_hex e
    ]

abbrev pub upload_encrypted : Uploader → List Text → Text → EncryptedFile → Fallible BlossomUpload
upload_encrypted u servers mime_type enc =
    let hash_hex = u.aes.sha256_hex enc.ciphertext in
    u.auth_header hash_hex >>= λ auth_header.
    try_servers u servers enc.ciphertext mime_type auth_header hash_hex [] >>= λ url.
    value (record { url = url; mime_type = mime_type; x_hex = hash_hex; enc = enc })

unfoldable pub upload_to_blossom_impl : Uploader → List Text → Text → Fallible BlossomUpload
unfolding detect_content_type try_servers encrypt_file_for_upload
upload_to_blossom_impl u servers file_path =
    if is_nil servers
    then error (codes "no blossom servers configured")
    else (wrap (◌++◌ (codes "reading file: ")) (u.read_file file_path) >>= λ plaintext.
        wrap (◌++◌ (codes "encrypting file: "))
          (encrypt_file_for_upload u.aes u.random_key u.random_nonce plaintext)
        >>= upload_encrypted u servers (detect_content_type u file_path plaintext))

abbrev pub max_download_size : ℕ
max_download_size = 50 * (1024 * 1024)

-- The body of an answer, and the error behind it if it breaks off.
pub record Download : Type 0 where
  pub status : ℕ
  pub bytes : Text
  pub broken : Option Text

pub record Fetch : Type 0 where
  pub get : Text → Fallible Download
  pub base_of_url : Text → Option Text  -- `path.Base` of the path, none for a URL that does not parse
  pub attachments_dir : Text → Text  -- of a conversation
  pub made_dir : Done
  pub temp_name : Text → Text → Fallible Text  -- `os.CreateTemp`, for a directory and a pattern
  pub status_text : ℕ → Text

abbrev pub file_name : Option Text → Text
file_name none = codes "attachment"
file_name (some base) = base

abbrev pub temp_pattern : Text → Text
temp_pattern name =
    take (length name - length (file_ext name)) name ++ (codes "_*" ++ file_ext name)

-- The copy to `dest`; what was copied before an error is removed.
abbrev pub copied : Text → Download → Fallible Text
copied dest d = elim (if ltb (length d.bytes) (suc max_download_size) then d.broken else none) [
  | some e ↦ error (codes "writing file: " ++ e)
  | none ↦
      if ltb max_download_size (length (take (suc max_download_size) d.bytes))
      then error (codes "download exceeds maximum size of 52428800 bytes")
      else value dest
]

abbrev pub saved : Fetch → Text → Download → Text → Fallible Text
saved f conversation_id d name =
    wrap (◌++◌ (codes "creating attachments dir: ")) f.made_dir >>= λ _.
    wrap (◌++◌ (codes "creating file: "))
      (f.temp_name (f.attachments_dir conversation_id) (temp_pattern name))
    >>= λ dest. copied dest d

abbrev pub named : Fetch → Text → Download → Option Text → Option (Fallible Text)
named f conversation_id d none = none
named f conversation_id d (some name) = some (saved f conversation_id d name)

abbrev pub received : Fetch → Text → Text → Fallible Download → Option (Fallible Text)
received f url conversation_id (error e) = some (error (codes "downloading: " ++ e))
received f url conversation_id (value d) =
    if d.status == 200
    then named f conversation_id d (sanitize_filename (file_name (f.base_of_url url)))
    else some (error (codes "download returned status " ++ f.status_text d.status))

-- The path of the file, none for a panic.
unfoldable pub download_url : Fetch → Text → Text → Option (Fallible Text)
unfolding sanitize_filename
download_url f url conversation_id = received f url conversation_id (f.get url)
