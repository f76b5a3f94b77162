-- ===== src/Matrix/Files.antt =====
-- matrix/backend.go: the attachments that are downloaded, on a store of files by path.
use opencrow.Prelude.{
  ℕ, suc, ◌-◌, ◌*◌, Option, none, some, List, [], ◌∷◌, ◌++◌, length, take, ltb, ◌==◌, if◌then◌else◌,
}
use opencrow.Prelude.Text.{Text, codes, text_eq, is_empty}
use opencrow.Prelude.Fallible.{Fallible, value, error, Done}
use opencrow.Matrix.Types.{Library, EncryptedFile, MessageContent, Response}

-- What is in the files that exist.
abbrev pub Files : Type 0
Files = List (Text × Text)

unfoldable pub remove : Text → Files → Files
remove path [] = []
remove path ((p, data_of) ∷ fs) =
    let rest = remove path fs in if text_eq p path then rest else (p, data_of) ∷ rest

unfoldable pub read : Text → Files → Option Text
read path [] = none
read path ((p, data_of) ∷ fs) = if text_eq p path then some data_of else read path fs

unfoldable pub write : Text → Text → Files → Files
unfolding remove
write path data_of fs = (path, data_of) ∷ remove path fs

abbrev pub max_download_size : ℕ
max_download_size = 50 * (1024 * 1024)

-- What the world answers to the calls of one download.
pub record World : Type 0 where
  pub made_dir : Done
  pub temp_name : Text → Text → Fallible Text  -- `os.CreateTemp`, for a directory and a pattern
  pub closed : Done
  pub response : Fallible Response
  pub created : Done  -- `os.Create` or `os.WriteFile`
  pub status_text : ℕ → Text

-- The content's URL, and its keys where it is encrypted.
unfoldable pub attachment_url : MessageContent → Text × Option EncryptedFile
attachment_url msg = elim msg.encrypted_file [
  | none ↦ (msg.url, none)
  | some f ↦ if is_empty f.url then (msg.url, none) else (f.url, some f)
]

abbrev pub or_else : Text → Text → Text
or_else s t = if is_empty s then t else s

-- `strings.TrimSuffix(filename, ext)` where `ext` is the end of the name.
abbrev pub without_suffix : Text → Text → Text
without_suffix s ext = take (length s - length ext) s

-- A call that may fail, under `fmt.Errorf`, with what is done with its value.
abbrev pub attempt :
    {A B : Type 0} → Text → Fallible A → Files → (A → Fallible B × Files) → Fallible B × Files
attempt doing (value a) fs k = k a
attempt doing (error e) fs k = (error (doing ++ e), fs)

-- What a reader limited to `n` bytes gives of a body, and its error, which shows if it is reached.
abbrev pub read_limited : ℕ → Response → Text × Option Text
read_limited n r = (take n r.bytes, if ltb (length r.bytes) n then r.broken else none)

unfoldable pub stored : World → Text → Text → Files → Done × Files
unfolding write
stored w dest bytes fs =
    attempt (codes "writing decrypted file: ") w.created fs λ _. (value tt, write dest bytes fs)

-- The copy of a body to `dest`, which has been created.
unfoldable pub copied : Text → Files → Text × Option Text → Done × Files
unfolding write remove
copied dest fs (bytes, some e) = (error (codes "writing file: " ++ e), write dest bytes fs)
copied dest fs (bytes, none) =
    if ltb max_download_size (length bytes)
    then (error (codes "attachment exceeds maximum size of 52428800 bytes"), remove dest fs)
    else (value tt, write dest bytes fs)

unfoldable pub on_plain : World → Text → Files → Response → Done × Files
unfolding copied
on_plain w dest fs r =
    if r.status == 200
    then attempt (codes "creating file: ") w.created fs
        (λ _. copied dest fs (read_limited (suc max_download_size) r))
    else (error (codes "download returned status " ++ w.status_text r.status), fs)

unfoldable pub download_plain : World → Text → Files → Done × Files
unfolding on_plain
download_plain w dest fs =
    attempt (codes "downloading from matrix: ") w.response fs (on_plain w dest fs)

abbrev pub kept : Text → Done × Files → Fallible Text × Files
kept dest (value _, fs) = (value dest, fs)
kept dest (error e, fs) = (error e, remove dest fs)

module _ (lib : Library) where
  abbrev pub temp_pattern : Text → Text
  temp_pattern name = without_suffix name (lib.file_ext name) ++ (codes "_*" ++ lib.file_ext name)

  unfoldable pub closed_at : Text → Files → Done → Fallible Text × Files
  unfolding write remove
  closed_at path fs (error e) = (error (codes "closing attachment file: " ++ e), remove path fs)
  closed_at path fs (value _) = (value path, write path [] fs)

  -- The file that is made for a download, empty as yet.
  unfoldable pub attachment_dest_path :
      World → Text → MessageContent → Files → Fallible Text × Files
  unfolding closed_at
  attachment_dest_path w session_base_dir msg fs =
      let download_dir = lib.path_join session_base_dir (codes "attachments") in
      let name = lib.file_base (or_else (or_else msg.file_name msg.body) (codes "image.png")) in
      attempt (codes "creating attachments dir: ") w.made_dir fs λ _.
        attempt (codes "creating attachment file: ") (w.temp_name download_dir (temp_pattern name))
          fs λ path. closed_at path fs w.closed

  unfoldable pub decrypted :
      World → EncryptedFile → Text → Files → Text × Option Text → Done × Files
  unfolding stored
  decrypted w file dest fs (ciphertext, some e) =
      (error (codes "reading encrypted media: " ++ e), fs)
  decrypted w file dest fs (ciphertext, none) =
      if ltb max_download_size (length ciphertext)
      then (error (codes "encrypted attachment exceeds maximum size of 52428800 bytes"), fs)
      else attempt (codes "decrypting media: ") (lib.decrypt file ciphertext) fs
          (λ plaintext. stored w dest plaintext fs)

  unfoldable pub download_encrypted : World → EncryptedFile → Text → Files → Done × Files
  unfolding decrypted
  download_encrypted w file dest fs =
      attempt (codes "downloading encrypted media: ") w.response fs
        (λ r. decrypted w file dest fs (read_limited (suc max_download_size) r))

  abbrev pub download_to : World → Option EncryptedFile → Text → Files → Done × Files
  download_to w none dest fs = download_plain w dest fs
  download_to w (some file) dest fs = download_encrypted w file dest fs

  abbrev pub on_dest : World → Option EncryptedFile → Fallible Text × Files → Fallible Text × Files
  on_dest w file (error e, fs) = (error e, fs)
  on_dest w file (value dest, fs) = kept dest (download_to w file dest fs)

  unfoldable pub download_attachment : World → Text → MessageContent → Files → Fallible Text × Files
  unfolding attachment_url attachment_dest_path download_plain download_encrypted
  download_attachment w session_base_dir msg fs =
      let (url, file) = attachment_url msg in
      if is_empty url
      then (error (codes "message has no media URL"), fs)
      else attempt (codes "parsing mxc URL: ") (lib.parse_uri url) fs
          λ _. on_dest w file (attachment_dest_path w session_base_dir msg fs)
