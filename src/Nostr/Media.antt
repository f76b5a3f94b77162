-- ===== src/Nostr/Media.antt =====
-- nostr/media.go: the text for the agent of a file message, and of a message with links to media.
--
-- The network and the files are outside: `Media` has what their calls return, and the links that the
-- pattern of the source finds in a text.
use opencrow.Prelude.{
  ℕ, zero, suc, ◌-◌, true, false, not, ◌||◌, List, [], ◌∷◌, ◌++◌, length, if◌then◌else◌,
}
use opencrow.Prelude.Text.{Text, codes, is_empty}
use opencrow.Prelude.Strings.{trim_space, has_prefix}
use opencrow.Prelude.Fallible.{Fallible, value, error, Done}
use opencrow.Conversation.{attachment_text, is_member}
use opencrow.Nostr.Rumors.{Tag, tag_value}
use opencrow.Nostr.Crypto.{Aes, decrypt_file_in_place}

pub record Media : Type 0 where
  pub find_urls : Text → List Text  -- `mediaURLRe.FindAllString`
  pub download : Text → Text → Fallible Text  -- what `downloadURL` gives, if it does not panic
  pub aes : Aes
  pub read_file : Text → Fallible Text
  pub write_file : Text → Text → Done
  pub file_ext : Text → Text  -- `filepath.Ext`
  pub extensions_by_type : Text → Fallible (List Text)  -- `mime.ExtensionsByType`
  pub rename : Text → Text → Done  -- `os.Rename`

unfoldable pub desc_from_mime : Text → Text
unfolding has_prefix
desc_from_mime mime_type =
    if has_prefix mime_type (codes "image/")
    then codes "image"
    else if has_prefix mime_type (codes "audio/")
    then codes "audio"
    else if has_prefix mime_type (codes "video/")
    then codes "video"
    else codes "file"

abbrev pub first_or_empty : Fallible (List Text) → Text
first_or_empty (error e) = []
first_or_empty (value []) = []
first_or_empty (value (ext ∷ exts)) = ext

unfoldable pub mime_to_ext : Media → Text → Text
mime_to_ext m mime_type = first_or_empty (m.extensions_by_type mime_type)

abbrev pub renamed : Text → Text → Done → Text
renamed path new_path (error e) = path
renamed path new_path (value _) = new_path

unfoldable pub maybe_add_extension : Media → Text → Text → Text
unfolding mime_to_ext
maybe_add_extension m path mime_type =
    if is_empty mime_type || not (is_empty (m.file_ext path))
    then path
    else if is_empty (mime_to_ext m mime_type)
    then path
    else renamed path (path ++ mime_to_ext m mime_type)
        (m.rename path (path ++ mime_to_ext m mime_type))

abbrev pub received_file : Media → Text → Text → Text
unfolding desc_from_mime maybe_add_extension
received_file m mime_type path =
    codes "[User sent a "
    ++ (desc_from_mime mime_type
        ++ (codes ": "
            ++ (maybe_add_extension m path mime_type ++ codes "]\nUse the read tool to view it.")))

abbrev pub after_decrypt : Media → Text → Text → Done → Text
after_decrypt m mime_type path (error e) =
    codes "[User sent an encrypted file but decryption failed]"
after_decrypt m mime_type path (value _) = received_file m mime_type path

unfoldable pub decrypt_file : Media → Text → List Tag → Done
unfolding decrypt_file_in_place
decrypt_file m path tags = decrypt_file_in_place m.aes tags (m.read_file path) (m.write_file path)

abbrev pub after_download : Media → List Tag → Text → Fallible Text → Text
after_download m tags url (error e) =
    codes "[User sent a file but download failed: " ++ (url ++ codes "]")
after_download m tags url (value path) =
    if is_empty (tag_value tags (codes "encryption-algorithm"))
    then received_file m (tag_value tags (codes "file-type")) path
    else after_decrypt m (tag_value tags (codes "file-type")) path (decrypt_file m path tags)

unfoldable pub handle_file_message : Media → Text → List Tag → Text → Text
unfolding tag_value received_file decrypt_file
handle_file_message m content tags conversation_id =
    let url = trim_space content in
    if is_empty url
    then codes "[User sent a file message with no URL]"
    else after_download m tags url (m.download url conversation_id)

-- `strings.ReplaceAll`, for an `old` that is not empty: `skip` more characters are part of it.
unfoldable pub replace_from : ℕ → Text → Text → Text → Text
unfolding has_prefix
replace_from skip old new [] = []
replace_from (suc skip) old new (c ∷ s) = replace_from skip old new s
replace_from zero old new (c ∷ s) =
    let behind = replace_from (length old - 1) old new s in
    let after = replace_from zero old new s in
    if has_prefix (c ∷ s) old then new ++ behind else c ∷ after

-- The loop over the links that were found; `processed` are those that are replaced.
unfoldable pub rewrite_urls : Media → Text → List Text → List Text → Text → Text
unfolding replace_from attachment_text is_member
rewrite_urls m conversation_id [] processed text = text
rewrite_urls m conversation_id (url ∷ urls) processed text = elim (is_member url processed) [
  | true ↦ rewrite_urls m conversation_id urls processed text
  | false ↦ elim (m.download url conversation_id) [
    | error e ↦ rewrite_urls m conversation_id urls processed text
    | value path ↦
        rewrite_urls m conversation_id urls (url ∷ processed)
          (replace_from zero url (attachment_text [] path) text)
  ]
]

unfoldable pub rewrite_media_urls : Media → Text → Text → Text
unfolding rewrite_urls
rewrite_media_urls m text conversation_id =
    rewrite_urls m conversation_id (m.find_urls text) [] text
