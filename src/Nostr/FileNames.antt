-- ===== src/Nostr/FileNames.antt =====
-- nostr/blossom.go: `sanitizeFilename`, for names in ASCII, where a byte is a character.
use opencrow.Prelude.{
  ℕ, ◌≡◌, refl, ◌-◌, Bool, true, false, ◌||◌, [], ◌∷◌, ◌++◌, Option, none, some, length, take, ltb,
  ◌==◌, if◌then◌else◌,
}
use opencrow.Prelude.Text.{Text, codes, text_eq, is_empty}
use opencrow.Prelude.Strings.{trim_space, replace_all}

-- The class of `unsafeFilenameChars`.
unfoldable pub is_unsafe : ℕ → Bool
is_unsafe c =
    ltb c 32
    || c == b'<'
    || c == b'>'
    || c == b':'
    || c == 34
    || c == b'/'
    || c == 92
    || c == b'|'
    || c == b'?'
    || c == b'*'

unfoldable pub underscore_for : ℕ → ℕ
unfolding is_unsafe
underscore_for c = if is_unsafe c then b'_' else c

unfoldable pub cleaned : Text → Text
unfolding underscore_for trim_space
cleaned name = trim_space (replace_all underscore_for name)

-- The rest from the last dot on.
abbrev pub from_dot : Bool → Text → Option Text → Option Text
from_dot true s none = some s
from_dot false s none = none
from_dot is_dot s (some ext) = some ext

unfoldable pub last_dot : Text → Option Text
last_dot [] = none
last_dot (c ∷ s) = from_dot (c == b'.') (c ∷ s) (last_dot s)

-- `filepath.Ext` of a name without a slash.
unfoldable pub file_ext : Text → Text
unfolding last_dot
file_ext name = elim (last_dot name) [ none ↦ [] | some ext ↦ ext ]

abbrev pub max_len : ℕ
max_len = 200

-- The name cut to `max_len` bytes, the extension kept; none where the index of the cut is negative,
-- which is a panic.
unfoldable pub capped : Text → Text → Option Text
capped name ext =
    let base = take (length name - length ext) name in
    if ltb max_len (length ext)
    then none
    else if ltb (max_len - length ext) (length base)
    then some (take (max_len - length ext) base ++ ext)
    else some (base ++ ext)

abbrev pub cap_if_long : Text → Option Text
cap_if_long name = if ltb max_len (length name) then capped name (file_ext name) else some name

abbrev pub or_attachment : Option Text → Option Text
or_attachment none = none
or_attachment (some name) =
    if is_empty name || (text_eq name (codes ".") || text_eq name (codes "/"))
    then some (codes "attachment")
    else some name

unfoldable pub sanitize_filename : Text → Option Text
unfolding cleaned file_ext capped
sanitize_filename name = or_attachment (cap_if_long (cleaned name))

sanitize_filename_test : sanitize_filename (codes " a/b?.png ") ≡ some (codes "a_b_.png")
unfolding sanitize_filename replace_all text_eq
sanitize_filename_test = refl
