-- ===== src/App/Files.antt =====
-- `extractSendFiles` of app.go.
--
-- The pattern <sendfile>\s*(.*?)\s*</sendfile> is read as its meaning in Go: blanks of ASCII, then
-- as few characters as do, no line feed among them, then blanks and the first closing tag; the
-- matches are taken from the left.
use mathlib.Core.List.{reverse}
use opencrow.Prelude.{
  ℕ, zero, suc, ◌-◌, Bool, ◌||◌, List, [], ◌∷◌, Option, none, some, length, exists, if◌then◌else◌,
  ◌==◌,
}
use opencrow.Prelude.Text.{Text, codes, is_empty, newline}
use opencrow.Prelude.Strings.{cut_prefix, trim_space}
use opencrow.Conversation.{is_nil}

abbrev pub open_tag : Text
open_tag = codes "<sendfile>"

abbrev pub close_tag : Text
close_tag = codes "</sendfile>"

-- \s
abbrev pub is_blank : ℕ → Bool
is_blank ch = ch == 9 || ch == newline || ch == 12 || ch == 13 || ch == 32

unfoldable pub skip_blanks : Text → Text
skip_blanks [] = []
skip_blanks (ch ∷ s) = let rest = skip_blanks s in if is_blank ch then rest else ch ∷ s

abbrev pub drop_blanks : Text → Text
drop_blanks s = reverse (skip_blanks (reverse s))

abbrev pub with_first : ℕ → Option (Text × Text) → Option (Text × Text)
with_first ch none = none
with_first ch (some (s, rest)) = some (ch ∷ s, rest)

abbrev pub closed_or : ℕ → Option Text → Option (Text × Text) → Option (Text × Text)
closed_or ch (some rest) later = some ([], rest)
closed_or ch none later = with_first ch later

-- What stands before the first closing tag, and what behind it.
unfoldable pub find_close : Text → Option (Text × Text)
unfolding cut_prefix
find_close [] = none
find_close (ch ∷ s) = closed_or ch (cut_prefix (ch ∷ s) close_tag) (find_close s)

abbrev pub is_newline : ℕ → Bool
is_newline ch = ch == newline

abbrev pub captured : Option (Text × Text) → Option (Text × Text)
captured none = none
captured (some (inside, rest)) =
    if exists is_newline (drop_blanks inside) then none else some (drop_blanks inside, rest)

abbrev pub after_open : Option Text → Option (Text × Text)
after_open none = none
after_open (some s) = captured (find_close (skip_blanks s))

-- The match that begins here: the group, and what stands behind the match.
unfoldable pub match_here : Text → Option (Text × Text)
unfolding find_close skip_blanks cut_prefix
match_here s = after_open (cut_prefix s open_tag)

-- How many characters of a match are still to be passed over behind this one.
abbrev pub next_skip : ℕ → Text → Option (Text × Text) → ℕ
next_skip (suc n) s m = n
next_skip zero s none = 0
next_skip zero s (some (path, rest)) = length s - length rest

-- The text without the matches, and the groups.
abbrev pub add_match : ℕ → ℕ → Option (Text × Text) → Text × List Text → Text × List Text
add_match (suc n) ch m r = r
add_match zero ch none (t, ps) = (ch ∷ t, ps)
add_match zero ch (some (path, rest)) (t, ps) = (t, path ∷ ps)

unfoldable pub scan : ℕ → Text → Text × List Text
unfolding match_here
scan skip [] = ([], [])
scan skip (ch ∷ s) =
    let m = match_here (ch ∷ s) in add_match skip ch m (scan (next_skip skip s m) s)

unfoldable pub trimmed_paths : List Text → List Text
trimmed_paths [] = []
trimmed_paths (p ∷ ps) =
    let rest = trimmed_paths ps in if is_empty (trim_space p) then rest else trim_space p ∷ rest

unfoldable pub extract_send_files : Text → Text × List Text
unfolding scan trimmed_paths
extract_send_files text =
    let (cleaned, groups) = scan 0 text in
    if is_nil groups then (text, []) else (trim_space cleaned, trimmed_paths groups)
