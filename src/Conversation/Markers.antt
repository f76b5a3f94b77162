-- ===== src/Conversation/Markers.antt =====
-- The line breaks in `AttachmentText` of backend/util.go.
use mathlib.Core.List.{reverse, reverse_aux}
use opencrow.Prelude.{ℕ, ◌+◌, ◌≤◌, ◌≡◌, refl, ◌||◌, [], ◌∷◌, ◌++◌, if◌then◌else◌, ◌==◌, arith}
use opencrow.Prelude.Text.{Text, codes, is_empty, newline}
use opencrow.Prelude.Strings.{trim_space, trim_left, replace_all}
use opencrow.Conversation.{
  attachment_text, sanitize_line, space_for, carriage_return, marker, caption_or_none,
}

-- How many carriage returns and line feeds there are in a text.
abbrev pub line_breaks : Text → ℕ
line_breaks [] = 0
line_breaks (ch ∷ s) =
    if ch == carriage_return || ch == newline then 1 + line_breaks s else line_breaks s

line_breaks-append : (s t : Text) → line_breaks (s ++ t) ≡ line_breaks s + line_breaks t
line_breaks-append [] t = omega arith
line_breaks-append (ch ∷ s) t = ground (arith, line_breaks-append s t)

line_breaks-reverse_aux :
    (s t : Text) → line_breaks (reverse_aux s t) ≡ line_breaks s + line_breaks t
line_breaks-reverse_aux [] t = omega arith
line_breaks-reverse_aux (ch ∷ s) t = ground (arith, line_breaks-reverse_aux s (ch ∷ t))

line_breaks-reverse : (s : Text) → line_breaks (reverse s) ≡ line_breaks s
line_breaks-reverse s = omega (arith, line_breaks-reverse_aux s [])

line_breaks-trim_left : (s : Text) → line_breaks (trim_left s) ≤ line_breaks s
unfolding trim_left
line_breaks-trim_left [] = omega arith
line_breaks-trim_left (ch ∷ s) = ground (arith, line_breaks-trim_left s)

line_breaks-trim_space : (s : Text) → line_breaks (trim_space s) ≤ line_breaks s
unfolding trim_space
line_breaks-trim_space s = omega (
  arith,
  line_breaks-reverse (trim_left (reverse (trim_left s))),
  line_breaks-trim_left (reverse (trim_left s)),
  line_breaks-reverse (trim_left s),
  line_breaks-trim_left s,
)

line_breaks-replace_all : (s : Text) → line_breaks (replace_all space_for s) ≡ 0
unfolding replace_all space_for
line_breaks-replace_all [] = refl
line_breaks-replace_all (ch ∷ s) = ground (arith, line_breaks-replace_all s)

line_breaks-sanitize_line : (s : Text) → line_breaks (sanitize_line s) ≡ 0
unfolding sanitize_line
line_breaks-sanitize_line s =
    omega (arith, line_breaks-trim_space (replace_all space_for s), line_breaks-replace_all s)

line_breaks-caption_or_none :
    (caption : Text) → line_breaks caption ≡ 0 → line_breaks (caption_or_none caption) ≡ 0
line_breaks-caption_or_none [] h = refl
line_breaks-caption_or_none (ch ∷ s) h = h

line_breaks-marker :
    (caption path : Text)
    → line_breaks caption ≡ 0
    → line_breaks path ≡ 0
    → line_breaks (marker caption path) ≡ (if is_empty path then 0 else 1)
line_breaks-marker caption [] hc hp = omega (arith, hc, line_breaks-append caption (codes ")]"))
line_breaks-marker caption (ch ∷ path) hc hp = omega (
  arith,
  hc,
  hp,
  line_breaks-append caption
      (codes "): " ++ (ch ∷ path ++ codes "]\nUse the read tool to view it.")),
  line_breaks-append (ch ∷ path) (codes "]\nUse the read tool to view it."),
)

-- Whatever line breaks the remote caption and path hold, the text about an attachment has none, or
-- where there is a path the single one that the program puts in before its instruction.
pub line_breaks-attachment_text :
    (caption path : Text)
    → line_breaks (attachment_text caption path) ≡ (if is_empty (sanitize_line path) then 0 else 1)
unfolding attachment_text
line_breaks-attachment_text caption path =
    line_breaks-marker (caption_or_none (sanitize_line caption)) (sanitize_line path)
      (line_breaks-caption_or_none (sanitize_line caption) (line_breaks-sanitize_line caption))
      (line_breaks-sanitize_line path)
