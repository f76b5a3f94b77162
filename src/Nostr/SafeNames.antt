-- ===== src/Nostr/SafeNames.antt =====
-- The names that `sanitizeFilename` of nostr/blossom.go gives.
use mathlib.Core.List.{reverse, reverse_aux}
use opencrow.Prelude.{
  ℕ, zero, suc, ◌≡◌, refl, ◌≤◌, ◌<◌, ◌-◌, Bool, true, false, ◌||◌, if_cases, if_keeps, or_split, [],
  ◌∷◌, ◌++◌, Option, none, some, length, take, length-take, length-append, ltb, ◌==◌, All,
  All-append, arith,
}
use opencrow.Prelude.Text.{Text, codes, text_eq, is_empty}
use opencrow.Prelude.Strings.{is_space, trim_left, trim_space, replace_all}
use opencrow.Nostr.FileNames.{
  is_unsafe, underscore_for, cleaned, from_dot, last_dot, file_ext, max_len, capped, cap_if_long,
  or_attachment, sanitize_filename,
}

-- No character is unsafe in a name of a file.
abbrev pub IsSafe : Text → Type 0
IsSafe = All (λ c. is_unsafe c ≡ false)

All-take : (n : ℕ) (s : Text) → IsSafe s → IsSafe (take n s)
All-take zero s h = tt
All-take (suc n) [] h = tt
All-take (suc n) (c ∷ s) h = (h.0, All-take n s h.1)

All-trim_left : (s : Text) → IsSafe s → IsSafe (trim_left s)
unfolding trim_left
All-trim_left [] h = tt
All-trim_left (c ∷ s) h = if_keeps IsSafe (is_space c) (All-trim_left s h.1) h

All-replace_all : (s : Text) → IsSafe (replace_all underscore_for s)
unfolding replace_all underscore_for is_unsafe
All-replace_all [] = tt
All-replace_all (c ∷ s) =
    (if_cases (λ x. is_unsafe x ≡ false) (is_unsafe c) (λ _. refl) (λ h. h), All-replace_all s)

All-reverse_aux : (s acc : Text) → IsSafe s → IsSafe acc → IsSafe (reverse_aux s acc)
All-reverse_aux [] acc h k = k
All-reverse_aux (c ∷ s) acc h k = All-reverse_aux s (c ∷ acc) h.1 (h.0, k)

All-reverse : (s : Text) → IsSafe s → IsSafe (reverse s)
All-reverse s h = All-reverse_aux s [] h tt

cleaned-IsSafe : (name : Text) → IsSafe (cleaned name)
unfolding cleaned trim_space
cleaned-IsSafe name =
    let replaced = replace_all underscore_for name in
    All-reverse (trim_left (reverse (trim_left replaced))) (
      All-trim_left (reverse (trim_left replaced))
        (All-reverse (trim_left replaced) (All-trim_left replaced (All-replace_all name))))

-- The extension is the end of the name.
data Extends (name : Text) : Option Text → Type 0 where
  no_dot : Extends name none
  dot : (ext : Text) → length ext ≤ length name → IsSafe ext → Extends name (some ext)

from_dot-Extends :
    (is_dot : Bool) (c : ℕ) (s : Text) (ext : Option Text)
    → IsSafe (c ∷ s)
    → Extends s ext
    → Extends (c ∷ s) (from_dot is_dot (c ∷ s) ext)
from_dot-Extends true c s _ h no_dot = dot (c ∷ s) (omega arith) h
from_dot-Extends false c s _ h no_dot = no_dot
from_dot-Extends true c s _ h (dot ext le safe) = dot ext (omega arith) safe
from_dot-Extends false c s _ h (dot ext le safe) = dot ext (omega arith) safe

last_dot-Extends : (name : Text) → IsSafe name → Extends name (last_dot name)
unfolding last_dot
last_dot-Extends [] h = no_dot
last_dot-Extends (c ∷ s) h =
    from_dot-Extends (c == b'.') c s (last_dot s) h (last_dot-Extends s h.1)

record IsSuffix (name ext : Text) : Type 0 where
  shorter : length ext ≤ length name
  safe : IsSafe ext

file_ext-IsSuffix : (name : Text) → IsSafe name → IsSuffix name (file_ext name)
unfolding file_ext
file_ext-IsSuffix name h = of_dot (last_dot name) (last_dot-Extends name h)
  where
    of_dot :
        (o : Option Text) → Extends name o → IsSuffix name (elim o [ none ↦ [] | some ext ↦ ext ])
    of_dot _ no_dot = record { shorter = omega arith; safe = tt }
    of_dot _ (dot ext le safe) = record { shorter = le; safe = safe }

-- Of one to 200 characters, all of them safe.
pub record IsName (name : Text) : Type 0 where
  pub present : 1 ≤ length name
  pub short : length name ≤ max_len
  pub safe : IsSafe name

-- What becomes of a name whose extension, when it is cleaned, is short enough or too long.
pub data Named (name : Text) : Option Text → Type 0 where
  named :
      (out : Text) → length (file_ext (cleaned name)) ≤ max_len → IsName out → Named name (some out)
  panics : max_len < length (file_ext (cleaned name)) → Named name none

-- The cut name, before an empty one is replaced.
data Cut (name : Text) : Option Text → Type 0 where
  cut :
      (out : Text)
      → length (file_ext (cleaned name)) ≤ max_len
      → length out ≤ max_len
      → IsSafe out
      → Cut name (some out)
  negative : max_len < length (file_ext (cleaned name)) → Cut name none

capped-Cut :
    (name : Text)
    → IsSuffix (cleaned name) (file_ext (cleaned name))
    → Cut name (capped (cleaned name) (file_ext (cleaned name)))
unfolding capped
capped-Cut name suffix =
    if_cases (Cut name) (ltb max_len (length ext)) (λ h. negative (ground arith))
      λ short.
        if_cases (Cut name) (ltb (max_len - length ext) (length base))
          (λ _.
            cut (take (max_len - length ext) base ++ ext) (ground arith)
              (omega (
                arith,
                length-append (take (max_len - length ext) base) ext,
                length-take (max_len - length ext) base,
                at_most short,
              ))
              (All-append (λ c. is_unsafe c ≡ false) (take (max_len - length ext) base) ext
                (All-take (max_len - length ext) base base-IsSafe) suffix.safe))
          (λ h.
            cut (base ++ ext) (ground arith)
              (omega (arith, length-append base ext, fits h, at_most short))
              (All-append (λ c. is_unsafe c ≡ false) base ext base-IsSafe suffix.safe))
  where
    ext : Text
    ext = file_ext (cleaned name)

    base : Text
    base = take (length (cleaned name) - length ext) (cleaned name)

    base-IsSafe : IsSafe base
    base-IsSafe = All-take (length (cleaned name) - length ext) (cleaned name) (cleaned-IsSafe name)

    at_most : ltb max_len (length ext) ≡ false → length ext ≤ max_len
    at_most h = ground arith

    fits : ltb (max_len - length ext) (length base) ≡ false → length base ≤ max_len - length ext
    fits h = ground arith

cap_if_long-Cut : (name : Text) → Cut name (cap_if_long (cleaned name))
cap_if_long-Cut name =
    let suffix = file_ext-IsSuffix (cleaned name) (cleaned-IsSafe name) in
    if_cases (Cut name) (ltb max_len (length (cleaned name))) (λ _. capped-Cut name suffix)
      (λ h.
        cut (cleaned name) (ground (arith, suffix.shorter)) (ground arith) (cleaned-IsSafe name))

present_of : (name : Text) → is_empty name ≡ false → 1 ≤ length name
present_of [] h = cc
present_of (c ∷ name) h = omega arith

attachment-IsName : IsName (codes "attachment")
unfolding is_unsafe
attachment-IsName = record {
  present = omega arith;
  short = omega arith;
  safe = (refl, (refl, (refl, (refl, (refl, (refl, (refl, (refl, (refl, (refl, tt))))))))));
}

or_attachment-Named : (name : Text) (o : Option Text) → Cut name o → Named name (or_attachment o)
or_attachment-Named name _ (negative long) = panics long
or_attachment-Named name _ (cut out ext le safe) =
    if_cases (Named name) (is_empty out || (text_eq out (codes ".") || text_eq out (codes "/")))
      (λ _. named (codes "attachment") ext attachment-IsName)
      (λ h. named out ext (record {
        present =
            present_of out
              (or_split (is_empty out) (text_eq out (codes ".") || text_eq out (codes "/")) h).0;
        short = le;
        safe = safe;
      }))

-- A name in ASCII becomes one of one to 200 characters, none of them unsafe in a name of a file, so
-- without a slash; unless the extension that it has when it is cleaned is longer than 200 characters:
-- then the index of the cut is negative, and the function panics.
pub sanitize_filename-Named : (name : Text) → Named name (sanitize_filename name)
unfolding sanitize_filename
sanitize_filename-Named name =
    or_attachment-Named name (cap_if_long (cleaned name)) (cap_if_long-Cut name)
