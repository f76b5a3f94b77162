-- ===== src/App/Extraction.antt =====
-- `extractSendFiles` of app.go on the replies that a model writes.
use opencrow.Prelude.{
  ℕ, zero, suc, ◌-◌, ◌≤◌, ◌≡◌, refl, sym, ap, ◌∙◌, inl, inr, Bool, true, false, List, [], ◌∷◌, ◌++◌,
  some, arith, length, length-append, exists, All, if◌then◌else◌, ◌==◌, append_assoc, Bool-cases,
}
use opencrow.Prelude.Text.{Text, codes, is_empty}
use opencrow.Prelude.Strings.{trim_space}
use opencrow.Conversation.{is_nil}
use opencrow.App.Files.{
  open_tag, close_tag, skip_blanks, drop_blanks, is_blank, is_newline, find_close, match_here, scan,
  trimmed_paths, extract_send_files,
}

-- A piece of a reply: words, or the path of a file between tags.
pub data Piece : Type 0 where
  words file : Text → Piece

abbrev pub rendered : List Piece → Text
rendered [] = []
rendered (words t ∷ ps) = t ++ rendered ps
rendered (file p ∷ ps) = open_tag ++ (p ++ (close_tag ++ rendered ps))

abbrev pub words_of : List Piece → Text
words_of [] = []
words_of (words t ∷ ps) = t ++ words_of ps
words_of (file p ∷ ps) = words_of ps

abbrev pub files_of : List Piece → List Text
files_of [] = []
files_of (words t ∷ ps) = files_of ps
files_of (file p ∷ ps) = p ∷ files_of ps

abbrev pub is_angle : ℕ → Bool
is_angle ch = ch == 60

-- No tag begins in words; a path is not empty, has no white space at its ends and no line feed.
abbrev pub IsPlain : Piece → Type 0
IsPlain (words t) = exists is_angle t ≡ false
IsPlain (file p) =
    (exists is_angle p ≡ false)
    × (exists is_newline p ≡ false)
    × (is_empty p ≡ false)
    × (skip_blanks p ≡ p)
    × (drop_blanks p ≡ p)
    × (trim_space p ≡ p)

scan-words :
    (t rest : Text)
    → exists is_angle t ≡ false
    → scan 0 (t ++ rest) ≡ (t ++ (scan 0 rest).0, (scan 0 rest).1)
unfolding scan
scan-words [] rest h = refl
scan-words (ch ∷ t) rest h = elim (Bool-cases (ch == 60)) [
  | inl e ↦ absurd (ground arith)
  | inr e ↦ rw (e, scan-words t rest (rw e at h)) refl
]

scan-skipped : (q rest : Text) (n : ℕ) → n ≡ length q → scan n (q ++ rest) ≡ scan 0 rest
unfolding scan
scan-skipped [] rest n h = ap (λ k. scan k rest) h
scan-skipped (ch ∷ q) rest zero h = absurd (omega arith)
scan-skipped (ch ∷ q) rest (suc n) h = scan-skipped q rest n (omega arith)

length-skip_blanks : (s : Text) → length (skip_blanks s) ≤ length s
unfolding skip_blanks
length-skip_blanks [] = omega arith
length-skip_blanks (ch ∷ s) = ground (arith, length-skip_blanks s)

skip_blanks-append :
    (p rest : Text) → is_empty p ≡ false → skip_blanks p ≡ p → skip_blanks (p ++ rest) ≡ p ++ rest
unfolding skip_blanks
skip_blanks-append [] rest ne h = cc
skip_blanks-append (ch ∷ p) rest ne h = elim (Bool-cases (is_blank ch)) [
  | inl e ↦ absurd (
      omega (
        arith,
        ap (length {0}) (let g : skip_blanks p ≡ ch ∷ p = rw e at h in g),
        length-skip_blanks p,
      ))
  | inr e ↦ rw e refl
]

find_close-append :
    (p rest : Text)
    → exists is_angle p ≡ false
    → find_close (p ++ (close_tag ++ rest)) ≡ some (p, rest)
unfolding find_close
find_close-append [] rest h = refl
find_close-append (ch ∷ p) rest h = elim (Bool-cases (ch == 60)) [
  | inl e ↦ absurd (ground arith)
  | inr e ↦ rw (e, find_close-append p rest (rw e at h)) refl
]

match_here-file :
    (p rest : Text)
    → IsPlain (file p)
    → match_here (open_tag ++ (p ++ (close_tag ++ rest))) ≡ some (p, rest)
unfolding match_here
match_here-file p rest (angle, line, ne, l, r, t) =
    rw (skip_blanks-append p (close_tag ++ rest) ne l, find_close-append p rest angle, r, line) refl

scan-match :
    (ch : ℕ) (s q path rest : Text)
    → match_here (ch ∷ s) ≡ some (path, rest)
    → s ≡ q ++ rest
    → scan 0 (ch ∷ s) ≡ ((scan 0 rest).0, path ∷ (scan 0 rest).1)
unfolding scan
scan-match ch s q path rest m e = rw m (
    ap (λ r. (r.0, path ∷ r.1))
      (ap (λ s. scan (length s - length rest) s) e
        ∙ scan-skipped q rest (length (q ++ rest) - length rest)
            (omega (arith, length-append q rest))))

scan-file :
    (p rest : Text)
    → IsPlain (file p)
    → scan 0 (open_tag ++ (p ++ (close_tag ++ rest))) ≡ ((scan 0 rest).0, p ∷ (scan 0 rest).1)
scan-file p rest h =
    scan-match 60 (codes "sendfile>" ++ (p ++ (close_tag ++ rest)))
      (codes "sendfile>" ++ (p ++ close_tag)) p rest (match_here-file p rest h)
      (ap (λ s. codes "sendfile>" ++ s) (sym (append_assoc p close_tag rest)))

scan-rendered :
    (ps : List Piece) → All IsPlain ps → scan 0 (rendered ps) ≡ (words_of ps, files_of ps)
unfolding scan
scan-rendered [] h = refl
scan-rendered (words t ∷ ps) h =
    scan-words t (rendered ps) h.0 ∙ ap (λ r. (t ++ r.0, r.1)) (scan-rendered ps h.1)
scan-rendered (file p ∷ ps) h =
    scan-file p (rendered ps) h.0 ∙ ap (λ r. (r.0, p ∷ r.1)) (scan-rendered ps h.1)

trimmed_paths-files_of :
    (ps : List Piece) → All IsPlain ps → trimmed_paths (files_of ps) ≡ files_of ps
unfolding trimmed_paths
trimmed_paths-files_of [] h = refl
trimmed_paths-files_of (words t ∷ ps) h = trimmed_paths-files_of ps h.1
trimmed_paths-files_of (file p ∷ ps) h =
    let (angle, line, ne, l, r, t) = h.0 in rw (t, ne, trimmed_paths-files_of ps h.1) refl

rendered-words :
    (ps : List Piece)
    → is_nil (files_of ps) ≡ true
    → (rendered ps ≡ words_of ps) × (files_of ps ≡ [])
rendered-words [] h = (refl, refl)
rendered-words (words t ∷ ps) h = let (r, f) = rendered-words ps h in (ap (λ s. t ++ s) r, f)
rendered-words (file p ∷ ps) h = cc

-- A reply that is written as words and files, each file's path between tags, gives back its files in
-- their order and its words, trimmed where there is a file and untouched where there is none, if no
-- angle bracket opens in the words or the paths and no path is empty, has white space at its ends or
-- a line feed.
pub extract_send_files-rendered :
    (ps : List Piece)
    → All IsPlain ps
    → extract_send_files (rendered ps)
      ≡ (if is_nil (files_of ps) then words_of ps else trim_space (words_of ps), files_of ps)
unfolding extract_send_files
extract_send_files-rendered ps h =
    rw (scan-rendered ps h) (elim (Bool-cases (is_nil (files_of ps))) [
      | inl e ↦ let (r, f) = rendered-words ps e in rw (e, r, f) refl
      | inr e ↦ rw (e, trimmed_paths-files_of ps h) refl
    ])
