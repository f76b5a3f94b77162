-- ===== src/Matrix/Downloads.antt =====
-- `downloadPlain` and `downloadEncrypted` of matrix/backend.go: what is in the file then.
use opencrow.Prelude.{
  ℕ, zero, suc, ap, ◌≤◌, ◌≡◌, refl, inl, inr, true, false, Option, none, some, [], ◌∷◌, ◌++◌, take,
  length, length-take, ltb, ◌==◌, arith, Bool-cases,
}
use opencrow.Prelude.Text.{Text, codes, text_eq, text_eq_refl, text_eq_iff}
use opencrow.Prelude.Fallible.{Fallible, value, error, Done}
use opencrow.Matrix.Types.{Library, EncryptedFile, Response}
use opencrow.Matrix.Files.{
  Files, remove, read, write, World, max_download_size, read_limited, attempt, copied, on_plain,
  stored, decrypted, download_encrypted, download_plain, download_to,
}

pub read-remove_self : (path : Text) (fs : Files) → read path (remove path fs) ≡ none
unfolding read remove
read-remove_self path [] = refl
read-remove_self path (f ∷ fs) = ground (arith, read-remove_self path fs)

read-write_self : (path bytes : Text) (fs : Files) → read path (write path bytes fs) ≡ some bytes
unfolding read write
read-write_self path bytes fs = rw (text_eq_refl path) refl

-- Nothing but the file at `dest` may differ.
unfoldable pub Untouched : Text → Files → Files → Type 0
Untouched dest fs fs' = (p : Text) → text_eq dest p ≡ false → read p fs' ≡ read p fs

pub Untouched-remove : (dest : Text) (fs : Files) → Untouched dest fs (remove dest fs)
unfolding Untouched read remove
Untouched-remove dest [] p ne = refl
Untouched-remove dest (f ∷ fs) p ne = ground (
  arith,
  Untouched-remove dest fs p ne,
  text_eq_iff f.0 dest,
  text_eq_iff f.0 p,
  text_eq_iff dest p,
)

pub Untouched-write : (dest bytes : Text) (fs : Files) → Untouched dest fs (write dest bytes fs)
unfolding Untouched write read
Untouched-write dest bytes fs p ne = rw ne (Untouched-remove dest fs p ne)

-- What a limited reader gives without an error is the whole, unless it is one byte too long.
take_whole : (n : ℕ) (bytes : Text) → length bytes ≤ n → take (suc n) bytes ≡ bytes
take_whole n [] h = refl
take_whole zero (x ∷ xs) h = absurd (omega arith)
take_whole (suc n) (x ∷ xs) h = ap (◌∷◌ x) (take_whole n xs (omega arith))

short_enough :
    (r : Response)
    → ltb max_download_size (length (take (suc max_download_size) r.bytes)) ≡ false
    → length r.bytes ≤ max_download_size
short_enough r h = ground (arith, length-take (suc max_download_size) r.bytes)

module _ (lib : Library) where
  -- What the body of the answer was, whole and not too long, or its decryption.
  pub data Content (w : World) : Option EncryptedFile → Text → Type 0 where
    plain :
        (r : Response)
        → w.response ≡ value r
        → r.status ≡ 200
        → length r.bytes ≤ max_download_size
        → Content w none r.bytes
    deciphered :
        (r : Response) (file : EncryptedFile) (bytes : Text)
        → w.response ≡ value r
        → length r.bytes ≤ max_download_size
        → lib.decrypt file r.bytes ≡ value bytes
        → Content w (some file) bytes

  -- After a download to `dest`: the file has the content, if no error is reported.
  pub record Download (w : World) (file : Option EncryptedFile) (dest : Text) (fs : Files)
      (out : Done × Files) : Type 0 where
    pub untouched : Untouched dest fs out.1
    pub content :
        out.0 ≡ value tt → (bytes : Text) × Content w file bytes × (read dest out.1 ≡ some bytes)

  failed_early :
      (w : World) (file : Option EncryptedFile) (dest e : Text) (fs : Files)
      → Download w file dest fs (error e, fs)
  unfolding Untouched
  failed_early w file dest e fs = record { untouched = λ p ne. refl; content = λ h. cc }

  finished :
      (w : World) (file : Option EncryptedFile) (dest bytes : Text) (fs : Files)
      → Content w file bytes
      → Download w file dest fs (value tt, write dest bytes fs)
  finished w file dest bytes fs c = record {
    untouched = Untouched-write dest bytes fs;
    content = λ _. (bytes, c, read-write_self dest bytes fs);
  }

  attempt-Download :
      {A : Type 0} (w : World) (file : Option EncryptedFile) (dest doing : Text) (fs : Files)
      (m : Fallible A) (k : A → Done × Files)
      → ((a : A) → m ≡ value a → Download w file dest fs (k a))
      → Download w file dest fs (attempt doing m fs k)
  attempt-Download w file dest doing fs (value a) k h = h a refl
  attempt-Download w file dest doing fs (error e) k h = failed_early w file dest (doing ++ e) fs

  copied-Download :
      (w : World) (dest : Text) (fs : Files) (r : Response) (broken : Option Text)
      → w.response ≡ value r
      → (r.status == 200) ≡ true
      → Download w none dest fs (copied dest fs (take (suc max_download_size) r.bytes, broken))
  unfolding copied
  copied-Download w dest fs r (some e) eq ok = record {
    untouched = Untouched-write dest (take (suc max_download_size) r.bytes) fs;
    content = λ h. cc;
  }
  copied-Download w dest fs r none eq ok =
      elim (Bool-cases (ltb max_download_size (length (take (suc max_download_size) r.bytes)))) [
        | inl long ↦ rw long (record { untouched = Untouched-remove dest fs; content = λ h. cc })
        | inr short ↦
            let le = short_enough r short in
            rw (short, take_whole max_download_size r.bytes le)
              (finished w none dest r.bytes fs (plain r eq (ground arith) le))
      ]

  on_plain-Download :
      (w : World) (dest : Text) (fs : Files) (r : Response)
      → w.response ≡ value r
      → Download w none dest fs (on_plain w dest fs r)
  unfolding on_plain
  on_plain-Download w dest fs r eq = elim (Bool-cases (r.status == 200)) [
    | inl ok ↦ rw ok (
        attempt-Download w none dest (codes "creating file: ") fs w.created
          (λ _. copied dest fs (read_limited (suc max_download_size) r))
          (λ _ _. copied-Download w dest fs r (read_limited (suc max_download_size) r).1 eq ok))
    | inr bad ↦ rw bad (failed_early w none dest _ fs)
  ]

  stored-Download :
      (w : World) (file : EncryptedFile) (dest bytes : Text) (fs : Files)
      → Content w (some file) bytes
      → Download w (some file) dest fs (stored w dest bytes fs)
  unfolding stored
  stored-Download w file dest bytes fs c =
      attempt-Download w (some file) dest (codes "writing decrypted file: ") fs w.created
        (λ _. (value tt, write dest bytes fs)) (λ _ _. finished w (some file) dest bytes fs c)

  decrypted-Download :
      (w : World) (file : EncryptedFile) (dest : Text) (fs : Files) (r : Response)
      (broken : Option Text)
      → w.response ≡ value r
      → Download w
          (some file)
          dest
          fs
          (decrypted lib w file dest fs (take (suc max_download_size) r.bytes, broken))
  unfolding decrypted
  decrypted-Download w file dest fs r (some e) eq = failed_early w (some file) dest _ fs
  decrypted-Download w file dest fs r none eq =
      elim (Bool-cases (ltb max_download_size (length (take (suc max_download_size) r.bytes)))) [
        | inl long ↦ rw long (failed_early w (some file) dest _ fs)
        | inr short ↦
            let le = short_enough r short in
            rw (short, take_whole max_download_size r.bytes le)
              (attempt-Download w (some file) dest (codes "decrypting media: ") fs
                (lib.decrypt file r.bytes) (λ plaintext. stored w dest plaintext fs)
                (λ bytes good.
                  stored-Download w file dest bytes fs (deciphered r file bytes eq le good)))
      ]

  pub download_to-Download :
      (w : World) (file : Option EncryptedFile) (dest : Text) (fs : Files)
      → Download w file dest fs (download_to lib w file dest fs)
  unfolding download_plain download_encrypted
  download_to-Download w none dest fs =
      attempt-Download w none dest (codes "downloading from matrix: ") fs w.response
        (on_plain w dest fs) (on_plain-Download w dest fs)
  download_to-Download w (some file) dest fs =
      attempt-Download w (some file) dest (codes "downloading encrypted media: ") fs w.response
        (λ r. decrypted lib w file dest fs (read_limited (suc max_download_size) r))
        (λ r. decrypted-Download w file dest fs r (read_limited (suc max_download_size) r).1)
