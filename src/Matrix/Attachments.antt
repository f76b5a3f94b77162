-- ===== src/Matrix/Attachments.antt =====
-- `downloadAttachment` of matrix/backend.go: what is left in the files.
use opencrow.Prelude.{
  ◌≡◌, refl, sym, ◌∙◌, subst, inl, inr, false, Option, none, some, [], Bool-cases,
}
use opencrow.Prelude.Text.{Text, codes, text_eq, text_eq_sound, is_empty}
use opencrow.Prelude.Fallible.{Fallible, value, error, Done}
use opencrow.Matrix.Types.{Library, EncryptedFile, MessageContent}
use opencrow.Matrix.Files.{
  Files, remove, read, write, World, attachment_url, attachment_dest_path, attempt, temp_pattern,
  closed_at, or_else, download_to, kept, on_dest, download_attachment,
}
use opencrow.Matrix.Downloads.{
  read-remove_self, Untouched, Untouched-remove, Untouched-write, Content, Download,
  download_to-Download,
}

Untouched-same : (dest : Text) (fs : Files) → Untouched dest fs fs
unfolding Untouched
Untouched-same dest fs p ne = refl

-- A file that was made and is gone again.
read-remove_fresh :
    (dest : Text) (fs fs' : Files)
    → read dest fs ≡ none
    → Untouched dest fs fs'
    → (p : Text) → read p (remove dest fs') ≡ read p fs
unfolding Untouched
read-remove_fresh dest fs fs' fresh same p = elim (Bool-cases (text_eq dest p)) [
  | inl eq ↦
      subst (λ q. read q (remove dest fs') ≡ read q fs) (text_eq_sound dest p eq)
        (read-remove_self dest fs' ∙ sym fresh)
  | inr ne ↦ Untouched-remove dest fs' p ne ∙ same p ne
]

module _ (lib : Library) where
  -- What is left of a download in the files `fs`: with an error they are as they were; otherwise a
  -- file that was not there holds the content, and the others are as they were.
  pub data Left (w : World) (file : Option EncryptedFile) (fs : Files)
      : Fallible Text × Files → Type 0 where
    unchanged :
        (e : Text) (fs' : Files)
        → ((p : Text) → read p fs' ≡ read p fs)
        → Left w file fs (error e, fs')
    downloaded :
        (dest bytes : Text) (fs' : Files)
        → read dest fs ≡ none
        → Content lib w file bytes
        → read dest fs' ≡ some bytes
        → ((p : Text) → text_eq dest p ≡ false → read p fs' ≡ read p fs)
        → Left w file fs (value dest, fs')

  kept-Left :
      (w : World) (file : Option EncryptedFile) (dest : Text) (fs : Files) (out : Done × Files)
      → read dest fs ≡ none
      → Download lib w file dest (write dest [] fs) out
      → Left w file fs (kept dest out)
  unfolding Untouched
  kept-Left w file dest fs (value _, fs') fresh d =
      let (bytes, content, there) = d.content refl in
      downloaded dest bytes fs' fresh content there
        (λ p ne. d.untouched p ne ∙ Untouched-write dest [] fs p ne)
  kept-Left w file dest fs (error e, fs') fresh d = unchanged e (remove dest fs') (
      read-remove_fresh dest fs fs' fresh
        (λ p ne. d.untouched p ne ∙ Untouched-write dest [] fs p ne))

  -- The names of `CreateTemp` are free.
  abbrev pub MakesFresh : World → Files → Type 0
  MakesFresh w fs =
      (dir pattern path : Text) → w.temp_name dir pattern ≡ value path → read path fs ≡ none

  closed_at-Left :
      (w : World) (file : Option EncryptedFile) (path : Text) (fs : Files) (closed : Done)
      → read path fs ≡ none
      → Left w file fs (on_dest lib w file (closed_at lib path fs closed))
  unfolding closed_at
  closed_at-Left w file path fs (value _) fresh =
      kept-Left w file path fs (download_to lib w file path (write path [] fs)) fresh
        (download_to-Download lib w file path (write path [] fs))
  closed_at-Left w file path fs (error e) fresh =
      unchanged _ (remove path fs) (read-remove_fresh path fs fs fresh (Untouched-same path fs))

  created_at-Left :
      (w : World) (file : Option EncryptedFile) (fs : Files) (dir pattern : Text)
      (name : Fallible Text)
      → w.temp_name dir pattern ≡ name
      → MakesFresh w fs
      → Left w file fs (
          on_dest lib w file (
            attempt
              (codes "creating attachment file: ")
              name
              fs
              (λ path. closed_at lib path fs w.closed)))
  created_at-Left w file fs dir pattern (value path) eq fresh =
      closed_at-Left w file path fs w.closed (fresh dir pattern path eq)
  created_at-Left w file fs dir pattern (error e) eq fresh = unchanged _ fs (λ p. refl)

  dest-Left :
      (w : World) (file : Option EncryptedFile) (base_dir : Text) (msg : MessageContent)
      (fs : Files) (made : Done)
      → MakesFresh w fs
      → Left w file fs (
          on_dest lib w file
            (attachment_dest_path lib (record w { made_dir = made }) base_dir msg fs))
  unfolding attachment_dest_path
  dest-Left w file base_dir msg fs (value _) fresh =
      created_at-Left w file fs (lib.path_join base_dir (codes "attachments"))
        (temp_pattern lib
          (lib.file_base (or_else (or_else msg.file_name msg.body) (codes "image.png"))))
        _ refl fresh
  dest-Left w file base_dir msg fs (error e) fresh = unchanged _ fs (λ p. refl)

  -- If names of temporary files are free, and the removal of one does not fail, a download either reports an error and leaves the files as
  -- they were, or it gives the path of a file that was not there, which holds the whole body of the
  -- answer, of 50 MiB at most and decrypted where the content was encrypted, the others being as they
  -- were.
  pub download_attachment-Left :
      (w : World) (base_dir : Text) (msg : MessageContent) (fs : Files)
      → MakesFresh w fs
      → Left w (attachment_url msg).1 fs (download_attachment lib w base_dir msg fs)
  unfolding download_attachment
  download_attachment-Left w base_dir msg fs fresh =
      elim (Bool-cases (is_empty (attachment_url msg).0)) [
        | inl e ↦ rw e (unchanged _ fs (λ p. refl))
        | inr e ↦ rw e (parsed-Left (lib.parse_uri (attachment_url msg).0))
      ]
    where
      parsed-Left :
          (uri : Fallible lib.Uri)
          → Left w (attachment_url msg).1 fs (
              attempt (codes "parsing mxc URL: ") uri fs λ _.
                on_dest lib w (attachment_url msg).1 (attachment_dest_path lib w base_dir msg fs))
      parsed-Left (value _) = dest-Left w (attachment_url msg).1 base_dir msg fs w.made_dir fresh
      parsed-Left (error e) = unchanged _ fs (λ p. refl)
