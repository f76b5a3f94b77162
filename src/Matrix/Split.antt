-- ===== src/Matrix/Split.antt =====
-- The chunks of `SendMessage` of matrix/backend.go.
use opencrow.Prelude.{
  ℕ, zero, suc, ◌≤◌, ◌<◌, ◌≡◌, refl, ◌∙◌, subst, sym, ap, ◌⊎◌, inl, inr, Option, none, some, List,
  [], ◌∷◌, ◌++◌, append_assoc, append-nil, length, take, drop, length-take, length-append,
  take-drop, ltb, ◌==◌, ==_iff, arith, Bool-cases,
}
use opencrow.Prelude.Text.{Text, newline}
use opencrow.Prelude.Fallible.{Fallible, value, error}
use opencrow.Matrix.Types.{Library}
use opencrow.Matrix.Chunks.{
  max_message_len, last_index_byte, index_or, cutoff_at, cutoff, next_chunk, Client, next_answer,
  chunk_event, send_message_event, send_chunks, send_message,
}

-- A newline at the end.
abbrev pub EndsLine : Text → Type 0
EndsLine chunk = (p : Text) × (chunk ≡ p ++ newline ∷ [])

take-take_le {ℓ} : {A : Type ℓ} (m n : ℕ) (xs : List A) → m ≤ n → take m (take n xs) ≡ take m xs
take-take_le zero n xs h = refl
take-take_le (suc m) zero xs h = absurd (omega arith)
take-take_le (suc m) (suc n) [] h = refl
take-take_le (suc m) (suc n) (x ∷ xs) h = ap (◌∷◌ x) (take-take_le m n xs (omega arith))

IsAt : Text → ℕ → ℕ → Type 0
IsAt xs ch i = (i < length xs) × (take (suc i) xs ≡ take i xs ++ ch ∷ [])

IsAt-index_or :
    (x ch i : ℕ) (xs : Text) (o : Option ℕ)
    → ((j : ℕ) → o ≡ some j → IsAt xs ch j)
    → index_or (x == ch) o ≡ some i
    → IsAt (x ∷ xs) ch i
unfolding IsAt
IsAt-index_or x ch zero xs (some j) k h = ground arith
IsAt-index_or x ch (suc i) xs (some j) k h =
    let at = k i (grind arith) in (omega arith, ap (◌∷◌ x) at.1)
IsAt-index_or x ch zero xs none k h = (omega arith, ground (arith, ==_iff x ch))
IsAt-index_or x ch (suc i) xs none k h = ground arith

last_index_byte-IsAt : (xs : Text) (ch i : ℕ) → last_index_byte xs ch ≡ some i → IsAt xs ch i
unfolding last_index_byte
last_index_byte-IsAt [] ch i h = cc
last_index_byte-IsAt (x ∷ xs) ch i h =
    IsAt-index_or x ch i xs (last_index_byte xs ch) (last_index_byte-IsAt xs ch) h

-- A chunk has a byte at least, and not more than fit one event.
abbrev pub Fits : Text → Type 0
Fits chunk = (1 ≤ length chunk) × (length chunk ≤ max_message_len)

-- A chunk that something follows is a full one or ends a line.
abbrev pub Follows : Text → Text → Type 0
Follows chunk rest = (rest ≡ []) ⊎ (length chunk ≡ max_message_len) ⊎ EndsLine chunk

IsCut : Text → ℕ → Type 0
IsCut text n = (1 ≤ n) × (n ≤ max_message_len) × ((n ≡ max_message_len) ⊎ EndsLine (take n text))

cutoff_at-IsCut :
    (text : Text) (o : Option ℕ)
    → ((j : ℕ) → o ≡ some j → IsAt (take max_message_len text) newline j)
    → IsCut text (cutoff_at o)
unfolding IsCut IsAt
cutoff_at-IsCut text none k = (omega arith, omega arith, inl refl)
cutoff_at-IsCut text (some zero) k = (omega arith, omega arith, inl refl)
cutoff_at-IsCut text (some (suc i)) k =
    let at = k (suc i) refl in
    let short : suc i < max_message_len = omega (arith, at.0, length-take max_message_len text) in
    let ends : take (suc (suc i)) text ≡ take (suc i) text ++ newline ∷ [] =
      rw
        (
          ← take-take_le (suc (suc i)) max_message_len text (omega arith),
          ← take-take_le (suc i) max_message_len text (omega arith),
        )
        at.1 in
    (omega arith, omega arith, inr (take (suc i) text, ends))

record Chunked (text : Text) (cut : Text × Text) : Type 0 where
  whole : cut.0 ++ cut.1 ≡ text
  fits : Fits cut.0
  follows : Follows cut.0 cut.1

cut-Chunked :
    (text : Text) (n : ℕ)
    → max_message_len < length text
    → IsCut text n
    → Chunked text (take n text, drop n text)
unfolding IsCut
cut-Chunked text n long cut = record {
  whole = take-drop n text;
  fits = (omega (arith, length-take n text), omega (arith, length-take n text));
  follows =
      inr (elim cut.2 [ inl e ↦ inl (omega (arith, length-take n text)) | inr line ↦ inr line ]);
}

next_chunk-Chunked : (text : Text) → 1 ≤ length text → Chunked text (next_chunk text)
unfolding next_chunk cutoff
next_chunk-Chunked text h = elim (Bool-cases (ltb max_message_len (length text))) [
  | inl e ↦ rw e (
      cut-Chunked text (cutoff text) (ground arith) (
        cutoff_at-IsCut text (last_index_byte (take max_message_len text) newline)
          (last_index_byte-IsAt (take max_message_len text) newline)))
  | inr e ↦ rw e (record { whole = append-nil text; fits = (h, ground arith); follows = inl refl })
]

shorter : (text : Text) (cut : Text × Text) → Chunked text cut → length cut.1 < length text
shorter text cut h = omega (arith, h.fits, length-append cut.0 cut.1, ap length h.whole)

-- The texts one after the other.
abbrev pub concat : List Text → Text
concat [] = []
concat (k ∷ ks) = k ++ concat ks

module _ (lib : Library) (room_id : Text) where
  abbrev pub after : Text → Text → Client lib → Client lib
  after reply chunk c = (send_message_event lib (chunk_event lib room_id reply chunk) c).1

  -- How the chunks of a text went out: each is an event, in their order and the first alone in
  -- reply, up to the first that the server refuses. `unsent` is what is behind that one, and `out` is
  -- the id of the last event that was accepted, with the state of the client.
  pub data Delivery : Text → Text → Client lib → List Text → Text → Text × Client lib → Type 0 where
    done : {reply last : Text} {c : Client lib} → Delivery reply last c [] [] (last, c)
    refused :
        {reply last : Text} {c : Client lib} (chunk unsent e : Text)
        → Fits chunk
        → Follows chunk unsent
        → next_answer lib c.answers ≡ error e
        → Delivery reply last c (chunk ∷ []) unsent (last, after reply chunk c)
    accepted :
        {reply last : Text} {c : Client lib} {chunks : List Text} {unsent : Text}
        {out : Text × Client lib} (chunk event_id : Text)
        → Fits chunk
        → Follows chunk (concat chunks ++ unsent)
        → next_answer lib c.answers ≡ value event_id
        → Delivery [] event_id (after reply chunk c) chunks unsent out
        → Delivery reply last c (chunk ∷ chunks) unsent out

  -- A delivery of the whole of `text`.
  pub record Delivered (reply last text : Text) (c : Client lib) (out : Text × Client lib)
      : Type 0 where
    pub chunks : List Text
    pub unsent : Text
    pub whole : concat chunks ++ unsent ≡ text
    pub delivery : Delivery reply last c chunks unsent out

  -- The round for the chunk that is cut off, given the server's answer.
  round-Delivered :
      (n : ℕ) (text reply last : Text) (c : Client lib) (cut : Text × Text)
      → Chunked text cut
      → ((event_id : Text) (c' : Client lib)
          → Delivered [] event_id cut.1 c' (send_chunks lib n room_id cut.1 [] event_id c'))
      → (answer : Fallible Text) → next_answer lib c.answers ≡ answer
      → Delivered reply last text c (elim answer [
        | error e ↦ (last, after reply cut.0 c)
        | value event_id ↦ send_chunks lib n room_id cut.1 [] event_id (after reply cut.0 c)
      ])
  round-Delivered n text reply last c cut h rounds (error e) eq = record {
    chunks = cut.0 ∷ [];
    unsent = cut.1;
    whole = ap (λ t. t ++ cut.1) (append-nil cut.0) ∙ h.whole;
    delivery = refused cut.0 cut.1 e h.fits h.follows eq;
  }
  round-Delivered n text reply last c cut h rounds (value event_id) eq =
      let later = rounds event_id (after reply cut.0 c) in
      record {
        chunks = cut.0 ∷ later.chunks;
        unsent = later.unsent;
        whole =
            append_assoc cut.0 (concat later.chunks) later.unsent
            ∙ (ap (◌++◌ cut.0) later.whole ∙ h.whole);
        delivery =
            accepted cut.0 event_id h.fits (subst (Follows cut.0) (sym later.whole) h.follows) eq
              later.delivery;
      }

  send_chunks-Delivered :
      (n : ℕ) (text reply last : Text) (c : Client lib)
      → length text ≤ n
      → Delivered reply last text c (send_chunks lib n room_id text reply last c)
  unfolding send_chunks
  send_chunks-Delivered zero [] reply last c h = record {
    chunks = [];
    unsent = [];
    whole = refl;
    delivery = done;
  }
  send_chunks-Delivered (suc n) [] reply last c h = record {
    chunks = [];
    unsent = [];
    whole = refl;
    delivery = done;
  }
  send_chunks-Delivered zero (ch ∷ text) reply last c h = absurd (omega arith)
  send_chunks-Delivered (suc n) (ch ∷ text) reply last c h =
      let cut = next_chunk-Chunked (ch ∷ text) (omega arith) in
      round-Delivered n (ch ∷ text) reply last c (next_chunk (ch ∷ text)) cut
        (λ event_id c'.
          send_chunks-Delivered n (next_chunk (ch ∷ text)).1 [] event_id c'
            (omega (arith, shorter (ch ∷ text) (next_chunk (ch ∷ text)) cut)))
        (next_answer lib c.answers) refl

  -- A text is sent whole, whatever it is: the chunks that were tried and what was left of the text
  -- behind a chunk that was refused make up the text, each chunk is of one to 30000 bytes, one that
  -- something follows has 30000 or ends a line, the first alone is a reply, nothing is left where no
  -- chunk was refused, and the result is the id of the last event that was accepted.
  pub send_message-Delivered :
      (text reply : Text) (c : Client lib)
      → Delivered reply [] text c (send_message lib room_id text reply c)
  unfolding send_message
  send_message-Delivered text reply c =
      send_chunks-Delivered (length text) text reply [] c (omega arith)
