-- ===== src/Matrix/Chunks.antt =====
-- matrix/backend.go: `SendMessage`, which sends a text in chunks. A text is here its bytes.
use opencrow.Prelude.{
  ℕ, zero, suc, Bool, Option, none, some, List, [], ◌∷◌, ◌++◌, length, drop, take, ltb, ◌==◌,
  if◌then◌else◌,
}
use opencrow.Prelude.Text.{Text, codes, is_empty, newline}
use opencrow.Prelude.Fallible.{Fallible, value, error}
use opencrow.Matrix.Types.{Library}

abbrev pub max_message_len : ℕ
max_message_len = 30000

abbrev pub index_or : Bool → Option ℕ → Option ℕ
index_or here (some i) = some (suc i)
index_or here none = if here then some 0 else none

-- `strings.LastIndexByte`, none for its -1
unfoldable pub last_index_byte : Text → ℕ → Option ℕ
last_index_byte [] ch = none
last_index_byte (x ∷ xs) ch = index_or (x == ch) (last_index_byte xs ch)

abbrev pub cutoff_at : Option ℕ → ℕ
cutoff_at none = max_message_len
cutoff_at (some zero) = max_message_len
cutoff_at (some (suc i)) = suc (suc i)

-- The number of bytes that the next chunk takes of a text that is too long for one.
unfoldable pub cutoff : Text → ℕ
unfolding last_index_byte
cutoff text = cutoff_at (last_index_byte (take max_message_len text) newline)

-- The next chunk and the text that is left.
unfoldable pub next_chunk : Text → Text × Text
next_chunk text =
    if ltb max_message_len (length text)
    then (take (cutoff text) text, drop (cutoff text) text)
    else (text, [])

module _ (lib : Library) where
  -- An event of type `m.room.message` that is sent, with the event that it replies to.
  pub record SentEvent : Type 0 where
    pub room_id : Text
    pub content : lib.Content
    pub relates_to : Option Text

  -- The homeserver as `SendMessageEvent` meets it: the events it was given, and its next answers.
  pub record Client : Type 0 where
    pub events : List SentEvent
    pub answers : List (Fallible Text)

  abbrev pub next_answer : List (Fallible Text) → Fallible Text
  next_answer [] = error (codes "no connection")
  next_answer (r ∷ rs) = r

  abbrev pub later_answers : List (Fallible Text) → List (Fallible Text)
  later_answers [] = []
  later_answers (r ∷ rs) = rs

  unfoldable pub send_message_event : SentEvent → Client → Fallible Text × Client
  send_message_event e c = (
    next_answer c.answers,
    record c { events = c.events ++ e ∷ []; answers = later_answers c.answers },
  )

  abbrev pub reply_relation : Text → Option Text
  reply_relation reply_to_id = if is_empty reply_to_id then none else some reply_to_id

  -- The chunk as an event; `reply_to_id` is empty for all chunks but the first.
  unfoldable pub chunk_event : Text → Text → Text → SentEvent
  chunk_event room_id reply_to_id chunk = record {
    room_id = room_id;
    content = lib.render_markdown chunk;
    relates_to = reply_relation reply_to_id;
  }

  -- The loop, with `n` rounds at most. After the first chunk there is no reply any more.
  unfoldable pub send_chunks : ℕ → Text → Text → Text → Text → Client → Text × Client
  unfolding next_chunk send_message_event chunk_event
  send_chunks zero room_id text reply_to_id last_event_id c = (last_event_id, c)
  send_chunks (suc n) room_id [] reply_to_id last_event_id c = (last_event_id, c)
  send_chunks (suc n) room_id (ch ∷ text) reply_to_id last_event_id c =
      let (chunk, rest) = next_chunk (ch ∷ text) in
      let (answer, c') = send_message_event (chunk_event room_id reply_to_id chunk) c in
      elim answer [
        | error e ↦ (last_event_id, c')
        | value event_id ↦ send_chunks n room_id rest [] event_id c'
      ]

  -- The id of the last event that was sent, empty where none was. Each chunk has a byte at least, so
  -- there are no more rounds than bytes.
  unfoldable pub send_message : Text → Text → Text → Client → Text × Client
  unfolding send_chunks
  send_message conversation_id text reply_to_id c =
      send_chunks (length text) conversation_id text reply_to_id [] c
