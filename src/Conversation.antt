-- ===== src/Conversation.antt =====
-- backend/util.go: what every backend does with conversations, attachments and senders.
pub mod Claims
pub mod Markers
use opencrow.Prelude.{Bool, true, false, not, ◌||◌, List, [], ◌∷◌, ◌++◌, if◌then◌else◌, ◌==◌, ℕ}
use opencrow.Prelude.Text.{Text, codes, text_eq, is_empty, newline}
use opencrow.Prelude.Strings.{trim_space, replace_all}

-- The id of the active conversation, empty for none.
abbrev pub ActiveConversation : Type 0
ActiveConversation = Text

-- Whether `id` is now the active one, and the state.
unfoldable pub claim : Text → ActiveConversation → Bool × ActiveConversation
claim id a =
    if is_empty id then (false, a) else if is_empty a then (true, id) else (text_eq a id, a)

unfoldable pub reset : Text → ActiveConversation → ActiveConversation
reset id a = if text_eq a id then [] else a

abbrev pub carriage_return : ℕ
carriage_return = 13

-- The replacer of `sanitizeLine` on one character.
unfoldable pub space_for : ℕ → ℕ
space_for ch = if ch == carriage_return || ch == newline then 32 else ch

unfoldable pub sanitize_line : Text → Text
sanitize_line s = trim_space (replace_all space_for s)

abbrev pub caption_or_none : Text → Text
caption_or_none caption = if is_empty caption then codes "no caption" else caption

abbrev pub marker : Text → Text → Text
marker caption path =
    if is_empty path
    then codes "[User sent a file (" ++ (caption ++ codes ")]")
    else codes "[User sent a file ("
      ++ (caption ++ (codes "): " ++ (path ++ codes "]\nUse the read tool to view it.")))

unfoldable pub attachment_text : Text → Text → Text
attachment_text caption path = marker (caption_or_none (sanitize_line caption)) (sanitize_line path)

unfoldable pub is_member : Text → List Text → Bool
is_member id [] = false
is_member id (x ∷ xs) = text_eq x id || is_member id xs

abbrev pub is_nil {ℓ} : {A : Type ℓ} → List A → Bool
is_nil [] = true
is_nil (x ∷ xs) = false

-- The allowlist as the list of its keys; the empty one admits everyone.
unfoldable pub is_allowed : List Text → Text → Bool
is_allowed allowlist sender_id = if is_nil allowlist then true else is_member sender_id allowlist
