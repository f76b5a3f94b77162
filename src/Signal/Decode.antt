-- ===== src/Signal/Decode.antt =====
-- signal/decode.go: from what signal-cli sends to a message.
use opencrow.Prelude.{◌||◌, List, [], ◌∷◌, ◌++◌, Option, none, some, if◌then◌else◌}
use opencrow.Prelude.Text.{Text, codes, is_empty, newline}
use opencrow.Prelude.Strings.{trim_space, join}
use opencrow.Prelude.Fallible.{Fallible, value, ◌>>=◌, wrap}
use opencrow.Conversation.{attachment_text}
use opencrow.App.Messages.{Message}
use opencrow.Signal.Types.{Library, ReceiveAttachment, ReceiveDataMsg, ReceiveEnvelope, ReceiveLine}

abbrev pub group_conversation_prefix : Text
group_conversation_prefix = codes "signal-group:"

unfoldable pub first_non_empty : List Text → Text
first_non_empty [] = []
first_non_empty (v ∷ vs) = if is_empty (trim_space v) then first_non_empty vs else v

abbrev pub or_text : Text → Text → Text
or_text v w = if is_empty v then w else v

abbrev pub or_empty : Option Text → Text
or_empty none = []
or_empty (some t) = t

module _ (lib : Library) where
  abbrev pub DataMsg : Type 0
  DataMsg = ReceiveDataMsg lib.Int64

  abbrev pub Envelope : Type 0
  Envelope = ReceiveEnvelope lib.Int64

  abbrev pub Line : Type 0
  Line = ReceiveLine lib.Int64

  abbrev pub sender_of : Envelope → Text
  sender_of env = first_non_empty (env.source_number ∷ env.source_uuid ∷ env.source ∷ [])

  abbrev pub conversation_of : Text → Option Text → Text
  conversation_of sender none = sender
  conversation_of sender (some group_id) =
      if is_empty group_id then sender else group_conversation_prefix ++ group_id

  unfoldable pub resolve_attachment_path : Text → Text → Text
  resolve_attachment_path path config_dir =
      let path' = trim_space path in
      if is_empty path'
      then []
      else if lib.is_abs path' || is_empty config_dir
      then path'
      else lib.join_path config_dir path'

  -- The caption, the name of the file, or what else there is.
  abbrev pub caption_of : ReceiveAttachment lib.Int64 → Text
  caption_of a =
      let filename = trim_space a.filename in
      or_text (trim_space a.caption) (
        or_text (if is_empty filename then [] else lib.base filename)
          (first_non_empty (a.content_type ∷ a.id ∷ codes "attachment" ∷ [])))

  unfoldable pub attachment_lines : Text → List (ReceiveAttachment lib.Int64) → List Text
  unfolding resolve_attachment_path first_non_empty
  attachment_lines config_dir [] = []
  attachment_lines config_dir (a ∷ as') =
      attachment_text (caption_of a) (resolve_attachment_path a.filename config_dir)
      ∷ attachment_lines config_dir as'

  unfoldable pub format_attachment_text : List (ReceiveAttachment lib.Int64) → Text → Text
  unfolding attachment_lines
  format_attachment_text attachments config_dir =
      join (newline ∷ []) (attachment_lines config_dir attachments)

  unfoldable pub text_of : DataMsg → Text → Text
  text_of msg config_dir =
      let text = trim_space msg.message in
      let attachments = format_attachment_text msg.attachments config_dir in
      if is_empty attachments
      then text
      else if is_empty text
      then attachments
      else text ++ newline ∷ attachments

  abbrev pub formatted : lib.Int64 → Text
  formatted n = if lib.is_zero n then [] else lib.format_int n

  abbrev pub quoted_id : Option lib.Int64 → Text
  quoted_id none = []
  quoted_id (some id) = formatted id

  -- No message where the sender or the text is missing.
  unfoldable pub message_of : Envelope → DataMsg → Text → Option Message
  message_of env msg config_dir =
      let sender = sender_of env in
      let text = text_of msg config_dir in
      let timestamp = if lib.is_zero msg.timestamp then env.timestamp else msg.timestamp in
      if is_empty sender || is_empty text
      then none
      else some (record {
        conversation_id = conversation_of sender msg.group_info;
        sender_id = sender;
        text = text;
        message_id = formatted timestamp;
        reply_to_id = quoted_id msg.quote;
      })

  abbrev pub message_in : Option Envelope → Text → Option Message
  message_in none config_dir = none
  message_in (some env) config_dir = elim env.data_message [
    | none ↦ none
    | some msg ↦ message_of env msg config_dir
  ]

  unfoldable pub decode_receive_message : Text → Text → Fallible (Option Message)
  decode_receive_message payload config_dir =
      wrap (λ e. codes "decoding signal receive payload: " ++ e) (lib.receive_line payload)
      >>= λ line. value (message_in line.envelope config_dir)

  -- What is within a wrapped payload.
  abbrev pub decode_inner : Text → Option Line → Fallible (Option Message)
  decode_inner config_dir none = value none
  decode_inner config_dir (some line) =
      wrap (λ e. codes "encoding wrapped receive payload: " ++ e) (lib.marshal line) >>= λ inner.
      decode_receive_message inner config_dir

  abbrev pub or_wrapped : Text → Text → Option Message → Fallible (Option Message)
  or_wrapped params config_dir (some msg) = value (some msg)
  or_wrapped params config_dir none =
      wrap (λ e. codes "decoding wrapped signal receive payload: " ++ e) (lib.wrapped params)
      >>= decode_inner config_dir

  unfoldable pub decode_receive_notification : Text → Text → Fallible (Option Message)
  decode_receive_notification params config_dir =
      decode_receive_message params config_dir >>= or_wrapped params config_dir
