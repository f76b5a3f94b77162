-- ===== src/Signal/Types.antt =====
-- What signal-cli sends, as signal/decode.go reads it, and what the code calls of Go's libraries.
use opencrow.Prelude.{Bool, List, Option}
use opencrow.Prelude.Text.{Text}
use opencrow.Prelude.Fallible.{Fallible}

module _ (Int64 : Type 0) where
  pub record ReceiveAttachment : Type 0 where
    pub filename : Text
    pub caption : Text
    pub content_type : Text
    pub id : Text

  -- `quote` and `group_info` are the id within, where there is one.
  pub record ReceiveDataMsg : Type 0 where
    pub timestamp : Int64
    pub message : Text
    pub quote : Option Int64
    pub group_info : Option Text
    pub attachments : List ReceiveAttachment

  pub record ReceiveEnvelope : Type 0 where
    pub source : Text
    pub source_number : Text
    pub source_uuid : Text
    pub timestamp : Int64
    pub data_message : Option ReceiveDataMsg

  pub record ReceiveLine : Type 0 where
    pub envelope : Option ReceiveEnvelope

-- Integers are opaque: the code compares them with 0, prints and parses them.
pub record Library : Type 1 where
  pub Int64 : Type 0
  pub is_zero : Int64 → Bool
  pub format_int : Int64 → Text
  pub parse_int : Text → Option Int64
  pub base : Text → Text
  pub is_abs : Text → Bool
  pub join_path : Text → Text → Text
  pub receive_line : Text → Fallible (ReceiveLine Int64)  -- `json.Unmarshal`
  pub wrapped : Text → Fallible (Option (ReceiveLine Int64))
  pub marshal : ReceiveLine Int64 → Fallible Text
