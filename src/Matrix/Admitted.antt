-- ===== src/Matrix/Admitted.antt =====
-- The messages that `filterMessage` of matrix/backend.go lets through.
use opencrow.Prelude.{◌≡◌, refl, not, true, false, if_cases, not_undo, Option, none, some}
use opencrow.Prelude.Text.{Text, text_eq}
use opencrow.Conversation.{is_allowed}
use opencrow.Matrix.Types.{Library, MessageContent, MessageEvent}
use opencrow.Matrix.Rooms.{Backend, is_handled_type, of_handled_type, filter_message}

module _ (lib : Library) where
  -- The sync is past its start, and the sender is another one than the bot, who may write.
  pub record Admits (b : Backend lib) (sender : Text) : Type 0 where
    pub synced : b.initial_synced ≡ true
    pub other : text_eq sender b.user_id ≡ false
    pub allowed : is_allowed b.allowed_users sender ≡ true

  -- The message that is let through.
  pub data Admitted (b : Backend lib) (evt : MessageEvent) : Option MessageContent → Type 0 where
    dropped : Admitted b evt none
    admitted :
        (msg : MessageContent)
        → Admits b evt.sender
        → evt.content ≡ some msg
        → is_handled_type msg.msg_type ≡ true
        → Admitted b evt (some msg)

  of_handled_type-Admitted :
      (b : Backend lib) (evt : MessageEvent) (content : Option MessageContent)
      → Admits b evt.sender
      → evt.content ≡ content
      → Admitted b evt (of_handled_type content)
  of_handled_type-Admitted b evt none a eq = dropped
  of_handled_type-Admitted b evt (some msg) a eq =
      if_cases (Admitted b evt) (is_handled_type msg.msg_type) (admitted msg a eq) (λ h. dropped)

  pub filter_message-Admitted :
      (evt : MessageEvent) (b : Backend lib) → Admitted b evt (filter_message lib evt b)
  unfolding filter_message
  filter_message-Admitted evt b =
      if_cases (Admitted b evt) (not b.initial_synced) (λ h. dropped)
        λ e.
          if_cases (Admitted b evt) (text_eq evt.sender b.user_id) (λ h. dropped)
            λ f.
              if_cases (Admitted b evt) (not (is_allowed b.allowed_users evt.sender)) (λ h. dropped)
                λ g.
                  of_handled_type-Admitted b evt evt.content
                    (record {
                      synced = not_undo b.initial_synced e;
                      other = f;
                      allowed = not_undo (is_allowed b.allowed_users evt.sender) g;
                    })
                    refl
