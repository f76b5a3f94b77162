-- ===== src/Signal/Routing.antt =====
-- Which messages signal/backend.go hands on, and where it sends the replies to them.
use opencrow.Prelude.{
  ◌≡◌, refl, sym, subst, ◌⊎◌, inl, inr, Bool, true, false, ◌++◌, Option, none, some, arith,
  if◌then◌else◌, Bool-cases, Option-cases,
}
use opencrow.Prelude.Text.{Text, codes, is_empty}
use opencrow.Prelude.Strings.{has_prefix, cut_prefix}
use opencrow.Prelude.Fallible.{Fallible, value, error, ◌>>=◌, wrap, Holds, held, failed, >>=-Holds}
use opencrow.App.Messages.{Message}
use opencrow.Signal.Types.{Library}
use opencrow.Signal.Decode.{
  Envelope, DataMsg, Line, group_conversation_prefix, sender_of, conversation_of, text_of,
  message_of, message_in, decode_receive_message, decode_receive_notification, decode_inner,
  or_wrapped,
}
use opencrow.Signal.Backend.{Recipient, group, direct, add_recipient_params}

-- Where a message came from: its group, or its sender.
abbrev pub origin_in : Text → Option Text → Recipient
origin_in sender none = direct sender
origin_in sender (some group_id) = if is_empty group_id then direct sender else group group_id

unfoldable pub looks_like_group : Text → Bool
looks_like_group sender = has_prefix sender group_conversation_prefix

direct-recipient :
    (sender : Text) → looks_like_group sender ≡ false → add_recipient_params sender ≡ direct sender
unfolding add_recipient_params looks_like_group has_prefix
direct-recipient sender h = elim (Option-cases (cut_prefix sender group_conversation_prefix)) [
  | inl e ↦ rw e refl
  | inr (t, e) ↦ absurd (ground arith)
]

sender-recipient :
    (sender : Text)
    → (add_recipient_params sender ≡ direct sender) ⊎ (looks_like_group sender ≡ true)
sender-recipient sender = elim (Bool-cases (looks_like_group sender)) [
  | inl e ↦ inr e
  | inr e ↦ inl (direct-recipient sender e)
]

conversation_of-recipient :
    (lib : Library) (sender : Text) (group_info : Option Text)
    → (add_recipient_params (conversation_of lib sender group_info) ≡ origin_in sender group_info)
      ⊎ (looks_like_group sender ≡ true)
conversation_of-recipient lib sender none = sender-recipient sender
conversation_of-recipient lib sender (some group_id) = elim (Bool-cases (is_empty group_id)) [
  | inl e ↦ rw e (sender-recipient sender)
  | inr e ↦ rw e (inl (unfold add_recipient_params in rw e refl))
]

module _ (lib : Library) (config_dir params : Text) where
  -- The line is what signal-cli sent as the parameters of a notification, by themselves or wrapped.
  pub data Sent : Line lib → Type 0 where
    bare : (line : Line lib) → lib.receive_line params ≡ value line → Sent line
    wrapped :
        (outer line : Line lib) (inner : Text)
        → lib.wrapped params ≡ value (some outer)
        → lib.marshal outer ≡ value inner
        → lib.receive_line inner ≡ value line
        → Sent line

  -- The envelope and the message in it are those that signal-cli sent, and a reply goes to the group
  -- in it, or else to the sender, or the sender has a name that looks like the id of a group.
  pub record HasOrigin (m : Message) : Type 0 where
    pub line : Line lib
    pub env : Envelope lib
    pub msg : DataMsg lib
    pub sent : Sent line
    pub envelope : line.envelope ≡ some env
    pub data_message : env.data_message ≡ some msg
    pub sender : m.sender_id ≡ sender_of lib env
    pub text : m.text ≡ text_of lib msg config_dir
    pub reply :
        (add_recipient_params m.conversation_id ≡ origin_in (sender_of lib env) msg.group_info)
        ⊎ (looks_like_group (sender_of lib env) ≡ true)

  -- What is handed on comes from an envelope.
  pub data Comes : Option Message → Type 0 where
    nothing : Comes none
    message : (m : Message) → HasOrigin m → Comes (some m)

  message_of-parts :
      (env : Envelope lib) (msg : DataMsg lib) (m : Message)
      → message_of lib env msg config_dir ≡ some m
      → (m.conversation_id ≡ conversation_of lib (sender_of lib env) msg.group_info)
        × (m.sender_id ≡ sender_of lib env)
        × (m.text ≡ text_of lib msg config_dir)
  unfolding message_of
  message_of-parts env msg m h = ground arith

  message_of-Comes :
      (line : Line lib) (env : Envelope lib) (msg : DataMsg lib)
      → Sent line
      → line.envelope ≡ some env
      → env.data_message ≡ some msg
      → Comes (message_of lib env msg config_dir)
  message_of-Comes line env msg sent e d = elim (Option-cases (message_of lib env msg config_dir)) [
    | inl e' ↦ rw e' nothing
    | inr (m, h) ↦ subst Comes (sym h) (
        message m (
          let (conversation, from, said) = message_of-parts env msg m h in
          record {
            line = line;
            env = env;
            msg = msg;
            sent = sent;
            envelope = e;
            data_message = d;
            sender = from;
            text = said;
            reply =
                rw conversation (conversation_of-recipient lib (sender_of lib env) msg.group_info);
          }))
  ]

  message_in-Comes :
      (line : Line lib) (env : Option (Envelope lib))
      → Sent line
      → line.envelope ≡ env
      → Comes (message_in lib env config_dir)
  message_in-Comes line none sent e = nothing
  message_in-Comes line (some env) sent e = elim (Option-cases env.data_message) [
    | inl e' ↦ rw e' nothing
    | inr (msg, d) ↦ rw d (message_of-Comes line env msg sent e d)
  ]

  decode_receive_message-Comes :
      (payload : Text)
      → ((line : Line lib) → lib.receive_line payload ≡ value line → Sent line)
      → Holds Comes (decode_receive_message lib payload config_dir)
  unfolding decode_receive_message
  decode_receive_message-Comes payload sent = decoded (lib.receive_line payload) refl
    where
      decoded :
          (r : Fallible (Line lib))
          → lib.receive_line payload ≡ r
          → Holds Comes (
              wrap (λ e. codes "decoding signal receive payload: " ++ e) r >>= λ line.
              value (message_in lib line.envelope config_dir))
      decoded (value line) e = held _ (message_in-Comes line line.envelope (sent line e) refl)
      decoded (error e) _ = failed _

  decode_inner-Comes :
      (outer : Option (Line lib))
      → lib.wrapped params ≡ value outer
      → Holds Comes (decode_inner lib config_dir outer)
  decode_inner-Comes none h = held none nothing
  decode_inner-Comes (some outer) h = encoded (lib.marshal outer) refl
    where
      encoded :
          (r : Fallible Text)
          → lib.marshal outer ≡ r
          → Holds Comes (
              wrap (λ e. codes "encoding wrapped receive payload: " ++ e) r >>= λ inner.
              decode_receive_message lib inner config_dir)
      encoded (value inner) e =
          decode_receive_message-Comes inner (λ line d. wrapped outer line inner h e d)
      encoded (error e) _ = failed _

  or_wrapped-Comes :
      (m : Option Message) → Comes m → Holds Comes (or_wrapped lib params config_dir m)
  or_wrapped-Comes (some m) h = held (some m) h
  or_wrapped-Comes none h = unwrapped (lib.wrapped params) refl
    where
      unwrapped :
          (r : Fallible (Option (Line lib)))
          → lib.wrapped params ≡ r
          → Holds Comes (
              wrap (λ e. codes "decoding wrapped signal receive payload: " ++ e) r
              >>= decode_inner lib config_dir)
      unwrapped (value outer) e = decode_inner-Comes outer e
      unwrapped (error e) _ = failed _

  pub decode_receive_notification-Comes :
      Holds Comes (decode_receive_notification lib params config_dir)
  unfolding decode_receive_notification
  decode_receive_notification-Comes =
      >>=-Holds Comes Comes (decode_receive_message lib params config_dir)
        (or_wrapped lib params config_dir)
        (decode_receive_message-Comes params (λ line e. bare line e)) or_wrapped-Comes
