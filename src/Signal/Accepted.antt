-- ===== src/Signal/Accepted.antt =====
-- The messages that the loop of `Run` of signal/backend.go hands on.
use mathlib.Core.List.{Mem, mem-cons_self, mem-cons_of_mem}
use opencrow.Prelude.{
  ◌≡◌, refl, sym, ap, ◌∙◌, subst, inl, inr, Bool, true, false, List, [], ◌∷◌, Option, none, some,
  All, All-append, if_cases, Bool-cases,
}
use opencrow.Prelude.Text.{codes, text_eq}
use opencrow.Prelude.Fallible.{Fallible, value, error, Holds, held}
use opencrow.Conversation.{ActiveConversation, claim, is_allowed}
use opencrow.App.Messages.{Message}
use opencrow.Signal.Types.{Library}
use opencrow.Signal.Decode.{decode_receive_notification}
use opencrow.Signal.Backend.{
  Notification, Backend, on_message, claimed, on_notification, on_notifications,
}
use opencrow.Signal.Routing.{HasOrigin, Comes, message, decode_receive_notification-Comes}

module _ (lib : Library) (start : Backend lib) (sent : List Notification) where
  -- The message is not the bot's own, its sender is allowed, and it has an origin to reply to in one of
  -- the notifications that signal-cli sent.
  abbrev pub IsAccepted : Message → Type 0
  IsAccepted m =
      (text_eq m.sender_id start.account ≡ false)
      × (is_allowed start.allowed_users m.sender_id ≡ true)
      × ((n : Notification) × Mem n sent
          × (text_eq n.method (codes "receive") ≡ true)
          × HasOrigin lib start.config_dir n.params m)

  -- The configuration is that of the start, and what was handed on was accepted.
  record Keeps (b : Backend lib) : Type 0 where
    account : b.account ≡ start.account
    allowed_users : b.allowed_users ≡ start.allowed_users
    config_dir : b.config_dir ≡ start.config_dir
    handled : All IsAccepted b.handled

  claimed-Keeps :
      (msg : Message) (r : Bool × ActiveConversation) (b : Backend lib)
      → Keeps b
      → IsAccepted msg
      → Keeps (claimed lib msg r b)
  claimed-Keeps msg (true, active) b k a = record {
    account = k.account;
    allowed_users = k.allowed_users;
    config_dir = k.config_dir;
    handled = All-append IsAccepted b.handled (msg ∷ []) k.handled (a, tt);
  }
  claimed-Keeps msg (false, active) b k a = record {
    account = k.account;
    allowed_users = k.allowed_users;
    config_dir = k.config_dir;
    handled = k.handled;
  }

  on_message-Keeps :
      (n : Notification) (r : Fallible (Option Message)) (b : Backend lib)
      → Mem n sent
      → text_eq n.method (codes "receive") ≡ true
      → Keeps b
      → Holds (Comes lib start.config_dir n.params) r
      → Keeps (on_message lib r b)
  on_message-Keeps n (error e) b among is k h = k
  on_message-Keeps n (value none) b among is k h = k
  on_message-Keeps n (value (some m)) b among is k (held _ (message _ origin)) =
      elim (Bool-cases (text_eq m.sender_id b.account)) [
        | inl e ↦ rw e k
        | inr e ↦ elim (Bool-cases (is_allowed b.allowed_users m.sender_id)) [
          | inl f ↦
              rw (e, f)
                (claimed-Keeps m (claim m.conversation_id b.active) b k (
                  ap (text_eq m.sender_id) (sym k.account) ∙ e,
                  ap (λ us. is_allowed us m.sender_id) (sym k.allowed_users) ∙ f,
                  (n, among, is, origin),
                ))
          | inr f ↦ rw (e, f) k
        ]
      ]

  on_notification-Keeps :
      (n : Notification) (b : Backend lib) → Mem n sent → Keeps b → Keeps (on_notification lib n b)
  unfolding on_notification
  on_notification-Keeps n b among k =
      if_cases Keeps (text_eq n.method (codes "receive"))
        (λ is.
          on_message-Keeps n (decode_receive_notification lib n.params b.config_dir) b among is k (
            subst
              (λ d.
                Holds (Comes lib start.config_dir n.params)
                  (decode_receive_notification lib n.params d))
              (sym k.config_dir) (decode_receive_notification-Comes lib start.config_dir n.params)))
        (λ _. k)

  on_notifications-Keeps :
      (ns : List Notification) (b : Backend lib)
      → ((n : Notification) → Mem n ns → Mem n sent)
      → Keeps b
      → Keeps (on_notifications lib ns b)
  unfolding on_notifications
  on_notifications-Keeps [] b among k = k
  on_notifications-Keeps (n ∷ ns) b among k =
      on_notifications-Keeps ns (on_notification lib n b) (λ n' h. among n' (mem-cons_of_mem n h))
        (on_notification-Keeps n b (among n mem-cons_self) k)

  -- Whatever signal-cli sends, each message that a backend hands on from its start is not from its own
  -- account, is from an allowed sender, and is the data message of an envelope that a notification
  -- "receive" held, by itself or wrapped. It has its sender and text, and a reply to it goes to the
  -- group of that message, or else to the sender, unless the sender's own name looks like the id of a
  -- group.
  pub on_notifications-All :
      start.handled ≡ [] → All IsAccepted (on_notifications lib sent start).handled
  on_notifications-All h =
      (on_notifications-Keeps sent start (λ n m. m)
        (record {
          account = refl;
          allowed_users = refl;
          config_dir = refl;
          handled = subst (All IsAccepted) (sym h) tt;
        })).handled
