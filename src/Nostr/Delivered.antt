-- ===== src/Nostr/Delivered.antt =====
-- A direct message of nostr/dm.go, from one backend to the handler of another.
use opencrow.Prelude.{
  ◌≡◌, refl, sym, ap, ◌∙◌, subst, inl, inr, Bool, true, false, if_cases, [], ◌∷◌, ◌++◌,
  if◌then◌else◌,
}
use opencrow.Prelude.Text.{Text, codes, text_eq, is_empty}
use opencrow.Prelude.Fallible.{Fallible, value, error, Fallible-cases}
use opencrow.Conversation.{ActiveConversation, claim, is_allowed}
use opencrow.App.Messages.{Message}
use opencrow.Nostr.Keys.{Gonostr}
use opencrow.Nostr.LastSeen.{check_and_mark_seen}
use opencrow.Nostr.Rumors.{kind_chat, Rumor, Protocol, build_rumor, tag_value, rumor_reply_target}
use opencrow.Nostr.Media.{rewrite_media_urls, rewrite_urls}
use opencrow.Nostr.Backend.{
  Backend, World, recipient_relays, enqueued, with_wraps, wrap_and_publish, publish_gift_wraps,
  send_dm, reply_tags, send_to, send_message, send_reaction, reaction, text_of, message_of, is_new,
  hand_on, claimed, on_rumor, process_gift_wrap,
}

-- The reply tag is read back.
rumor_reply_target-reply_tags :
    (recipient reply : Text)
    → rumor_reply_target ((codes "p" ∷ recipient ∷ []) ∷ reply_tags reply) ≡ reply
unfolding rumor_reply_target tag_value text_eq
rumor_reply_target-reply_tags recipient [] = refl
rumor_reply_target-reply_tags recipient (c ∷ reply) = refl

module _ (lib : Gonostr) (nip : Protocol lib) where
  abbrev pub message_from : Backend lib nip → Text → Text → Text → Message
  message_from b text id reply = record {
    conversation_id = lib.public_hex b.keys.pk;
    sender_id = lib.public_hex b.keys.pk;
    text = text;
    message_id = id;
    reply_to_id = reply;
  }

  -- What the sender has in its queue, and what the receiver makes of it.
  pub record IsDelivered (w w' : World lib nip) (sender receiver : Backend lib nip)
      (text reply : Text) (out : Text × Backend lib nip) : Type 0 where
    pub to_us : nip.Event
    pub to_them : nip.Event
    pub published :
        out.1
        ≡ enqueued lib nip to_them
            (recipient_relays lib nip w receiver.keys.pk sender)
            (enqueued lib nip to_us sender.dm_relays sender)
    pub handled :
        (process_gift_wrap lib nip w' to_them receiver).handled
        ≡ receiver.handled ++ message_from sender text out.0 reply ∷ []

  pub send_reaction-handled :
      (w : World lib nip) (rumor : Rumor lib) (b : Backend lib nip)
      → (send_reaction lib nip w rumor b).handled ≡ b.handled
  unfolding send_reaction
  send_reaction-handled w rumor b =
      elim (Fallible-cases (nip.gift_wrap b.keys.sk (reaction lib nip w rumor b) rumor.pub_key)) [
        | inl (evt, eq) ↦ rw eq refl
        | inr (e, eq) ↦ rw eq refl
      ]

  hand_on-handled :
      (w : World lib nip) (rumor : Rumor lib) (b : Backend lib nip)
      → (hand_on lib nip w rumor b).handled ≡ b.handled ++ message_of lib nip w rumor ∷ []
  unfolding hand_on
  hand_on-handled w rumor b =
      ap (λ ms. ms ++ message_of lib nip w rumor ∷ []) (send_reaction-handled w rumor b)

  -- The rumor is not the receiver's own, its sender may write to it, and nobody else does.
  pub record Admits (b : Backend lib nip) (sender : Text) : Type 0 where
    pub other : text_eq sender (lib.public_hex b.keys.pk) ≡ false
    pub allowed : is_allowed b.allowed_users sender ≡ true
    pub claims : (claim sender b.active).0 ≡ true

  claimed-handled :
      (w : World lib nip) (rumor : Rumor lib) (r : Bool × ActiveConversation) (b : Backend lib nip)
      → r.0 ≡ true
      → (claimed lib nip w rumor r b).handled ≡ b.handled ++ message_of lib nip w rumor ∷ []
  claimed-handled w rumor (true, active) b h =
      hand_on-handled w rumor (record b { active = active })
  claimed-handled w rumor (false, active) b h = cc

  on_rumor-handled :
      (w : World lib nip) (rumor : Rumor lib) (b : Backend lib nip)
      → Admits b (lib.public_hex rumor.pub_key)
      → is_new (check_and_mark_seen rumor.id w.now b.seen).0 ≡ true
      → (on_rumor lib nip w (value rumor) b).handled ≡ b.handled ++ message_of lib nip w rumor ∷ []
  on_rumor-handled w rumor b a fresh =
      rw (fresh, a.other, a.allowed)
        (claimed-handled w rumor (claim (lib.public_hex rumor.pub_key) b.active)
          (record b { seen = (check_and_mark_seen rumor.id w.now b.seen).1 }) a.claims)

  -- The rumor that a message becomes.
  abbrev rumor_for : World lib nip → Backend lib nip → lib.PubKey → Text → Text → Rumor lib
  rumor_for w b recipient text reply =
      build_rumor lib nip b.keys.pk w.now kind_chat text recipient (reply_tags reply)

  message_of-rumor_for :
      (w w' : World lib nip) (b : Backend lib nip) (recipient : lib.PubKey) (text reply : Text)
      → w'.media.find_urls text ≡ []
      → message_of lib nip w' (rumor_for w b recipient text reply)
        ≡ message_from b text (rumor_for w b recipient text reply).id reply
  unfolding message_of text_of build_rumor rewrite_media_urls rewrite_urls
  message_of-rumor_for w w' b recipient text reply none_found =
      rw (none_found, rumor_reply_target-reply_tags (lib.public_hex recipient) reply) refl

  -- The receiver opens what is wrapped for it.
  abbrev pub OpensFor : Backend lib nip → Backend lib nip → Type 0
  OpensFor sender receiver =
      (rumor : Rumor lib) (evt : nip.Event)
      → nip.gift_wrap sender.keys.sk rumor receiver.keys.pk ≡ value evt
      → nip.gift_unwrap receiver.keys.sk evt ≡ value rumor

  -- That a result of `SendMessage` that has an id, which is new to the receiver, is delivered.
  Delivers :
      (w w' : World lib nip) (sender receiver : Backend lib nip) (text reply : Text)
      → Text × Backend lib nip
      → Type 0
  Delivers w w' sender receiver text reply out =
      is_empty out.0 ≡ false
      → is_new (check_and_mark_seen out.0 w'.now receiver.seen).0 ≡ true
      → IsDelivered w w' sender receiver text reply out

  wrapped-Delivers :
      (w w' : World lib nip) (sender receiver : Backend lib nip) (text reply : Text)
      → OpensFor sender receiver
      → Admits receiver (lib.public_hex sender.keys.pk)
      → w'.media.find_urls text ≡ []
      → (us them : Fallible nip.Event)
      → nip.gift_wrap sender.keys.sk
          (rumor_for w sender receiver.keys.pk text reply)
          receiver.keys.pk
        ≡ them
      → let (sent, b') = with_wraps lib nip w us them receiver.keys.pk sender in
        Delivers w w' sender receiver text reply
          (if sent then ((rumor_for w sender receiver.keys.pk text reply).id, b') else ([], b'))
  unfolding Delivers publish_gift_wraps process_gift_wrap build_rumor
  wrapped-Delivers w w' sender receiver text reply opens admits links (error e) them eq = λ h _. cc
  wrapped-Delivers w w' sender receiver text reply opens admits links (value us) (error e) eq =
      λ h _. cc
  wrapped-Delivers w w' sender receiver text reply opens admits links (value us) (value them) eq =
      λ _ fresh. record {
        to_us = us;
        to_them = them;
        published = refl;
        handled =
            ap (λ r. (on_rumor lib nip w' r receiver).handled)
              (opens (rumor_for w sender receiver.keys.pk text reply) them eq)
            ∙ (on_rumor-handled w' (rumor_for w sender receiver.keys.pk text reply) receiver admits
                  fresh
                ∙ ap (λ m. receiver.handled ++ m ∷ [])
                    (message_of-rumor_for w w' sender receiver.keys.pk text reply links));
      }

  send_message-Delivers :
      (w w' : World lib nip) (sender receiver : Backend lib nip) (conversation_id text reply : Text)
      → lib.pub_key_from_hex conversation_id ≡ value receiver.keys.pk
      → OpensFor sender receiver
      → Admits receiver (lib.public_hex sender.keys.pk)
      → w'.media.find_urls text ≡ []
      → Delivers w w' sender receiver text reply
          (send_message lib nip w conversation_id text reply sender)
  unfolding Delivers send_message send_dm wrap_and_publish
  send_message-Delivers w w' sender receiver conversation_id text reply key opens admits links =
      subst (λ r. Delivers w w' sender receiver text reply (send_to lib nip w text reply r sender))
        (sym key)
        (if_cases (Delivers w w' sender receiver text reply) sender.connected
          (λ _.
            wrapped-Delivers w w' sender receiver text reply opens admits links
              (nip.gift_wrap sender.keys.sk (rumor_for w sender receiver.keys.pk text reply)
                sender.keys.pk)
              (nip.gift_wrap sender.keys.sk (rumor_for w sender receiver.keys.pk text reply)
                receiver.keys.pk)
              refl)
          (λ _ h _. cc))

  -- A message that is sent to the public key of another backend, which opens what is wrapped for it,
  -- admits the sender and sees no link to media in the text, is in the queue for the relays of that
  -- key, and if its id is new there, that backend hands on one message for it: with the same text,
  -- the id that the sender got for it, the message that it replies to, and the sender's key as its
  -- sender and conversation.
  pub send_message-IsDelivered :
      (w w' : World lib nip) (sender receiver : Backend lib nip) (conversation_id text reply : Text)
      → lib.pub_key_from_hex conversation_id ≡ value receiver.keys.pk
      → OpensFor sender receiver
      → Admits receiver (lib.public_hex sender.keys.pk)
      → w'.media.find_urls text ≡ []
      → is_empty (send_message lib nip w conversation_id text reply sender).0 ≡ false
      → is_new
          (check_and_mark_seen
            (send_message lib nip w conversation_id text reply sender).0
            w'.now
            receiver.seen).0
        ≡ true
      → IsDelivered w w' sender receiver text reply
          (send_message lib nip w conversation_id text reply sender)
  unfolding Delivers
  send_message-IsDelivered w w' sender receiver conversation_id text reply key opens admits links =
      send_message-Delivers w w' sender receiver conversation_id text reply key opens admits links
