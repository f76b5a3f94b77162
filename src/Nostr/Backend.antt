-- ===== src/Nostr/Backend.antt =====
-- nostr/backend.go and nostr/dm.go: direct messages, sent and received.
--
-- The network is outside: `World` has what its calls return. A reaction, which the source sends in
-- the background, is sent at once.
use opencrow.Prelude.{
  ℕ, Bool, true, false, not, ◌||◌, List, [], ◌∷◌, ◌++◌, Option, none, some, if◌then◌else◌, ◌==◌,
}
use opencrow.Prelude.Text.{Text, codes, text_eq, is_empty}
use opencrow.Prelude.Fallible.{Fallible, value, error, Done}
use opencrow.Conversation.{ActiveConversation, claim, reset, is_allowed, is_nil}
use opencrow.App.Messages.{Message}
use opencrow.Nostr.Keys.{Gonostr, Keys}
use opencrow.Nostr.Rumors.{
  Tag, kind_chat, kind_file, kind_reaction, Rumor, Protocol, with_id, build_rumor,
  rumor_reply_target,
}
use opencrow.Nostr.Media.{Media, handle_file_message, rewrite_media_urls}
use opencrow.Nostr.LastSeen.{SeenDb, check_and_mark_seen}
use opencrow.Nostr.PublishQueue.{PublishQueue, enqueue}

-- The relays when none are given for direct messages: those of `NewBackend`.
abbrev pub or_relays : List Text → List Text → List Text
or_relays relays dm_relays = if is_nil dm_relays then relays else dm_relays

abbrev pub reply_tags : Text → List Tag
reply_tags reply_to_id = if is_empty reply_to_id then [] else (codes "e" ∷ reply_to_id ∷ []) ∷ []

-- Whether the rumor is new; it counts as new where the query fails.
abbrev pub is_new : Option Bool → Bool
is_new none = true
is_new (some was_there) = not was_there

module _ (lib : Gonostr) (nip : Protocol lib) where
  pub record Backend : Type 0 where
    pub keys : Keys lib
    pub relays : List Text
    pub dm_relays : List Text
    pub allowed_users : List Text
    pub connected : Bool  -- whether there is a keyer
    pub seen : SeenDb
    pub active : ActiveConversation
    pub queue : PublishQueue nip.Event
    pub handled : List Message

  pub record World : Type 0 where
    pub now : ℕ
    pub media : Media
    pub get_dm_relays : lib.PubKey → List Text  -- `nip17.GetDMRelays`

  unfoldable pub recipient_relays : World → lib.PubKey → Backend → List Text
  recipient_relays w recipient b = or_relays b.dm_relays (w.get_dm_relays recipient)

  abbrev pub enqueued : nip.Event → List Text → Backend → Backend
  enqueued evt relays b = record b { queue = enqueue nip.marshal evt relays b.queue }

  unfoldable pub publish_gift_wraps : World → nip.Event → nip.Event → lib.PubKey → Backend → Backend
  unfolding recipient_relays
  publish_gift_wraps w to_us to_them recipient b =
      enqueued to_them (recipient_relays w recipient b) (enqueued to_us b.dm_relays b)

  abbrev pub with_wraps :
      World → Fallible nip.Event → Fallible nip.Event → lib.PubKey → Backend → Bool × Backend
  with_wraps w (error e) to_them recipient b = (false, b)
  with_wraps w (value to_us) (error e) recipient b = (false, b)
  with_wraps w (value to_us) (value to_them) recipient b =
      (true, publish_gift_wraps w to_us to_them recipient b)

  unfoldable pub wrap_and_publish : World → Rumor lib → lib.PubKey → Backend → Bool × Backend
  unfolding publish_gift_wraps
  wrap_and_publish w rumor recipient b =
      with_wraps w (nip.gift_wrap b.keys.sk rumor rumor.pub_key)
        (nip.gift_wrap b.keys.sk rumor recipient) recipient b

  unfoldable pub send_dm : World → lib.PubKey → Text → List Tag → Backend → Text × Backend
  unfolding wrap_and_publish build_rumor
  send_dm w recipient text extra_tags b =
      let rumor = build_rumor lib nip b.keys.pk w.now kind_chat text recipient extra_tags in
      let (sent, b') = wrap_and_publish w rumor recipient b in
      if sent then (rumor.id, b') else ([], b')

  abbrev pub send_to : World → Text → Text → Fallible lib.PubKey → Backend → Text × Backend
  send_to w text reply_to_id (error e) b = ([], b)
  send_to w text reply_to_id (value recipient) b =
      if b.connected then send_dm w recipient text (reply_tags reply_to_id) b else ([], b)

  -- The id of the rumor, empty where it was not sent.
  unfoldable pub send_message : World → Text → Text → Text → Backend → Text × Backend
  unfolding send_dm
  send_message w conversation_id text reply_to_id b =
      send_to w text reply_to_id (lib.pub_key_from_hex conversation_id) b

  -- Whether the rumor could be wrapped is not reported.
  unfoldable pub send_file_message : World → lib.PubKey → Text → List Tag → Backend → Backend
  unfolding wrap_and_publish build_rumor
  send_file_message w recipient url extra_tags b =
      let rumor = build_rumor lib nip b.keys.pk w.now kind_file url recipient extra_tags in
      (wrap_and_publish w rumor recipient b).1

  abbrev pub file_sent : World → Text × List Tag → Fallible lib.PubKey → Backend → Done × Backend
  file_sent w (url, tags) (error e) b = (error (codes "invalid recipient pubkey: " ++ e), b)
  file_sent w (url, tags) (value recipient) b =
      if b.connected
      then (value tt, send_file_message w recipient url tags b)
      else (error (codes "SendFile called before Run()"), b)

  -- Given the URL and the tags of the file that was uploaded.
  unfoldable pub send_file : World → Fallible (Text × List Tag) → Text → Backend → Done × Backend
  unfolding send_file_message
  send_file w (error e) conversation_id b = (error e, b)
  send_file w (value upload) conversation_id b =
      file_sent w upload (lib.pub_key_from_hex conversation_id) b

  abbrev pub reaction : World → Rumor lib → Backend → Rumor lib
  reaction w rumor b = with_id lib nip (record {
    id = [];
    pub_key = b.keys.pk;
    kind = kind_reaction;
    content = codes "👍";
    tags =
        (codes "e" ∷ rumor.id ∷ [])
        ∷ (codes "p" ∷ lib.public_hex rumor.pub_key ∷ [])
        ∷ (codes "k" ∷ w.media.aes.decimal rumor.kind ∷ [])
        ∷ [];
    created_at = w.now;
  })

  abbrev pub reacted : World → lib.PubKey → Fallible nip.Event → Backend → Backend
  reacted w recipient (error e) b = b
  reacted w recipient (value evt) b = enqueued evt (recipient_relays w recipient b) b

  unfoldable pub send_reaction : World → Rumor lib → Backend → Backend
  unfolding recipient_relays
  send_reaction w rumor b =
      reacted w rumor.pub_key (nip.gift_wrap b.keys.sk (reaction w rumor b) rumor.pub_key) b

  unfoldable pub text_of : World → Rumor lib → Text
  unfolding handle_file_message rewrite_media_urls
  text_of w rumor =
      if rumor.kind == kind_file
      then handle_file_message w.media rumor.content rumor.tags (lib.public_hex rumor.pub_key)
      else rewrite_media_urls w.media rumor.content (lib.public_hex rumor.pub_key)

  unfoldable pub message_of : World → Rumor lib → Message
  unfolding text_of rumor_reply_target
  message_of w rumor = record {
    conversation_id = lib.public_hex rumor.pub_key;
    sender_id = lib.public_hex rumor.pub_key;
    text = text_of w rumor;
    message_id = rumor.id;
    reply_to_id = rumor_reply_target rumor.tags;
  }

  unfoldable pub hand_on : World → Rumor lib → Backend → Backend
  unfolding send_reaction message_of
  hand_on w rumor b =
      let b' = send_reaction w rumor b in
      record b' { handled = b'.handled ++ message_of w rumor ∷ [] }

  abbrev pub claimed : World → Rumor lib → Bool × ActiveConversation → Backend → Backend
  claimed w rumor (true, active) b = hand_on w rumor (record b { active = active })
  claimed w rumor (false, active) b = record b { active = active }

  abbrev pub on_new : World → Rumor lib → Backend → Backend
  on_new w rumor b =
      let sender = lib.public_hex rumor.pub_key in
      if text_eq sender (lib.public_hex b.keys.pk) || not (is_allowed b.allowed_users sender)
      then b
      else claimed w rumor (claim sender b.active) b

  abbrev pub on_rumor : World → Fallible (Rumor lib) → Backend → Backend
  on_rumor w (error e) b = b
  on_rumor w (value rumor) b =
      let (was_there, seen) = check_and_mark_seen rumor.id w.now b.seen in
      if is_new was_there
      then on_new w rumor (record b { seen = seen })
      else record b { seen = seen }

  unfoldable pub process_gift_wrap : World → nip.Event → Backend → Backend
  unfolding check_and_mark_seen hand_on claim
  process_gift_wrap w evt b = on_rumor w (nip.gift_unwrap b.keys.sk evt) b

  unfoldable pub reset_conversation : Text → Backend → Backend
  reset_conversation conversation_id b = record b { active = reset conversation_id b.active }

-- A gift wrap that arrives, or a reset of the app.
pub data Event (lib : Gonostr) (nip : Protocol lib) : Type 1 where
  received : World lib nip → nip.Event → Event lib nip
  reset_of : Text → Event lib nip

module _ (lib : Gonostr) (nip : Protocol lib) where
  unfoldable pub on_event : Event lib nip → Backend lib nip → Backend lib nip
  unfolding process_gift_wrap reset_conversation
  on_event (received w evt) b = process_gift_wrap lib nip w evt b
  on_event (reset_of conversation_id) b = reset_conversation lib nip conversation_id b

  unfoldable pub on_events : List (Event lib nip) → Backend lib nip → Backend lib nip
  unfolding on_event
  on_events [] b = b
  on_events (e ∷ es) b = on_events es (on_event e b)
