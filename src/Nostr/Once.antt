-- ===== src/Nostr/Once.antt =====
-- The messages that the backend of nostr/backend.go hands on, each of them once.
use opencrow.Prelude.{
  ◌≡◌, refl, sym, ap, ◌∙◌, subst, Bool, true, false, not, ◌||◌, if_cases, List, [], ◌∷◌, ◌++◌,
  Option, if◌then◌else◌, All, All-append, All-map, exists, or_split, not_undo,
}
use opencrow.Prelude.Text.{Text, text_eq}
use opencrow.Prelude.Fallible.{Fallible, value, error}
use opencrow.Conversation.{ActiveConversation, claim, is_allowed}
use opencrow.App.Messages.{Message}
use opencrow.Nostr.Keys.{Gonostr, Keys}
use opencrow.Nostr.LastSeen.{SeenDb, has_id, check_and_mark_seen}
use opencrow.Nostr.Rumors.{Rumor, Protocol}
use opencrow.Nostr.Backend.{
  Backend, World, send_reaction, reaction, reacted, message_of, is_new, hand_on, claimed, on_new,
  on_rumor, process_gift_wrap, reset_conversation, Event, received, reset_of, on_event, on_events,
}
use opencrow.Nostr.Marks.{
  AreDistinct, AreDistinct-snoc, Marking, again, first, check_and_mark_seen-Marking, apart,
  exists-snoc, exists-here,
}

module _ (lib : Gonostr) (nip : Protocol lib) where
  -- The message is from somebody else than the backend, who may write to it.
  abbrev pub IsAccepted : Backend lib nip → Message → Type 0
  IsAccepted b m =
      (text_eq m.sender_id (lib.public_hex b.keys.pk) ≡ false)
      × (is_allowed b.allowed_users m.sender_id ≡ true)

  -- A reaction changes nothing but the queue.
  send_reaction-queue :
      (w : World lib nip) (rumor : Rumor lib) (b : Backend lib nip)
      → send_reaction lib nip w rumor b
        ≡ record b { queue = (send_reaction lib nip w rumor b).queue }
  unfolding send_reaction
  send_reaction-queue w rumor b =
      by_wrap (nip.gift_wrap b.keys.sk (reaction lib nip w rumor b) rumor.pub_key)
    where
      by_wrap :
          (r : Fallible nip.Event)
          → reacted lib nip w rumor.pub_key r b
            ≡ record b { queue = (reacted lib nip w rumor.pub_key r b).queue }
      by_wrap (error e) = refl
      by_wrap (value evt) = refl

  hand_on_fields :
      (w : World lib nip) (rumor : Rumor lib) (b : Backend lib nip)
      → hand_on lib nip w rumor b ≡ record b {
        queue = (send_reaction lib nip w rumor b).queue;
        handled = b.handled ++ message_of lib nip w rumor ∷ [];
      }
  unfolding hand_on
  hand_on_fields w rumor b =
      ap
        (λ (b' : Backend lib nip). record b' {
          handled = b'.handled ++ message_of lib nip w rumor ∷ [];
        })
        (send_reaction-queue w rumor b)

  module _ (start : Backend lib nip) where
    record Keeps (b : Backend lib nip) : Type 0 where
      keys : b.keys ≡ start.keys
      allowed_users : b.allowed_users ≡ start.allowed_users
      faults : b.seen.faults ≡ []
      accepted : All (IsAccepted start) b.handled
      marked : All (λ (m : Message). exists (has_id m.message_id) b.seen.rumors ≡ true) b.handled
      distinct : AreDistinct b.handled

    hand_on-Keeps :
        (w : World lib nip) (rumor : Rumor lib) (b : Backend lib nip)
        → Keeps b
        → IsAccepted start (message_of lib nip w rumor)
        → exists (has_id rumor.id) b.seen.rumors ≡ true
        → All (λ (x : Message). text_eq x.message_id rumor.id ≡ false) b.handled
        → Keeps (hand_on lib nip w rumor b)
    unfolding message_of
    hand_on-Keeps w rumor b k a there new = subst Keeps (sym (hand_on_fields w rumor b)) (record {
      keys = k.keys;
      allowed_users = k.allowed_users;
      faults = k.faults;
      accepted =
          All-append (IsAccepted start) b.handled (message_of lib nip w rumor ∷ []) k.accepted
            (a, tt);
      marked =
          All-append (λ (m : Message). exists (has_id m.message_id) b.seen.rumors ≡ true) b.handled
            (message_of lib nip w rumor ∷ []) k.marked (there, tt);
      distinct = AreDistinct-snoc b.handled (message_of lib nip w rumor) k.distinct new;
    })

    claimed-Keeps :
        (w : World lib nip) (rumor : Rumor lib) (r : Bool × ActiveConversation)
        (b : Backend lib nip)
        → Keeps b
        → IsAccepted start (message_of lib nip w rumor)
        → exists (has_id rumor.id) b.seen.rumors ≡ true
        → All (λ (x : Message). text_eq x.message_id rumor.id ≡ false) b.handled
        → Keeps (claimed lib nip w rumor r b)
    claimed-Keeps w rumor (claims, active) b k a there new = by_claim claims
      where
        active-Keeps : Keeps (record b { active = active })
        active-Keeps = record {
          keys = k.keys;
          allowed_users = k.allowed_users;
          faults = k.faults;
          accepted = k.accepted;
          marked = k.marked;
          distinct = k.distinct;
        }

        by_claim : (claims : Bool) → Keeps (claimed lib nip w rumor (claims, active) b)
        by_claim true =
            hand_on-Keeps w rumor (record b { active = active }) active-Keeps a there new
        by_claim false = active-Keeps

    on_new-Keeps :
        (w : World lib nip) (rumor : Rumor lib) (b : Backend lib nip)
        → Keeps b
        → exists (has_id rumor.id) b.seen.rumors ≡ true
        → All (λ (x : Message). text_eq x.message_id rumor.id ≡ false) b.handled
        → Keeps (on_new lib nip w rumor b)
    unfolding message_of
    on_new-Keeps w rumor b k there new =
        if_cases Keeps
          (text_eq (lib.public_hex rumor.pub_key) (lib.public_hex b.keys.pk)
            || not (is_allowed b.allowed_users (lib.public_hex rumor.pub_key)))
          (λ _. k)
          (λ h.
            claimed-Keeps w rumor (claim (lib.public_hex rumor.pub_key) b.active) b k
              (
                ap (λ (keys : Keys lib). text_eq sender (lib.public_hex keys.pk)) (sym k.keys)
                    ∙ (or_split own refused h).0,
                ap (λ us. is_allowed us sender) (sym k.allowed_users)
                    ∙ not_undo (is_allowed b.allowed_users sender) (or_split own refused h).1,
              )
              there new)
      where
        sender : Text
        sender = lib.public_hex rumor.pub_key

        own : Bool
        own = text_eq sender (lib.public_hex b.keys.pk)

        refused : Bool
        refused = not (is_allowed b.allowed_users sender)

    seen-Keeps :
        (b : Backend lib nip) (db : SeenDb)
        → Keeps b
        → db.faults ≡ []
        → ((id : Text)
            → exists (has_id id) b.seen.rumors ≡ true
            → exists (has_id id) db.rumors ≡ true)
        → Keeps (record b { seen = db })
    seen-Keeps b db k up more = record {
      keys = k.keys;
      allowed_users = k.allowed_users;
      faults = up;
      accepted = k.accepted;
      marked = All-map b.handled (λ (m : Message). more m.message_id) k.marked;
      distinct = k.distinct;
    }

    marked-Keeps :
        (w : World lib nip) (rumor : Rumor lib) (b : Backend lib nip) (r : Option Bool × SeenDb)
        → Keeps b
        → Marking rumor.id w.now b.seen r
        → Keeps (
            if is_new r.0
            then on_new lib nip w rumor (record b { seen = r.1 })
            else record b { seen = r.1 })
    marked-Keeps w rumor b _ k (again db same up) =
        seen-Keeps b db k up (λ id h. ap (exists (has_id id)) same ∙ h)
    marked-Keeps w rumor b _ k (first db absent grown up) =
        on_new-Keeps w rumor (record b { seen = db })
          (seen-Keeps b db k up
            (λ id h. ap (exists (has_id id)) grown ∙ exists-snoc id b.seen.rumors _ h))
          (ap (exists (has_id rumor.id)) grown ∙ exists-here rumor.id w.now b.seen.rumors)
          (All-map b.handled (λ (m : Message) h. apart rumor.id m.message_id b.seen.rumors absent h)
            k.marked)

    on_rumor-Keeps :
        (w : World lib nip) (r : Fallible (Rumor lib)) (b : Backend lib nip)
        → Keeps b
        → Keeps (on_rumor lib nip w r b)
    on_rumor-Keeps w (error e) b k = k
    on_rumor-Keeps w (value rumor) b k =
        marked-Keeps w rumor b (check_and_mark_seen rumor.id w.now b.seen) k (
          subst (λ (db : SeenDb). Marking rumor.id w.now db (check_and_mark_seen rumor.id w.now db))
            (ap (λ fs. record { rumors = b.seen.rumors; faults = fs }) (sym k.faults))
            (check_and_mark_seen-Marking rumor.id w.now b.seen.rumors))

    on_events-Keeps :
        (es : List (Event lib nip)) (b : Backend lib nip) → Keeps b → Keeps (on_events lib nip es b)
    unfolding on_events on_event process_gift_wrap reset_conversation
    on_events-Keeps [] b k = k
    on_events-Keeps (received w evt ∷ es) b k =
        on_events-Keeps es (process_gift_wrap lib nip w evt b)
          (on_rumor-Keeps w (nip.gift_unwrap b.keys.sk evt) b k)
    on_events-Keeps (reset_of conversation_id ∷ es) b k =
        on_events-Keeps es (reset_conversation lib nip conversation_id b) (record {
          keys = k.keys;
          allowed_users = k.allowed_users;
          faults = k.faults;
          accepted = k.accepted;
          marked = k.marked;
          distinct = k.distinct;
        })

    -- Whatever gift wraps come from the relays, in copies and in any order, and whatever the app
    -- resets: as long as no query fails, and no mark is pruned meanwhile, the messages that are handed
    -- on have distinct ids, and each is from an allowed sender other than the backend itself.
    pub on_events-AreDistinct :
        (es : List (Event lib nip))
        → start.handled ≡ []
        → start.seen.faults ≡ []
        → AreDistinct (on_events lib nip es start).handled
          × All (IsAccepted start) (on_events lib nip es start).handled
    on_events-AreDistinct es none_yet up =
        let k = on_events-Keeps es start (record {
          keys = refl;
          allowed_users = refl;
          faults = up;
          accepted = subst (All (IsAccepted start)) (sym none_yet) tt;
          marked =
              subst (All (λ (m : Message). exists (has_id m.message_id) start.seen.rumors ≡ true))
                (sym none_yet) tt;
          distinct = subst AreDistinct (sym none_yet) tt;
        }) in
        (k.distinct, k.accepted)
