-- ===== src/Matrix/Moves.antt =====
-- How an event moves the active room of the backend of matrix/backend.go.
use opencrow.Prelude.{
  ℕ, ◌≤◌, ◌≡◌, refl, sym, ◌∙◌, subst, ◌⊎◌, inl, inr, true, not, if_cases, if_keeps, not_undo,
  Option, none, some, List, [], ◌∷◌, ◌++◌, ltb, arith,
}
use opencrow.Prelude.Text.{Text, codes, text_eq, is_empty}
use opencrow.Prelude.Fallible.{Fallible, value, error, Done}
use opencrow.Conversation.{ActiveConversation, reset, is_allowed}
use opencrow.Matrix.Types.{
  Library, Membership, invite, leave, ban, join, knock, unknown, MessageContent, MessageEvent,
  MemberEvent,
}
use opencrow.Matrix.Same.{Same, handle_verify-Same, body_of-Same}
use opencrow.Matrix.Admitted.{Admits, Admitted, dropped, admitted, filter_message-Admitted}
use opencrow.Matrix.Rooms.{
  Answers, Backend, Event, member, message, synced, reset_of, join_returned, end_join, after_join,
  finish_invite, if_alone, handle_invite, handle_leave, cleanup_room, on_membership,
  handle_membership, track_room, hand_on, on_content, filter_message, handle_message, on_sync,
  reset_conversation, on_event, body_of,
}

module _ (lib : Library) where
  -- Why the room of an event is left: the bot was removed, or nobody else is in it.
  pub data Ends (b : Backend lib) (answers : Answers) (evt : MemberEvent) : Type 0 where
    removed : text_eq evt.state_key b.user_id ≡ true → Ends b answers evt
    alone : (members : ℕ) → answers.members ≡ value members → members ≤ 1 → Ends b answers evt

  -- The active room, and the rooms that an accepted invite is joining.
  abbrev pub rooms : Backend lib → ActiveConversation × List Text
  rooms b = (b.active_room, b.joining)

  -- How the rooms may change at an event.
  pub data Move (b : Backend lib) : Event → ActiveConversation × List Text → Type 0 where
    stays : (e : Event) → Move b e (rooms b)
    invited :
        (answers : Answers) (evt : MemberEvent)
        → b.initial_synced ≡ true
        → evt.membership ≡ some invite
        → text_eq evt.state_key b.user_id ≡ true
        → is_allowed b.allowed_users evt.sender ≡ true
        → is_empty b.active_room ≡ true
        → Move b (member answers evt) (b.active_room, b.joining ++ evt.room_id ∷ [])
    joined :
        (room_id : Text) (rest : List Text)
        → end_join room_id b.joining ≡ some rest
        → Move b (join_returned room_id (value tt)) (room_id, rest)
    not_joined :
        (room_id e : Text) (rest : List Text)
        → end_join room_id b.joining ≡ some rest
        → Move b (join_returned room_id (error e)) (b.active_room, rest)
    ended :
        (answers : Answers) (evt : MemberEvent)
        → b.initial_synced ≡ true
        → (evt.membership ≡ some leave) ⊎ (evt.membership ≡ some ban)
        → Ends b answers evt
        → text_eq b.active_room evt.room_id ≡ true
        → Move b (member answers evt) ([], b.joining)
    discovered :
        (answers : Answers) (evt : MessageEvent)
        → Admits lib b evt.sender
        → is_empty b.active_room ≡ true
        → Move b (message answers evt) (evt.room_id, b.joining)
    given_up :
        (conversation_id : Text)
        → text_eq b.active_room conversation_id ≡ true
        → Move b (reset_of conversation_id) ([], b.joining)

  invite-Move :
      (answers : Answers) (evt : MemberEvent) (b : Backend lib)
      → b.initial_synced ≡ true
      → evt.membership ≡ some invite
      → Move b (member answers evt) (rooms (handle_invite lib evt b))
  unfolding handle_invite
  invite-Move answers evt b sync h =
      if_cases P (not (text_eq evt.state_key b.user_id)) (λ _. stays (member answers evt))
        λ e.
          if_cases P (not (is_allowed b.allowed_users evt.sender)) (λ _. stays (member answers evt))
            λ f.
              if_cases P (not (is_empty b.active_room)) (λ _. stays (member answers evt))
                λ g.
                  invited answers evt sync h (not_undo (text_eq evt.state_key b.user_id) e)
                    (not_undo (is_allowed b.allowed_users evt.sender) f)
                    (not_undo (is_empty b.active_room) g)
    where
      P : Backend lib → Type 0
      P b' = Move b (member answers evt) (rooms b')

  after_join-Move :
      (room_id : Text) (r : Done) (b : Backend lib) (left : Option (List Text))
      → end_join room_id b.joining ≡ left
      → Move b (join_returned room_id r) (rooms (after_join lib room_id r left b))
  after_join-Move room_id r b none e = stays (join_returned room_id r)
  after_join-Move room_id (value tt) b (some rest) e = joined room_id rest e
  after_join-Move room_id (error err) b (some rest) e = not_joined room_id err rest e

  -- A cleanup clears the room that the event is of.
  cleanup_room-Move :
      (answers : Answers) (evt : MemberEvent) (b : Backend lib)
      → b.initial_synced ≡ true
      → (evt.membership ≡ some leave) ⊎ (evt.membership ≡ some ban)
      → Ends b answers evt
      → Move b (member answers evt) (reset evt.room_id b.active_room, b.joining)
  unfolding reset
  cleanup_room-Move answers evt b sync h ends =
      if_cases (λ (a : ActiveConversation). Move b (member answers evt) (a, b.joining))
        (text_eq b.active_room evt.room_id) (ended answers evt sync h ends)
        (λ _. stays (member answers evt))

  if_alone-Move :
      (answers : Answers) (evt : MemberEvent) (b : Backend lib) (members : Fallible ℕ)
      → b.initial_synced ≡ true
      → (evt.membership ≡ some leave) ⊎ (evt.membership ≡ some ban)
      → answers.members ≡ members
      → Move b (member answers evt) (rooms (if_alone lib evt.room_id members b))
  unfolding cleanup_room
  if_alone-Move answers evt b (error e) sync h eq = stays (member answers evt)
  if_alone-Move answers evt b (value members) sync h eq =
      if_cases (λ (b' : Backend lib). Move b (member answers evt) (rooms b')) (ltb 1 members)
        (λ _. stays (member answers evt))
        (λ few. cleanup_room-Move answers evt b sync h (alone members eq (ground arith)))

  leave-Move :
      (answers : Answers) (evt : MemberEvent) (b : Backend lib)
      → b.initial_synced ≡ true
      → (evt.membership ≡ some leave) ⊎ (evt.membership ≡ some ban)
      → Move b (member answers evt) (rooms (handle_leave lib answers evt b))
  unfolding handle_leave cleanup_room
  leave-Move answers evt b sync h =
      if_cases (λ (b' : Backend lib). Move b (member answers evt) (rooms b'))
        (text_eq evt.state_key b.user_id) (λ e. cleanup_room-Move answers evt b sync h (removed e))
        (λ _. if_alone-Move answers evt b answers.members sync h refl)

  membership-Move :
      (answers : Answers) (evt : MemberEvent) (b : Backend lib) (m : Option Membership)
      → b.initial_synced ≡ true
      → evt.membership ≡ m
      → Move b (member answers evt) (rooms (on_membership lib answers evt m b))
  membership-Move answers evt b none sync eq = stays (member answers evt)
  membership-Move answers evt b (some invite) sync eq = invite-Move answers evt b sync eq
  membership-Move answers evt b (some leave) sync eq = leave-Move answers evt b sync (inl eq)
  membership-Move answers evt b (some ban) sync eq = leave-Move answers evt b sync (inr eq)
  membership-Move answers evt b (some join) sync eq = stays (member answers evt)
  membership-Move answers evt b (some knock) sync eq = stays (member answers evt)
  membership-Move answers evt b (some unknown) sync eq = stays (member answers evt)

  track_room-Move :
      (answers : Answers) (evt : MessageEvent) (b : Backend lib) (ids : List Text)
      → Admits lib b evt.sender
      → Move b
          (message answers evt)
          (rooms (track_room lib evt.room_id (record b { marked_read = ids })))
  unfolding track_room
  track_room-Move answers evt b ids a =
      if_cases (λ (b' : Backend lib). Move b (message answers evt) (rooms b'))
        (is_empty b.active_room) (discovered answers evt a) (λ _. stays (message answers evt))

  Same-rooms : (b b' : Backend lib) → Same lib b b' → rooms b' ≡ rooms b
  Same-rooms b b' s = cc (s.active_room, s.joining)

  hand_on-rooms :
      (evt : MessageEvent) (msg : MessageContent) (r : Option Text × Backend lib)
      → rooms (hand_on lib evt msg r) ≡ rooms r.1
  hand_on-rooms evt msg (none, b) = refl
  hand_on-rooms evt msg (some body, b) = refl

  on_content-Move :
      (answers : Answers) (evt : MessageEvent) (b : Backend lib) (content : Option MessageContent)
      → Admitted lib b evt content
      → Move b (message answers evt) (rooms (on_content lib answers evt content b))
  unfolding track_room
  on_content-Move answers evt b none dropped = stays (message answers evt)
  on_content-Move answers evt b (some msg) (admitted _ a content typed) =
      if_cases (λ (b' : Backend lib). Move b (message answers evt) (rooms b'))
        (text_eq msg.body (codes "!verify"))
        (λ _.
          subst (Move b (message answers evt))
            (sym (Same-rooms _ _ (handle_verify-Same lib evt.room_id answers.verified tracked)))
            moved)
        (λ _.
          subst (Move b (message answers evt))
            (sym (
              hand_on-rooms evt msg (body_of lib answers msg evt.room_id msg.msg_type tracked)
              ∙ Same-rooms _ _ (body_of-Same lib answers msg evt.room_id msg.msg_type tracked)))
            moved)
    where
      tracked : Backend lib
      tracked = track_room lib evt.room_id (record b { marked_read = b.marked_read ++ evt.id ∷ [] })

      moved : Move b (message answers evt) (rooms tracked)
      moved = track_room-Move answers evt b (b.marked_read ++ evt.id ∷ []) a

  -- At every step, the active room and the joins under way stay as they are, unless: the sync is past
  -- its start, and a user who may write invites the bot while there is no active room, which begins a
  -- join; a join that was begun returns, and its room becomes the active one if it succeeded, whatever
  -- the active room is by then; there is no active room, and a user who may write sends a message from
  -- a room, which becomes the active one; or the active room is the one that the bot is removed from,
  -- that nobody else is in when somebody leaves, or that the app resets, and there is none then.
  pub on_event-Move : (e : Event) (b : Backend lib) → Move b e (rooms (on_event lib e b))
  unfolding on_event finish_invite handle_membership handle_message on_sync reset_conversation reset
  on_event-Move (member answers evt) b =
      if_cases (λ (b' : Backend lib). Move b (member answers evt) (rooms b')) (not b.initial_synced)
        (λ _. stays (member answers evt))
        (λ sync. membership-Move answers evt b evt.membership (not_undo b.initial_synced sync) refl)
  on_event-Move (message answers evt) b =
      on_content-Move answers evt b (filter_message lib evt b) (filter_message-Admitted lib evt b)
  on_event-Move (join_returned room_id r) b =
      after_join-Move room_id r b (end_join room_id b.joining) refl
  on_event-Move (synced since) b =
      if_keeps (λ (b' : Backend lib). Move b (synced since) (rooms b')) (is_empty since)
        (stays (synced since)) (stays (synced since))
  on_event-Move (reset_of conversation_id) b =
      if_cases (λ (a : ActiveConversation). Move b (reset_of conversation_id) (a, b.joining))
        (text_eq b.active_room conversation_id) (given_up conversation_id)
        (λ _. stays (reset_of conversation_id))
