-- ===== src/App/Quotes.antt =====
-- A reply of app.go that a later message quotes: `sendReplyWithFiles`, the outbox and `handlePrompt`.
use opencrow.Prelude.{
  ℕ, ◌≤◌, ◌≡◌, refl, sym, ap, ◌∙◌, subst, inl, inr, false, List, [], ◌∷◌, ◌++◌, none, arith, length,
  All, All-append, length-append, Bool-cases, Option-cases,
}
use opencrow.Prelude.Text.{Text, codes, is_empty}
use opencrow.Database.{Source, Inbox, SentMessage, Db, healthy, exec}
use opencrow.Inbox.{enqueue, priority_user}
use opencrow.Outbox.{put, get, has_key, find_text}
use opencrow.Outbox.Window.{put-healthy}
use opencrow.Outbox.Recent.{put_all, get-put_all}
use opencrow.Outbox.Frames.{put-part}
use opencrow.Worker.State.{notify}
use opencrow.App.Messages.{
  Go, Message, AppState, on_world, quoted_text, enqueued, is_command, recorded, handle_prompt,
  handle_message,
}
use opencrow.App.Replies.{next_id, send_and_record}

-- The text of the message is none of the commands.
abbrev pub IsPlain : Message → Type 0
IsPlain msg =
    (is_command msg (codes "!help") ≡ false)
    × (is_command msg (codes "!restart") ≡ false)
    × (is_command msg (codes "!stop") ≡ false)
    × (is_command msg (codes "!compact") ≡ false)
    × (is_command msg (codes "!skills") ≡ false)

-- No query fails.
abbrev pub up : AppState → AppState
up = on_world λ w. record w { db = healthy w.db }

put-IsHealthy : (c m t : Text) (db : Db) → put c m t (healthy db) ≡ healthy (put c m t (healthy db))
put-IsHealthy c m t db = elim (Bool-cases (is_empty m)) [
  | inl e ↦ unfold put in rw e refl
  | inr e ↦ rw (put-healthy c m t db e) refl
]

put_all-IsHealthy :
    (rs : List SentMessage) (db : Db) → db ≡ healthy db → put_all rs db ≡ healthy (put_all rs db)
put_all-IsHealthy [] db h = h
put_all-IsHealthy (r ∷ rs) db h = put_all-IsHealthy rs _ (
    subst
      (λ d.
        put r.conversation_id r.message_id r.text d
        ≡ healthy (put r.conversation_id r.message_id r.text d))
      (sym h) (put-IsHealthy r.conversation_id r.message_id r.text db))

put_all-snoc :
    (rs : List SentMessage) (r : SentMessage) (db : Db)
    → put_all (rs ++ r ∷ []) db ≡ put r.conversation_id r.message_id r.text (put_all rs db)
put_all-snoc [] r db = refl
put_all-snoc (x ∷ rs) r db = put_all-snoc rs r (put x.conversation_id x.message_id x.text db)

put_all-rows : (rs : List SentMessage) (db : Db) → (put_all rs db).inbox ≡ db.inbox
put_all-rows [] db = refl
put_all-rows (r ∷ rs) db =
    put_all-rows rs (put r.conversation_id r.message_id r.text db)
    ∙ put-part (λ d. d.inbox) (λ _ _ _. refl) r.conversation_id r.message_id r.text db

abbrev message_of : Message → SentMessage
message_of msg = record {
  conversation_id = msg.conversation_id;
  message_id = msg.message_id;
  text = msg.text;
}

abbrev pub prompt_row : Message → Text → ℕ → Inbox
prompt_row msg prompt id = record {
  id = id;
  priority = priority_user;
  source = Source.user;
  content = prompt;
  reply_to = msg.reply_to_id;
}

-- The inbox has one new row, with this prompt.
abbrev pub HasQueued : Message → Text → Db → Db → Type 0
HasQueued msg prompt db db' = (id : ℕ) × (db'.inbox ≡ db.inbox ++ prompt_row msg prompt id ∷ [])

get-IsHealthy : (c m : Text) (db : Db) → (get c m (healthy db)).1 ≡ healthy db
unfolding get exec
get-IsHealthy c m db = elim (Bool-cases (is_empty m)) [
  | inl e ↦ rw e refl
  | inr e ↦ elim (Option-cases (find_text c m db.sent_messages)) [
    | inl n ↦ rw (e, n) refl
    | inr (t, f) ↦ rw (e, f) refl
  ]
]

HasQueued-rows :
    (msg : Message) (prompt : Text) (db db' d : Db)
    → db.inbox ≡ db'.inbox
    → HasQueued msg prompt db d
    → HasQueued msg prompt db' d
HasQueued-rows msg prompt db db' d e (id, h) =
    (id, h ∙ ap (λ rs. rs ++ prompt_row msg prompt id ∷ []) e)

module _ (go : Go) (msg : Message) where
  handle_message-plain :
      (s : AppState)
      → IsPlain msg
      → handle_message go msg s ≡ handle_prompt go msg (on_world (recorded msg) s)
  unfolding handle_message
  handle_message-plain s h = rw (h.0, h.1, h.2, h.3, h.4) refl

  enqueued-HasQueued :
      (prompt prompt' : Text) (db db' : Db) (s : AppState)
      → prompt' ≡ prompt
      → db' ≡ healthy db
      → HasQueued msg prompt db
          (enqueued go msg
            (enqueue priority_user Source.user prompt' msg.reply_to_id db')
            s).world.db
  unfolding enqueue exec notify
  enqueued-HasQueued prompt prompt' db db' s e h =
      subst
        (λ d.
          HasQueued msg prompt db
            (enqueued go msg (enqueue priority_user Source.user prompt' msg.reply_to_id d)
              s).world.db)
        (sym h)
        (subst
          (λ p.
            HasQueued msg prompt db
              (enqueued go msg (enqueue priority_user Source.user p msg.reply_to_id (healthy db))
                s).world.db)
          (sym e) (db.inbox_seq, refl))

  -- What is queued for a reply to a message.
  handle_prompt-quotes :
      (quoted : Text) (db : Db) (s : AppState)
      → is_empty msg.reply_to_id ≡ false
      → (get msg.conversation_id msg.reply_to_id (healthy db)).0 ≡ quoted
      → s.world.db ≡ healthy db
      → HasQueued msg (quoted_text go quoted msg.text) db (handle_prompt go msg s).world.db
  unfolding handle_prompt
  handle_prompt-quotes quoted db s ne g h =
      subst
        (λ d.
          HasQueued msg (quoted_text go quoted msg.text) db
            (handle_prompt go msg (on_world (λ w. record w { db = d }) s)).world.db)
        (sym h)
        (enqueued-HasQueued (quoted_text go quoted msg.text) _ db _ _
          (rw ne (ap (λ q. quoted_text go q msg.text) g))
          (rw ne (get-IsHealthy msg.conversation_id msg.reply_to_id db)))

  -- Where no query fails, a text that the bot sends under a new id is quoted in the prompt of a plain
  -- message that replies to it in its conversation, word for word, even after up to 498 messages with
  -- other ids were put on record between the two.
  pub reply-quoted :
      (text reply_to : Text) (later : List SentMessage) (s : AppState)
      → msg.reply_to_id ≡ next_id s.sent_ids
      → is_empty msg.reply_to_id ≡ false
      → find_text msg.conversation_id msg.reply_to_id s.world.db.sent_messages ≡ none
      → All (λ r. has_key msg.conversation_id msg.reply_to_id r ≡ false) (message_of msg ∷ later)
      → length later ≤ 498
      → IsPlain msg
      → HasQueued msg
          (quoted_text go text msg.text)
          s.world.db
          (handle_message go msg (
            on_world
              (λ w. record w { db = put_all later w.db })
              (send_and_record msg.conversation_id text reply_to (up s)))).world.db
  unfolding send_and_record
  reply-quoted text reply_to later s same ne fresh others le plain =
      let first = put msg.conversation_id msg.reply_to_id text (healthy s.world.db) in
      let puts = later ++ message_of msg ∷ [] in
      let all = put_all puts first in
      let quoted =
        get-put_all msg.conversation_id msg.reply_to_id text puts s.world.db ne fresh
          (All-append _ later (message_of msg ∷ []) others.1 (others.0, tt))
          (omega (arith, length-append later (message_of msg ∷ []))) in
      let s' =
        on_world (λ w. record w { db = put_all later w.db })
          (send_and_record msg.conversation_id text reply_to (up s)) in
      let put_both =
        ap
          (λ id.
            put msg.conversation_id msg.message_id msg.text
              (put_all later (put msg.conversation_id id text (healthy s.world.db))))
          (sym same)
        ∙ sym (put_all-snoc later (message_of msg) first)
        ∙ put_all-IsHealthy puts first
            (put-IsHealthy msg.conversation_id msg.reply_to_id text s.world.db) in
      let kept =
        put_all-rows puts first
        ∙ put-part (λ d. d.inbox) (λ _ _ _. refl) msg.conversation_id msg.reply_to_id text
            (healthy s.world.db) in
      subst (λ x. HasQueued msg (quoted_text go text msg.text) s.world.db x.world.db)
        (sym (handle_message-plain s' plain))
        (HasQueued-rows msg _ all s.world.db
          (handle_prompt go msg (on_world (recorded msg) s')).world.db kept
          (handle_prompt-quotes text all (on_world (recorded msg) s') ne quoted put_both))
