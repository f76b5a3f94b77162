-- ===== src/Socket/Ids.antt =====
-- The ids that socket/backend.go gives to messages, and what they do to the outbox.
use opencrow.Prelude.{
  ℕ, zero, suc, ◌+◌, ◌%◌, ◌^◌, ◌≤◌, ◌<◌, ◌≡◌, refl, sym, ap, ◌∙◌, List, [], ◌∷◌, ◌++◌, Option, none,
  some, arith, length, length-append, if_keeps, if◌then◌else◌, append-nil, append_assoc,
}
use mathlib.Core.Option
use opencrow.Prelude.Text.{Text, codes, text_eq, is_empty}
use opencrow.Conversation.{attachment_text}
use opencrow.Database.{Db, healthy}
use opencrow.Outbox.{put, get}
use opencrow.Outbox.Window.{IsBounded}
use opencrow.Outbox.Replies.{get-put}
use opencrow.App.Messages.{Message}
use opencrow.Socket.{
  blank, Backend, Step, connect, disconnect, command, message_out, file_out, delta_out, typing_out,
  push_waiting, conversation_id, Waiting, from_client, take_at, hand_on, push_taken, now, later,
  push, begin_message, handle_command, send_message, step, steps,
}
use opencrow.Socket.Wire.{
  event_of, msg, Event, WireMessage, CmdName, dir_in, dir_out, Command, send, send_file, replay,
  mark_read, unknown,
}

abbrev pub id_in : Option WireMessage → List Text
id_in none = []
id_in (some m) = m.id ∷ []

-- The ids of the messages among the events, in order.
abbrev pub ids_of : List Event → List Text
ids_of [] = []
ids_of (ev ∷ evs) = id_in ev.message ++ ids_of evs

abbrev pub waiting_ids : List Waiting → List Text
waiting_ids [] = []
waiting_ids (w ∷ ws) = w.message.id ∷ waiting_ids ws

-- How often an id is among some.
abbrev pub count : Text → List Text → ℕ
count id [] = 0
count id (x ∷ xs) = (if text_eq id x then 1 else 0) + count id xs

count-append : (id : Text) (xs ys : List Text) → count id (xs ++ ys) ≡ count id xs + count id ys
count-append id [] ys = omega arith
count-append id (x ∷ xs) ys = omega (arith, count-append id xs ys)

ids_of-snoc :
    (evs : List Event) (ev : Event) → ids_of (evs ++ ev ∷ []) ≡ ids_of evs ++ id_in ev.message
ids_of-snoc [] ev = append-nil (id_in ev.message)
ids_of-snoc (x ∷ evs) ev =
    ap (λ ids. id_in x.message ++ ids) (ids_of-snoc evs ev)
    ∙ sym (append_assoc (id_in x.message) (ids_of evs) (id_in ev.message))

waiting_ids-snoc :
    (ws : List Waiting) (w : Waiting)
    → waiting_ids (ws ++ w ∷ []) ≡ waiting_ids ws ++ w.message.id ∷ []
waiting_ids-snoc [] w = refl
waiting_ids-snoc (x ∷ ws) w = ap (λ ids. x.message.id ∷ ids) (waiting_ids-snoc ws w)

-- What is taken from the messages that wait is one of them, and the others stay.
abbrev Parts : Text → List Waiting → Option (Waiting × List Waiting) → Type 0
Parts id ws none = Unit
Parts id ws (some (w, rest)) =
    count id (waiting_ids ws) ≡ count id (w.message.id ∷ []) + count id (waiting_ids rest)

Parts-cons :
    (id : Text) (w : Waiting) (ws : List Waiting) (r : Option (Waiting × List Waiting))
    → Parts id ws r
    → Parts id (w ∷ ws) (Option.map (λ (r : Waiting × List Waiting). (r.0, w ∷ r.1)) r)
Parts-cons id w ws none h = tt
Parts-cons id w ws (some (x, rest)) h = omega (arith, h)

take_at-Parts : (id : Text) (i : ℕ) (ws : List Waiting) → Parts id ws (take_at i ws)
unfolding take_at
take_at-Parts id i [] = tt
take_at-Parts id zero (w ∷ ws) = omega arith
take_at-Parts id (suc i) (w ∷ ws) = Parts-cons id w ws (take_at i ws) (take_at-Parts id i ws)

-- A backend from its start.
abbrev pub IsNew : Backend → Type 0
IsNew b = (b.msg_seq ≡ 0) × (b.taken ≡ []) × (b.waiting ≡ []) × (b.pushed ≡ [])

module _ (format_int : ℕ → Text) where
  -- The ids from 1 to a number.
  abbrev pub first_ids : ℕ → List Text
  first_ids zero = []
  first_ids (suc n) = first_ids n ++ (codes "local-" ++ format_int (suc n)) ∷ []

  -- The ids so far, of which there are no more than there were steps, and the messages that have them.
  record IsCounted (k : ℕ) (b : Backend) : Type 0 where
    few : b.msg_seq ≤ k
    ids : b.taken ≡ first_ids b.msg_seq
    once :
        (id : Text)
        → count id (ids_of b.pushed) + count id (waiting_ids b.waiting) ≡ count id b.taken

  IsCounted-suc : {k : ℕ} {b : Backend} → IsCounted k b → IsCounted (suc k) b
  IsCounted-suc c = record { few = omega (arith, c.few); ids = c.ids; once = c.once }

  -- An event that is no message.
  push-IsCounted :
      (k : ℕ) (ev : Event) (b : Backend)
      → ev.message ≡ none
      → IsCounted k b
      → IsCounted (suc k) (push ev b)
  unfolding push
  push-IsCounted k ev b e c = record {
    few = omega (arith, c.few);
    ids = c.ids;
    once = λ id.
        ap (λ ids. count id ids + count id (waiting_ids b.waiting))
          (ids_of-snoc b.pushed ev ∙ rw e (append-nil (ids_of b.pushed)))
        ∙ c.once id;
  }

  begin_message-IsCounted :
      (k : ℕ) (m : WireMessage) (hands_on : Text → Option Message) (b : Backend)
      → suc k < 2 ^ 64
      → IsCounted k b
      → IsCounted (suc k) (begin_message format_int m hands_on b).1
  unfolding begin_message
  begin_message-IsCounted k m hands_on b lt c =
      let next : (b.msg_seq + 1) % 2 ^ 64 ≡ suc b.msg_seq = omega (arith, c.few) in
      let id : Text = codes "local-" ++ format_int (suc b.msg_seq) in
      rw next (record {
        few = omega (arith, c.few);
        ids = ap (λ ids. ids ++ id ∷ []) c.ids;
        once = λ x.
            let grown = ap (count x) (
              waiting_ids-snoc b.waiting
                (record { message = record m { id = id }; hands_on = hands_on id })) in
            omega (
              arith,
              c.once x,
              grown,
              count-append x (waiting_ids b.waiting) (id ∷ []),
              count-append x b.taken (id ∷ []),
            );
      })

  push_taken-IsCounted :
      (k : ℕ) (b : Backend) (r : Option (Waiting × List Waiting))
      → ((id : Text) → Parts id b.waiting r)
      → IsCounted k b
      → IsCounted (suc k) (push_taken r b)
  unfolding push_taken push
  push_taken-IsCounted k b none parts c = IsCounted-suc c
  push_taken-IsCounted k b (some (w, ws)) parts c = handed w.hands_on
    where
      event : Event
      event = record (event_of msg) { message = some (record w.message { ts = now b.clock }) }

      once :
          (id : Text)
          → count id (ids_of (b.pushed ++ event ∷ [])) + count id (waiting_ids ws)
            ≡ count id b.taken
      once id = omega (
        arith,
        c.once id,
        parts id,
        ap (count id) (ids_of-snoc b.pushed event),
        count-append id (ids_of b.pushed) (w.message.id ∷ []),
      )

      pushed : Backend
      pushed = push event (record b { waiting = ws; clock = later b.clock })

      handed : (m : Option Message) → IsCounted (suc k) (hand_on m pushed)
      handed none = record { few = omega (arith, c.few); ids = c.ids; once = once }
      handed (some m) = record { few = omega (arith, c.few); ids = c.ids; once = once }

  named-IsCounted :
      (k : ℕ) (c : Command) (name : CmdName) (conn : ℕ) (b : Backend)
      → suc k < 2 ^ 64
      → IsCounted k b
      → IsCounted (suc k) (handle_command format_int (record c { cmd = name }) conn b)
  unfolding handle_command
  named-IsCounted k c send conn b lt i =
      if_keeps (IsCounted (suc k)) (is_empty c.text) (IsCounted-suc i) (
        begin_message-IsCounted k
          (record (blank dir_out) {
            content = c.text;
            reply_to = c.reply_to;
            message_type = c.message_type;
          })
          (λ id. some (from_client id c.text c.reply_to)) b lt i)
  named-IsCounted k c send_file conn b lt i =
      if_keeps (IsCounted (suc k)) (is_empty c.path) (IsCounted-suc i) (
        begin_message-IsCounted k (record (blank dir_out) { image = c.path })
          (λ id. some (from_client id (attachment_text [] c.path) [])) b lt i)
  named-IsCounted k c replay conn b lt i = record {
    few = omega (arith, i.few);
    ids = i.ids;
    once = i.once;
  }
  named-IsCounted k c mark_read conn b lt i = IsCounted-suc i
  named-IsCounted k c unknown conn b lt i = IsCounted-suc i

  handle_command-IsCounted :
      (k : ℕ) (c : Command) (conn : ℕ) (b : Backend)
      → suc k < 2 ^ 64
      → IsCounted k b
      → IsCounted (suc k) (handle_command format_int c conn b)
  handle_command-IsCounted k c = named-IsCounted k c c.cmd

  step-IsCounted :
      (k : ℕ) (s : Step) (b : Backend)
      → suc k < 2 ^ 64
      → IsCounted k b
      → IsCounted (suc k) (step format_int s b)
  unfolding step
  step-IsCounted k (connect n faults) b lt c = record {
    few = omega (arith, c.few);
    ids = c.ids;
    once = c.once;
  }
  step-IsCounted k (disconnect n) b lt c = record {
    few = omega (arith, c.few);
    ids = c.ids;
    once = c.once;
  }
  step-IsCounted k (command cmd conn) b lt c = handle_command-IsCounted k cmd conn b lt c
  step-IsCounted k (message_out text reply_to) b lt c =
      begin_message-IsCounted k (record (blank dir_in) { content = text; reply_to = reply_to })
        (λ id. none) b lt c
  step-IsCounted k (file_out path) b lt c =
      begin_message-IsCounted k (record (blank dir_in) { image = path }) (λ id. none) b lt c
  step-IsCounted k (push_waiting i) b lt c =
      push_taken-IsCounted k b (take_at i b.waiting) (λ id. take_at-Parts id i b.waiting) c
  step-IsCounted k (delta_out id text) b lt c = push-IsCounted k _ b refl c
  step-IsCounted k (typing_out on) b lt c =
      if_keeps (IsCounted (suc k)) on (push-IsCounted k _ b refl c) (IsCounted-suc c)

  steps-IsCounted :
      (k : ℕ) (ss : List Step) (b : Backend)
      → k + length ss < 2 ^ 64
      → IsCounted k b
      → IsCounted (k + length ss) (steps format_int ss b)
  unfolding steps
  steps-IsCounted k [] b lt c = record { few = omega (arith, c.few); ids = c.ids; once = c.once }
  steps-IsCounted k (s ∷ ss) b lt c =
      let r =
        steps-IsCounted (suc k) ss (step format_int s b) (omega arith)
          (step-IsCounted k s b (omega arith) c) in
      record { few = omega (arith, r.few); ids = r.ids; once = r.once }

  new-IsCounted : (b : Backend) → IsNew b → IsCounted 0 b
  new-IsCounted b (seq, taken, waiting, pushed) = record {
    few = omega arith;
    ids = rw (seq, taken) refl;
    once = λ id. rw (taken, waiting, pushed) refl;
  }

  -- Whatever clients and opencrow do, in fewer than 2 ^ 64 steps from the start of a backend, and in
  -- whatever order the messages that have their ids are pushed: the ids are local-1, local-2 and so on
  -- in the order in which they were taken, and each is on as many messages, pushed or still to be
  -- pushed, as it was taken.
  pub steps-ids :
      (ss : List Step) (b : Backend)
      → IsNew b
      → length ss < 2 ^ 64
      → let b' = steps format_int ss b in
        (b'.taken ≡ first_ids b'.msg_seq)
        × ((id : Text)
            → count id (ids_of b'.pushed) + count id (waiting_ids b'.waiting) ≡ count id b'.taken)
  steps-ids ss b new lt =
      let c = steps-IsCounted 0 ss b (omega arith) (new-IsCounted b new) in (c.ids, c.once)

  length-first_ids : (n : ℕ) → length (first_ids n) ≡ n
  length-first_ids zero = refl
  length-first_ids (suc n) = omega (
    arith,
    length-append (first_ids n) ((codes "local-" ++ format_int (suc n)) ∷ []),
    length-first_ids n,
  )

  steps-msg_seq :
      (ss : List Step) (b : Backend)
      → IsNew b
      → length ss < 2 ^ 64
      → length (steps format_int ss b).taken ≡ (steps format_int ss b).msg_seq
  steps-msg_seq ss b new lt =
      ap (length {0}) (steps-ids ss b new lt).0 ∙ length-first_ids (steps format_int ss b).msg_seq

  send_message-msg_seq :
      (text reply_to text' reply_to' : Text) (b b' : Backend)
      → b.msg_seq ≡ b'.msg_seq
      → (send_message format_int text reply_to b).0 ≡ (send_message format_int text' reply_to' b').0
  unfolding send_message
  send_message-msg_seq text reply_to text' reply_to' b b' e = rw e refl

  -- The ids start again with the program, and the outbox does not: the text that is sent after as many
  -- ids were taken as in an earlier run before its text, both runs from a new backend and in fewer than
  -- 2 ^ 64 steps, is what a healthy and bounded outbox that puts it on record then has for the id of
  -- the earlier text.
  pub get-put-send_message :
      (before after : List Step) (b b' : Backend) (text reply_to text' reply_to' : Text) (db : Db)
      → IsNew b
      → IsNew b'
      → length before < 2 ^ 64
      → length after < 2 ^ 64
      → length (steps format_int before b).taken ≡ length (steps format_int after b').taken
      → IsBounded db.sent_messages
      → (get conversation_id (send_message format_int text reply_to (steps format_int before b)).0 (
          put conversation_id
            (send_message format_int text' reply_to' (steps format_int after b')).0
            text'
            (healthy db))).0
        ≡ text'
  unfolding send_message
  get-put-send_message before after b b' text reply_to text' reply_to' db new new' lt lt' same
        bounded =
      let equally_many : (steps format_int before b).msg_seq ≡ (steps format_int after b').msg_seq =
        omega (arith, steps-msg_seq before b new lt, steps-msg_seq after b' new' lt') in
      rw
        (send_message-msg_seq text reply_to text' reply_to' (steps format_int before b)
          (steps format_int after b') equally_many)
        (get-put conversation_id _ text' db refl bounded)
