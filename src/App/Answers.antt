-- ===== src/App/Answers.antt =====
-- What the handlers of the commands in app.go answer, and what the agent is asked for a message.
use opencrow.Prelude.{
  arith, ◌≡◌, if◌then◌else◌, refl, true, false, List, [], ◌∷◌, ◌++◌, not, none, length, if_cases,
}
use opencrow.Prelude.Text.{Text, codes, is_empty}
use opencrow.Conversation.{is_nil}
use opencrow.Database.{Db, failed, exec_cases}
use opencrow.Inbox.{enqueue, priority_user}
use opencrow.Worker.State.{
  PiError, CompactOutcome, compacted, no_active_session, compact_failed, World, Effect,
  reset_conversation, kill_pi, is_active, is_some, notify, compact_start, CompactStart, waiting,
  refused_enqueue, succeeded,
}
use opencrow.App.Messages.{
  Go, Message, AppState, help_text, pi_error_text, skill_lines, skills_summary, is_command,
  compact_text, compact_reply, build_prompt_text, quoted_text,
}
use opencrow.Outbox.{get}

-- What the agent is asked: the text of the message, below the one it replies to if there is one.
pub data Asks (go : Go) (msg : Message) : Text → Type 0 where
  plain : is_empty msg.reply_to_id ≡ true → Asks go msg msg.text
  unknown :
      is_empty msg.reply_to_id ≡ false
      → Asks go msg (
          codes
            "[user replied to a message whose content is unavailable — ask for clarification if their message is unclear]\n"
          ++ msg.text)
  quoting :
      (quoted : Text)
      → is_empty msg.reply_to_id ≡ false
      → is_empty quoted ≡ false
      → Asks go msg
          (codes "[user replied to message: " ++ (go.quote quoted ++ (codes "]\n" ++ msg.text)))

-- What is said for a message, behind which other effects: by each command, and where a message that
-- is no command cannot be queued.
pub data Says (go : Go) (msg : Message) (s s' : AppState) : List Effect → Text → Type 0 where
  helped : is_command msg (codes "!help") ≡ true → Says go msg s s' [] help_text
  restarted :
      is_command msg (codes "!restart") ≡ true
      → is_some s.world.pi ≡ true
      → s'.world.fresh_start ≡ true
      → s'.world.pi ≡ none
      → Says go msg s s' (reset_conversation msg.conversation_id ∷ kill_pi ∷ []) (
          codes
            "Session restarted. Next message starts a fresh session (previous context discarded).")
  restarted_idle :
      is_command msg (codes "!restart") ≡ true
      → is_some s.world.pi ≡ false
      → s'.world.fresh_start ≡ true
      → Says go msg s s' (reset_conversation msg.conversation_id ∷ []) (
          codes
            "Session restarted. Next message starts a fresh session (previous context discarded).")
  stopped :
      is_command msg (codes "!stop") ≡ true
      → is_active s.world ≡ true
      → is_some s.world.current_priority ≡ true
      → s'.world.cancelled ≡ true
      → Says go msg s s' [] (codes "Aborted current operation.")
  nothing_to_stop :
      is_command msg (codes "!stop") ≡ true
      → is_active s.world ≡ true
      → is_some s.world.current_priority ≡ false
      → Says go msg s s' [] (codes "Nothing running to stop.")
  no_session :
      is_command msg (codes "!stop") ≡ true
      → is_active s.world ≡ false
      → Says go msg s s' [] (codes "No active session.")
  nothing_to_compact :
      is_command msg (codes "!compact") ≡ true
      → is_active s.world ≡ false
      → Says go msg s s' [] (codes "No active session to compact.")
  in_progress :
      is_command msg (codes "!compact") ≡ true
      → s.world.compact_pending ≡ true
      → Says go msg s s' [] (codes "Compaction failed: compact already in progress")
  not_enqueued :
      is_command msg (codes "!compact") ≡ true
      → s.world.compact_pending ≡ false
      → Says go msg s s' []
          (codes "Compaction failed: enqueuing compact: " ++ go.database_error failed)
  summarised :
      (summary : Text) (tokens : _) (os : List CompactOutcome)
      → is_command msg (codes "!compact") ≡ true
      → s.compactions ≡ compacted summary tokens ∷ os
      → Says go msg s s' [] (
          codes "Compacted conversation (was "
          ++ (go.decimal tokens ++ (codes " tokens).\nSummary: " ++ summary)))
  session_gone :
      (os : List CompactOutcome)
      → is_command msg (codes "!compact") ≡ true
      → s.compactions ≡ no_active_session ∷ os
      → Says go msg s s' [] (codes "Compaction failed: no active session")
  not_compacted :
      (e : PiError) (os : List CompactOutcome)
      → is_command msg (codes "!compact") ≡ true
      → s.compactions ≡ compact_failed e ∷ os
      → Says go msg s s' [] (codes "Compaction failed: " ++ pi_error_text e)
  given_up :
      is_command msg (codes "!compact") ≡ true
      → s.compactions ≡ []
      → Says go msg s s' [] (codes "Compaction failed: compact cancelled: context canceled")
  no_skills :
      is_command msg (codes "!skills") ≡ true
      → is_nil s.skills ≡ true
      → Says go msg s s' [] (codes "No skills loaded.")
  skills_listed :
      is_command msg (codes "!skills") ≡ true
      → is_nil s.skills ≡ false
      → Says go msg s s' []
          (go.decimal (length s.skills) ++ (codes " skill(s) loaded:\n" ++ skill_lines go s.skills))
  not_queued :
      is_command msg (codes "!help") ≡ false
      → is_command msg (codes "!restart") ≡ false
      → is_command msg (codes "!stop") ≡ false
      → is_command msg (codes "!compact") ≡ false
      → is_command msg (codes "!skills") ≡ false
      → Says go msg s s' [] (codes "Error: " ++ go.database_error failed)

module _ (go : Go) (msg : Message) where
  quoted_text-Asks :
      (quoted : Text)
      → is_empty msg.reply_to_id ≡ false
      → Asks go msg (quoted_text go quoted msg.text)
  quoted_text-Asks quoted h =
      if_cases (Asks go msg) (is_empty quoted) (λ _. unknown h) (λ e. quoting quoted h e)

  pub build_prompt_text-Asks : (db : Db) → Asks go msg (build_prompt_text go msg db).0
  unfolding build_prompt_text
  build_prompt_text-Asks db =
      if_cases {A = Text × Db} (λ r. Asks go msg r.0) (is_empty msg.reply_to_id) (λ e. plain e)
        (λ e. quoted_text-Asks (get msg.conversation_id msg.reply_to_id db).0 e)

  module _ (s s' : AppState) where
    waited-Says :
        (os : List CompactOutcome)
        → is_command msg (codes "!compact") ≡ true
        → s.compactions ≡ os
        → Says go msg s s' [] (compact_text go waiting os)
    unfolding compact_reply
    waited-Says [] cmd e = given_up cmd e
    waited-Says (compacted summary tokens ∷ os) cmd e = summarised summary tokens os cmd e
    waited-Says (no_active_session ∷ os) cmd e = session_gone os cmd e
    waited-Says (compact_failed err ∷ os) cmd e = not_compacted err os cmd e

    pub compact_start-Says :
        is_command msg (codes "!compact") ≡ true
        → is_active s.world ≡ true
        → Says go msg s s' [] (compact_text go (compact_start s.world).0 s.compactions)
    unfolding compact_start enqueue
    compact_start-Says cmd active =
        let says =
          λ (r : CompactStart × World). Says go msg s s' [] (compact_text go r.0 s.compactions) in
        let w = s.world in
        if_cases says (not (is_active w)) (λ no. absurd (ground (arith, active, no)))
          λ _.
            if_cases says w.compact_pending (λ p. in_progress cmd p)
              λ p.
                exec_cases
                  (λ r. says (
                    if succeeded r.0
                    then (
                      waiting,
                      notify priority_user (record w { db = r.1; compact_pending = true }),
                    )
                    else (refused_enqueue, record w { db = r.1; compact_pending = false })))
                  _ w.db (λ _. not_enqueued cmd p) (λ _. waited-Says s.compactions cmd refl)

    pub skills_summary-Says :
        is_command msg (codes "!skills") ≡ true → Says go msg s s' [] (skills_summary go s.skills)
    unfolding skills_summary
    skills_summary-Says cmd =
        if_cases (Says go msg s s' []) (is_nil s.skills) (no_skills cmd) (skills_listed cmd)
