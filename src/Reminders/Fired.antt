-- ===== src/Reminders/Fired.antt =====
-- `dispatchDueReminders` of heartbeat.go while the database answers.
use opencrow.Prelude.{
  ℕ, ◌+◌, ◌≡◌, refl, ◌∙◌, Bool, List, [], ◌∷◌, ◌++◌, select, delete, append_assoc, append-nil, sym,
}
use opencrow.Prelude.Text.{Text}
use opencrow.Database.{Source, Inbox, Reminder, healthy, exec}
use opencrow.Inbox.{enqueue, priority_trigger}
use opencrow.Worker.State.{World, notify}
use opencrow.Reminders.{reminder_text, fire, fire_all, is_due, dispatch_due_reminders}

-- The inbox rows of these reminders, the first with id `n`.
abbrev pub reminder_rows : ℕ → List Reminder → List Inbox
reminder_rows n [] = []
reminder_rows n (r ∷ rs) =
    record {
      id = n;
      priority = priority_trigger;
      source = Source.trigger;
      content = reminder_text r;
      reply_to = [];
    }
    ∷ reminder_rows (n + 1) rs

-- A world whose database answers.
abbrev pub up : World → World
up w = record w { db = healthy w.db }

fire_all-up :
    (rs : List Reminder) (w : World)
    → ((fire_all rs (up w)).db.inbox ≡ w.db.inbox ++ reminder_rows w.db.inbox_seq rs)
      × ((fire_all rs (up w)).db.reminders ≡ w.db.reminders)
unfolding fire_all fire enqueue exec notify
fire_all-up [] w = (sym (append-nil w.db.inbox), refl)
fire_all-up (r ∷ rs) w =
    let h = fire_all-up rs (fire r (up w)) in (h.0 ∙ append_assoc w.db.inbox _ _, h.1)

-- While the database answers, exactly the reminders that are not due stay, and for each due one a
-- trigger with its time and prompt comes last into the inbox, in the order in which they were
-- returned.
pub dispatch_due_reminders-up :
    (datetime_le : Text → Text → Bool) (returned : List Reminder → List Reminder) (now : Text)
    (w : World)
    → let w' = dispatch_due_reminders datetime_le returned now (up w) in
      (w'.db.reminders ≡ delete (is_due datetime_le returned now) w.db.reminders)
      × (w'.db.inbox
          ≡ w.db.inbox
            ++ reminder_rows w.db.inbox_seq
                (returned (select (is_due datetime_le returned now) w.db.reminders)))
unfolding dispatch_due_reminders exec
dispatch_due_reminders-up datetime_le returned now w =
    let p = is_due datetime_le returned now in
    let h =
      fire_all-up (returned (select p w.db.reminders))
        (record w { db = record w.db { reminders = delete p w.db.reminders } }) in
    (h.1, h.0)
