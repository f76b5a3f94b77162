-- ===== src/Reminders.antt =====
-- The reminders of heartbeat.go: those that are due go to the inbox as triggers.
--
-- SQLite's `datetime` and the order in which DELETE ... RETURNING hands rows out are not of this
-- program: whether a reminder is due at a time, and that order, are parameters.
pub mod Kept
pub mod Fired
use opencrow.Prelude.{ℕ, ◌+◌, Bool, List, [], ◌∷◌, ◌++◌, select, delete}
use opencrow.Prelude.Text.{Text, codes}
use opencrow.Database.{Source, Reminder, Db, Result, Query, ok, err, exec}
use opencrow.Inbox.{enqueue, priority_trigger}
use opencrow.Worker.State.{World, notify}

abbrev pub insert_reminder_row : Text → Text → Db → Db
insert_reminder_row fire_at prompt db = record db {
  reminders =
      db.reminders ++ record { id = db.reminders_seq; fire_at = fire_at; prompt = prompt } ∷ [];
  reminders_seq = db.reminders_seq + 1;
}

unfoldable pub insert_reminder : Text → Text → Query (Unit {0})
insert_reminder fire_at prompt = exec λ db. (ok tt, insert_reminder_row fire_at prompt db)

unfoldable pub reminder_text : Reminder → Text
reminder_text r = codes "Reminder (set for " ++ (r.fire_at ++ (codes "): " ++ r.prompt))

-- A reminder that cannot be enqueued is put back; whether that succeeds is only logged.
abbrev pub fired : Reminder → Result (Unit {0}) × Db → World → World
fired r (ok _, db') w = notify priority_trigger (record w { db = db' })
fired r (err e, db') w = record w { db = (insert_reminder r.fire_at r.prompt db').1 }

unfoldable pub fire : Reminder → World → World
fire r w = fired r (enqueue priority_trigger Source.trigger (reminder_text r) [] w.db) w

unfoldable pub fire_all : List Reminder → World → World
fire_all [] w = w
fire_all (r ∷ rs) w = fire_all rs (fire r w)

module _ (datetime_le : Text → Text → Bool) (returned : List Reminder → List Reminder) where
  abbrev pub is_due : Text → Reminder → Bool
  is_due now r = datetime_le r.fire_at now

  unfoldable pub due_reminders : Text → Query (List Reminder)
  due_reminders now = exec λ db. (
    ok (returned (select (is_due now) db.reminders)),
    record db { reminders = delete (is_due now) db.reminders },
  )

  abbrev pub dispatched : Result (List Reminder) × Db → World → World
  dispatched (ok due, db') w = fire_all due (record w { db = db' })
  dispatched (err e, db') w = record w { db = db' }

  unfoldable pub dispatch_due_reminders : Text → World → World
  unfolding due_reminders
  dispatch_due_reminders now w = dispatched (due_reminders now w.db) w
