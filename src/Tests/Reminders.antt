-- ===== src/Tests/Reminders.antt =====
-- A reminder that is due.
use mathlib.Core.List.Perm
use opencrow.Prelude.{◌≡◌, refl, sym, Bool, true, false, [], ◌∷◌, ◌++◌, select, delete}
use opencrow.Prelude.Text.{Text, codes}
use opencrow.Database.{Reminder, Db}
use opencrow.Reminders.{dispatch_due_reminders, is_due}
use opencrow.Reminders.Kept.{copies, dispatch_due_reminders-keeps}
use opencrow.Reminders.Fired.{up, reminder_rows, dispatch_due_reminders-up}
use opencrow.Tests.Data.{three_rows, world_with}

abbrev call_mum : Reminder
call_mum = record { id = 1; fire_at = codes "9"; prompt = codes "call mum" }

-- One reminder waits, and the second query from now on fails.
abbrev waiting : Db
waiting = record three_rows {
  reminders = call_mum ∷ [];
  reminders_seq = 2;
  faults = false ∷ true ∷ false ∷ [];
}

abbrev always : Text → Text → Bool
always s t = true

abbrev reminded : Text
reminded = codes "Reminder (set for 9): call mum"

dispatch_due_reminders-keeps_example :
    copies reminded
      (dispatch_due_reminders always (λ rs. rs) (codes "9") (world_with waiting [])).db
    ≡ copies reminded waiting
dispatch_due_reminders-keeps_example =
    dispatch_due_reminders-keeps always (λ rs. rs) (λ rs. Perm.refl rs) reminded (codes "9")
      (world_with waiting []) (λ e. sym e, (λ e. refl, (λ e. refl, tt)))

dispatch_due_reminders-up_example :
    let w' = dispatch_due_reminders always (λ rs. rs) (codes "9") (up (world_with waiting [])) in
    (w'.db.reminders ≡ delete (is_due always (λ rs. rs) (codes "9")) waiting.reminders)
    × (w'.db.inbox
        ≡ waiting.inbox
          ++ reminder_rows waiting.inbox_seq
              (select (is_due always (λ rs. rs) (codes "9")) waiting.reminders))
dispatch_due_reminders-up_example =
    dispatch_due_reminders-up always (λ rs. rs) (codes "9") (world_with waiting [])
