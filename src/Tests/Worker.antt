-- ===== src/Tests/Worker.antt =====
-- The worker at concrete items, and its answers to what pi does.
use opencrow.Prelude.{◌≡◌, refl, true, false, [], ◌∷◌, ◌++◌, none, some, arith}
use opencrow.Prelude.Text.{Text, codes}
use opencrow.Inbox.{insert_row}
use opencrow.Worker.State.{
  World, Outcome, canceled, start_pi, restart, emit, set_typing, prompt_pi, send_reply,
}
use mathlib.Core.Option
use opencrow.Worker.Prompt.{send_with_retry, prompt_room, ensure_pi, resolve_room_id}
use opencrow.Worker.Drain.{drain_once}
use opencrow.Worker.Progress.{Finished, drain_once_finishes}
use opencrow.Worker.Delivery.{Disposed, prompt_room-Disposed}
use opencrow.Worker.Preemption.{
  answering, busy, interrupted, arrived_row, requeued_row, preempted_put_back, preempted_replied,
}
use opencrow.Worker.Aborted.{stopped_turn, aborted_put_back}
use opencrow.Worker.Restart.{starting, restart_forgotten}
use opencrow.Tests.Data.{deploy, hello, three_rows, config, world_with, answers, a_user_message}

abbrev room : Text
room = codes "room"

abbrev at_work : World
at_work = world_with three_rows (answers (codes "done") ∷ answers (codes "ok") ∷ [])

drain_once_finishes_example : Finished (drain_once config (λ rs. rs) 4 at_work)
drain_once_finishes_example = drain_once_finishes config (λ rs. rs) 4 at_work (omega arith)

prompt_room-Disposed_example :
    let (sent, w') = send_with_retry config (codes "hello") (emit (set_typing room true) at_work) in
    Disposed room hello at_work.db.inbox sent.outcome w'
      (prompt_room config hello (codes "hello") room at_work)
prompt_room-Disposed_example =
    prompt_room-Disposed config hello (codes "hello") room at_work refl refl

preempted_put_back_example :
    let (stop, w') = prompt_room config deploy (codes "deploy") room (
      busy deploy
        (interrupted (Outcome.errored canceled) false a_user_message)
        (answering at_work)) in
    (stop ≡ true)
    × (w'.db.inbox
        ≡ three_rows.inbox
          ++ arrived_row a_user_message three_rows
            ∷ requeued_row deploy (insert_row (arrived_row a_user_message three_rows) three_rows)
            ∷ [])
preempted_put_back_example =
    preempted_put_back config deploy (codes "deploy") room canceled false a_user_message at_work
      (omega arith) refl (λ e. cc e)

preempted_replied_example :
    let (stop, w') = prompt_room config deploy (codes "deploy") room (
      busy deploy
        (interrupted (Outcome.replied (codes "half")) false a_user_message)
        (answering at_work)) in
    (stop ≡ false)
    × (w'.db.inbox ≡ three_rows.inbox ++ arrived_row a_user_message three_rows ∷ [])
    × (w'.effects
        ≡ at_work.effects
          ++ set_typing room true
            ∷ prompt_pi (codes "deploy")
            ∷ send_reply room (codes "half" ++ Option.get_or config.timing []) deploy.reply_to
            ∷ set_typing room false
            ∷ [])
preempted_replied_example =
    preempted_replied config deploy (codes "deploy") room (codes "half") false a_user_message
      at_work (omega arith) refl refl (λ e. cc e)

restart_forgotten_example :
    let v = restart (starting (some true) (some canceled ∷ none ∷ []) at_work) in
    (ensure_pi config (ensure_pi config v).1).1.effects
    ≡ v.effects ++ start_pi (resolve_room_id config at_work).0 false ∷ []
restart_forgotten_example = restart_forgotten config (some true) canceled [] at_work

aborted_put_back_example :
    let (stop, w') =
      prompt_room config hello
        (codes "hello")
        room
        (busy hello (stopped_turn canceled false) (answering at_work)) in
    (stop ≡ true) × (w'.db.inbox ≡ three_rows.inbox ++ requeued_row hello three_rows ∷ [])
aborted_put_back_example =
    aborted_put_back config hello (codes "hello") room canceled false at_work refl (λ e. cc e)
