-- ===== src/Tests/Inbox.antt =====
-- The inbox at concrete rows.
use mathlib.Core.List.Perm
use opencrow.Prelude.{◌≡◌, refl, [], ◌∷◌, arith, select, delete}
use opencrow.Database.{ok, exec}
use opencrow.Inbox.{
  dequeue, dequeue_user_batch, enqueue_heartbeat, is_user, first_row, sort_by_id, insert_by_id,
}
use opencrow.Inbox.Ids.{IsOrdered, History, start, next, dequeued, beaten}
use opencrow.Inbox.Lanes.{Dequeued, dequeue-Dequeued}
use opencrow.Inbox.Heartbeats.{IsSingle, History-IsSingle}
use opencrow.Inbox.Batch.{dequeue_user_batch-sorted}
use opencrow.Tests.Data.{hello, again, three_rows}

three_rows-IsOrdered : IsOrdered three_rows
three_rows-IsOrdered = omega arith

-- The user's message goes before the trigger that came first.
dequeue_test : (dequeue three_rows).0 ≡ ok hello
unfolding dequeue exec first_row
dequeue_test = refl

batch_test : (dequeue_user_batch (λ rs. rs) three_rows).0 ≡ ok (hello ∷ again ∷ [])
unfolding dequeue_user_batch exec sort_by_id insert_by_id
batch_test = refl

dequeue-Dequeued_example :
    Dequeued three_rows.inbox (dequeue three_rows).0 (dequeue three_rows).1.inbox
dequeue-Dequeued_example = dequeue-Dequeued three_rows three_rows-IsOrdered refl

a-History : History three_rows (enqueue_heartbeat (dequeue three_rows).1).1
a-History = next (next start dequeued) beaten

History-IsSingle_example : IsSingle (enqueue_heartbeat (dequeue three_rows).1).1
History-IsSingle_example = History-IsSingle {db = three_rows} (omega arith) a-History

dequeue_user_batch-sorted_example :
    ((dequeue_user_batch (λ rs. rs) three_rows).0 ≡ ok (select is_user three_rows.inbox))
    × ((dequeue_user_batch (λ rs. rs) three_rows).1.inbox ≡ delete is_user three_rows.inbox)
dequeue_user_batch-sorted_example =
    dequeue_user_batch-sorted (λ rs. rs) (λ rs. Perm.refl rs) three_rows three_rows-IsOrdered refl
