-- ===== src/Worker/Drain.antt =====
-- The loop of worker.go over the inbox.
use opencrow.Prelude.{ℕ, zero, suc, List, [], ◌∷◌, ◌++◌, Option, none, some, if◌then◌else◌}
use opencrow.Prelude.Text.{Text, newline}
use opencrow.Database.{Inbox, Db, no_rows, failed, Result, ok, err}
use opencrow.Inbox.{dequeue, dequeue_user_batch, is_user}
use opencrow.Worker.State.{Config, World}
use opencrow.Worker.Prompt.{process_item}

unfoldable pub appended_contents : List Inbox → Text
appended_contents [] = []
appended_contents (e ∷ es) = newline ∷ (e.content ++ appended_contents es)

unfoldable pub last_reply_to : Text → List Inbox → Text
last_reply_to r [] = r
last_reply_to r (e ∷ es) = last_reply_to e.reply_to es

abbrev pub merged : Inbox → Result (List Inbox) → Inbox
merged item (err e) = item
merged item (ok extra) = record item {
  content = item.content ++ appended_contents extra;
  reply_to = last_reply_to item.reply_to extra;
}

-- Why the loop ended.
pub data DrainEnd : Type 0 where
  drained requeued shut_down database_failed out_of_fuel : DrainEnd

module _ (c : Config) (returned : List Inbox → List Inbox) where
  unfoldable pub merge_user_items : Inbox → World → Inbox × World
  merge_user_items item w =
      let (extra, db') = dequeue_user_batch returned w.db in
      (merged item extra, record w { db = db' })

  abbrev pub merge_if_user : Inbox → World → Inbox × World
  merge_if_user item w = if is_user item then merge_user_items item w else (item, w)

  -- One round: why the loop ends, or the next state.
  abbrev pub round_of : Result Inbox × Db → World → Option DrainEnd × World
  round_of (err no_rows, db') w = (some drained, record w { db = db' })
  round_of (err failed, db') w = (some database_failed, record w { db = db' })
  round_of (ok item, db') w =
      let (item', w') = merge_if_user item (record w { db = db' }) in
      let (stop, w'') = process_item c item' w' in (if stop then some requeued else none, w'')

  unfoldable pub drain_round : World → Option DrainEnd × World
  drain_round w = if w.shutdown then (some shut_down, w) else round_of (dequeue w.db) w

  abbrev pub go_on : (World → DrainEnd × World) → Option DrainEnd × World → DrainEnd × World
  go_on next (some reason, w) = (reason, w)
  go_on next (none, w) = next w

  unfoldable pub drain_once : ℕ → World → DrainEnd × World
  drain_once zero w = (out_of_fuel, w)
  drain_once (suc fuel) w = go_on (drain_once fuel) (drain_round w)
