-- ===== src/Worker/State.antt =====
-- The state of the worker, and the calls of worker.go on it that other goroutines make.
use opencrow.Prelude.{
  ℕ, Bool, true, false, not, ◌||◌, List, [], ◌∷◌, ◌++◌, Option, none, some, ltb, if◌then◌else◌,
}
use opencrow.Prelude.Text.{Text}
use opencrow.Database.{Source, Db, Result, ok, err}
use opencrow.Inbox.{enqueue, priority_user}

-- An error of a call to pi: `errors.Is` tells the two errors of a context from the rest.
pub data PiError : Type 0 where
  canceled deadline_exceeded : PiError
  other : Text → PiError

pub data Outcome : Type 0 where
  replied : Text → Outcome
  errored : PiError → Outcome

-- What a producer (a backend, the trigger pipe, a ticker) enqueues.
pub record Arrival : Type 0 where
  pub priority : ℕ
  pub source : Source
  pub content : Text
  pub reply_to : Text

-- One `sendAndWait`: what it comes to, whether the process has exited by then, what other
-- goroutines enqueue until then, and whether they abort the operation or shut the program down.
pub record Send : Type 0 where
  pub outcome : Outcome
  pub exits : Bool
  pub arrivals : List Arrival
  pub aborted : Bool
  pub stopped : Bool

pub data CompactOutcome : Type 0 where
  compacted : Text → ℕ → CompactOutcome
  no_active_session : CompactOutcome
  compact_failed : PiError → CompactOutcome

-- What the worker does to the outside.
pub data Effect : Type 0 where
  set_typing : Text → Bool → Effect
  send_message : Text → Text → Effect
  send_reply : Text → Text → Text → Effect  -- `sendReplyWithFiles`
  start_pi : Text → Bool → Effect
  prompt_pi : Text → Effect
  kill_pi : Effect
  reset_conversation : Text → Effect
  send_file : Text → Text → Effect
  send_in_reply : Text → Text → Text → Effect  -- `SendMessage` with a message to reply to
  compact_answer : CompactOutcome → Effect

-- A pi process, by whether it is alive.
abbrev pub Pi : Type 0
Pi = Bool

pub record Config : Type 0 where
  pub hb_prompt : Text
  pub trigger_prompt : Text
  pub heartbeat_file : Text  -- HEARTBEAT.md, empty if it cannot be read
  pub room_file : Option Text  -- .room_id
  pub timing : Option Text  -- what `DebugTiming` appends to a reply

pub record World : Type 0 where
  pub db : Db
  pub pi : Option Pi
  pub fresh_start : Bool
  pub current_priority : Option ℕ  -- `none` for -1, with `currentCancel` nil
  pub compact_pending : Bool  -- `compactResult` is not nil
  pub room_id : Text
  pub wake : Bool
  pub cancelled : Bool  -- the context of the current item
  pub shutdown : Bool  -- the context of `Run`
  pub effects : List Effect
  pub sends : List Send
  pub starts : List (Option PiError)
  pub compacts : List CompactOutcome

abbrev pub emit : Effect → World → World
emit e w = record w { effects = w.effects ++ e ∷ [] }

abbrev pub is_alive : Option Pi → Bool
is_alive none = false
is_alive (some alive) = alive

-- `w.currentCancel != nil && priority < w.currentPriority`
unfoldable pub preempts : ℕ → Option ℕ → Bool
preempts priority none = false
preempts priority (some current) = ltb priority current

unfoldable pub notify : ℕ → World → World
notify priority w = record w {
  cancelled = w.cancelled || preempts priority w.current_priority;
  wake = true;
}

abbrev pub is_some {ℓ} : {A : Type ℓ} → Option A → Bool
is_some none = false
is_some (some a) = true

-- Whether there was an operation to cancel.
unfoldable pub abort : World → Bool × World
abort w = if is_some w.current_priority then (true, record w { cancelled = true }) else (false, w)

unfoldable pub is_active : World → Bool
is_active w = is_alive w.pi

unfoldable pub stop_pi : World → World
stop_pi w = if is_some w.pi then emit kill_pi (record w { pi = none }) else w

unfoldable pub restart : World → World
restart w = stop_pi (record w { fresh_start = true })

unfoldable pub set_room_id : Text → World → World
set_room_id id w = record w { room_id = id }

-- Enqueue and, where that succeeds, notify: the last lines of every producer.
abbrev pub notify_if : Bool → ℕ → World → World
notify_if true priority w = notify priority w
notify_if false priority w = w

abbrev pub succeeded {ℓ} : {A : Type ℓ} → Result A → Bool
succeeded (ok a) = true
succeeded (err e) = false

unfoldable pub arrive : Arrival → World → World
arrive a w =
    let (r, db') = enqueue a.priority a.source a.content a.reply_to w.db in
    notify_if (succeeded r) a.priority (record w { db = db' })

unfoldable pub arrive_all : List Arrival → World → World
arrive_all [] w = w
arrive_all (a ∷ as') w = arrive_all as' (arrive a w)

-- How `Compact` begins: the refusals, or the item that the worker is to process.
pub data CompactStart : Type 0 where
  refused_inactive refused_in_progress refused_enqueue waiting : CompactStart

unfoldable pub compact_start : World → CompactStart × World
compact_start w =
    if not (is_active w)
    then (refused_inactive, w)
    else if w.compact_pending
    then (refused_in_progress, w)
    else let (r, db') = enqueue priority_user Source.compact [] [] w.db in
      if succeeded r
      then (waiting, notify priority_user (record w { db = db'; compact_pending = true }))
      else (refused_enqueue, record w { db = db'; compact_pending = false })
