-- ===== src/Tests/Data.antt =====
-- The inputs that the tests share.
use opencrow.Prelude.{true, false, List, [], ◌∷◌, none, some, arith}
use opencrow.Prelude.Text.{Text, codes}
use opencrow.Database.{Source, Inbox, SentMessage, Db}
use opencrow.Outbox.Window.{IsBounded}
use opencrow.Worker.State.{Config, World, Send, Arrival, Outcome}

abbrev pub deploy : Inbox
deploy = record {
  id = 1;
  priority = 1;
  source = Source.trigger;
  content = codes "deploy";
  reply_to = [];
}

abbrev pub hello : Inbox
hello = record {
  id = 2;
  priority = 0;
  source = Source.user;
  content = codes "hello";
  reply_to = codes "m1";
}

abbrev pub again : Inbox
again = record {
  id = 3;
  priority = 0;
  source = Source.user;
  content = codes "again";
  reply_to = codes "m2";
}

abbrev pub sent_one : SentMessage
sent_one = record { conversation_id = codes "room"; message_id = codes "m1"; text = codes "hi" }

abbrev pub three_rows : Db
three_rows = record {
  inbox = deploy ∷ hello ∷ again ∷ [];
  inbox_seq = 4;
  sent_messages = sent_one ∷ [];
  reminders = [];
  reminders_seq = 1;
  faults = [];
}

abbrev pub config : Config
config = record {
  hb_prompt = codes "Run the checks";
  trigger_prompt = codes "Trigger";
  heartbeat_file = codes "# Checks\n- mail\n- [paused] backup\n";
  room_file = some (codes "room\n");
  timing = none;
}

-- pi is up, nothing runs, and it answers the first prompt.
abbrev pub world_with : Db → List Send → World
world_with db sends = record {
  db = db;
  pi = some true;
  fresh_start = false;
  current_priority = none;
  compact_pending = false;
  room_id = codes "room";
  wake = false;
  cancelled = false;
  shutdown = false;
  effects = [];
  sends = sends;
  starts = [];
  compacts = [];
}

abbrev pub answers : Text → Send
answers t = record {
  outcome = Outcome.replied t;
  exits = false;
  arrivals = [];
  aborted = false;
  stopped = false;
}

abbrev pub a_user_message : Arrival
a_user_message = record {
  priority = 0;
  source = Source.user;
  content = codes "stop that";
  reply_to = [];
}

pub three_rows-IsBounded : IsBounded three_rows.sent_messages
three_rows-IsBounded c = ground arith
