-- ===== src/Worker.antt =====
-- worker.go: the single worker that drains the inbox into the pi process.
--
-- The state is `World`: the database, the fields of `Worker` and what has been done to the outside
-- so far. What the outside does is a script in the state, read call by call: what a prompt sent to
-- pi comes to and what other goroutines do meanwhile (`Send`), whether a pi process starts, what a
-- compaction comes to. A script that is used up stands for the end of the program.
pub mod State
pub mod Prompt
pub mod Drain
pub mod Size
pub mod Progress
pub mod Delivery
pub mod Grows
pub mod Preemption
pub mod Aborted
pub mod Restart
