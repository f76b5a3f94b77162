-- ===== src/Pi.antt =====
-- pi.go and pi_rpc.go: the pi process, the commands that are written to it and the events that it
-- answers with.
--
-- What a call of this code observes of the process is a script of ticks in the order in which its
-- selects take them: an event, an error, the end of the stream or of the process, the end of the
-- call's context, the end of the grace window. A script that is used up stands for the end of the
-- process. The parsing of JSON is the standard library's: `Json` is what the code asks of it.
pub mod Events
pub mod Process
pub mod Result
pub mod Drains
pub mod Turns
pub mod Progress
pub mod Start
