-- ===== src/App.antt =====
-- app.go: chat commands, user messages, replies with files, and the text for a tool call.
--
-- The state is that of the worker with what the backend answers, call by call: the ids of the
-- messages that are sent, the errors of files, the outcomes of compactions. `Go` is what the code
-- calls of the standard library.
pub mod Files
pub mod ToolCalls
pub mod Messages
pub mod Replies
pub mod Extraction
pub mod Answers
pub mod Commands
pub mod Quotes
