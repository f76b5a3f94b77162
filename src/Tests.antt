-- ===== src/Tests.antt =====
-- Runs of the code on concrete inputs, and the theorems at inputs that meet their hypotheses.
mod Data
mod Inbox
mod Outbox
mod Reminders
mod Conversation
mod Worker
mod App
mod Pi
mod Config
mod Matrix
mod Signal
mod Socket
mod Nostr
mod NostrDm
