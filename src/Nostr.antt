-- ===== src/Nostr.antt =====
-- The nostr backend: the direct messages of nostr/backend.go and nostr/dm.go with their files, the
-- outbox nostr/publish_queue.go through which every event is published, and nostr/lastseen.go, the
-- record of the messages that were received.
pub mod Keys
pub mod Breaker
pub mod PublishQueue
pub mod LastSeen
pub mod Rumors
pub mod Crypto
pub mod Media
pub mod Backend
pub mod Delivered
pub mod Marks
pub mod Once
pub mod Encrypted
pub mod FileNames
pub mod SafeNames
pub mod Metadata
pub mod Refresh
pub mod Relays
pub mod RelaySet
pub mod Blossom
pub mod Legacy
pub mod Migrated
