-- ===== src/Matrix.antt =====
-- matrix/backend.go: the backend for Matrix, part by part.
pub mod Types
pub mod Chunks
pub mod Split
pub mod Files
pub mod Downloads
pub mod Attachments
pub mod Rooms
pub mod Same
pub mod Admitted
pub mod Accepted
pub mod Moves
pub mod Login
pub mod Session
pub mod Crypto
pub mod Upload
