-- ===== src/Tests.antt =====
-- The theorems at concrete inputs: a server with two users, a small database, and short schedules.
pub mod Sample
pub mod Places
pub mod Accounts
pub mod Messages
pub mod Tasks
pub mod Socket
pub mod Database
pub mod Typing
pub mod Files
pub mod Tables
pub mod RoomTable
pub mod Load
