-- ===== src/Client.antt =====
-- client/src/client.cpp and client/src/main.cpp: what a client sends, and what it makes of an answer.
pub mod Words
pub mod Commands
pub mod State
pub mod Inbox
pub mod Input
pub mod Agreement
pub mod Writer
pub mod Reader
pub mod Connect
pub mod EndToEnd
