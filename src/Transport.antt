-- ===== src/Transport.antt =====
-- server/src/session/Session.cpp: the length-prefixed frames on the socket. A byte is a number below
-- 256. Protobuf's `SerializeToString` and `ParseFromArray` are parameters.
pub mod Frame
pub mod Reader
pub mod Writer
pub mod Errors
pub mod Endings
