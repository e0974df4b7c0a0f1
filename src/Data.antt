-- ===== src/Data.antt =====
-- server/src/data: the MySQL repositories and the connections that they use.
pub mod Driver
pub mod Times
pub mod UserTable
pub mod RoomTable
pub mod MessageTable
pub mod Connections
pub mod Conversions
pub mod Transactions
pub mod Tables
