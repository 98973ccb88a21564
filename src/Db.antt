-- ===== src/Db.antt =====
-- crates/pdcli/src/db.rs: the tables of `FuseDb`.
pub mod Events
pub mod Journal
pub mod Inodes
