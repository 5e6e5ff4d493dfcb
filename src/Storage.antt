-- ===== src/Storage.antt =====
-- src/storage: the chunks that a node keeps for others, and the files that its user has uploaded.
pub mod FileSystem
pub mod Transfers
pub mod Shards
pub mod Files
