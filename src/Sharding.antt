-- ===== src/Sharding.antt =====
-- src/sharding: a file is cut into encrypted chunks, and put together again from them.
pub mod Encryption
pub mod Metadata
pub mod Words
pub mod Uploader
pub mod Downloader
pub mod Reassembly
