-- ===== src/Node.antt =====
-- src/core/node.rs: requests to other nodes, and the lookups that are made of them.
pub mod Requests
pub mod Lookups
pub mod Calls
pub mod Uploads
pub mod Downloads
pub mod Rounds
pub mod Storer
pub mod Batches
