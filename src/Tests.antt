-- ===== src/Tests.antt =====
-- The theorems at concrete inputs.
pub mod Data
pub mod Keys
pub mod Buckets
pub mod Tables
pub mod Handlers
pub mod Requests
pub mod Lookups
pub mod Storing
pub mod Sharding
pub mod Handles
pub mod Transfers
pub mod App
