-- ===== src/App.antt =====
-- src/main.rs, src/config.rs and src/cache.rs: how a node is set up, and what a command does.
pub mod Config
pub mod Cache
pub mod Start
pub mod Complete
pub mod Commands
