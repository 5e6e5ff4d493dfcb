-- ===== src/Routing.antt =====
-- src/routing: k-buckets and the table of them.
pub mod KBucket
pub mod Table
