-- ===== src/Pipeline.antt =====
-- The programs together: what one stores or publishes and another reads.
pub mod Listed
pub mod Redial
pub mod Shown
pub mod History
pub mod Safe
pub mod Table
pub mod Rows
pub mod Gossip
pub mod Panics
pub mod Filled
pub mod Answered
pub mod Lifetime
