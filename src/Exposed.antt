-- ===== src/Exposed.antt =====
-- exposed/: the query service, which reads the database that marci keeps.
pub mod Exec
pub mod Info
pub mod Peers
pub mod Cache
pub mod Service
pub mod Requests
pub mod Query
