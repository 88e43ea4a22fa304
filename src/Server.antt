-- ===== src/Server.antt =====
-- project2: the networked database server.
pub mod Queue
pub mod Service
pub mod Threads
mod Tests
pub mod Database
