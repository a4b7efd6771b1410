-- ===== src/Conn.antt =====
-- util/conn: a connection that is dialled again, with exponential backoff, when it fails.
pub mod Backoff
pub mod Manager
mod Tests
