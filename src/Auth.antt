-- ===== src/Auth.antt =====
-- auth: middlewares that let a request through if it is authorized.
pub mod Bytes
pub mod Basic
pub mod Jwt
mod Tests
