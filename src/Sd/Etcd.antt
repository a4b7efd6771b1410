-- ===== src/Sd/Etcd.antt =====
-- sd/etcd: the client, the instancer and the registrar.
pub mod Ttl
pub mod Client
pub mod Registrar
mod Tests
