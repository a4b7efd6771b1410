-- ===== src/Sd.antt =====
-- sd: service discovery. Events, the cache of endpoints behind an Endpointer, the cache of instances
-- behind the Instancers, and those of Consul and DNS.
pub mod Event
pub mod EndpointCache
pub mod InstanceCache
pub mod Consul
pub mod Dnssrv
pub mod Endpointer
pub mod Watching
pub mod Etcd
pub mod Etcdv3
pub mod Eureka
pub mod Zk
