-- ===== src/Lb.antt =====
-- sd/lb: client-side load balancing over the endpoints of an Endpointer.
pub mod Reply
pub mod RoundRobin
pub mod Random
pub mod Retry
mod Tests
