-- ===== src/Sd/Eureka.antt =====
-- sd/eureka: the instancer and the registrar.
pub mod Instancer
pub mod Registrar
mod Tests
