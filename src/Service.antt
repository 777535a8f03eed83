-- ===== src/Service.antt =====
-- depl/monolith/service/: the services that drive the parts.
pub mod Gravitas
mod Examples
