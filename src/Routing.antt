-- ===== src/Routing.antt =====
-- The translation of Gateway routes into Envoy's configuration: internal/contour and
-- internal/envoy.
pub mod Hosts
pub mod Rules
pub mod Http
pub mod Listeners
pub mod Configs
