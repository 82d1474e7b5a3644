-- ===== src/A2a.antt =====
-- The A2A adapter of s13code/core/a2a_adapter/.
pub mod Push
pub mod Cards
pub mod PushConfigs
pub mod Server
pub mod Transports
pub mod Bridge
