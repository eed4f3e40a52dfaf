-- ===== src/Assets.antt =====
-- Assets, their inspections and alerts: src/assets.
pub mod Sessions
pub mod Alerts
