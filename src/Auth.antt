-- ===== src/Auth.antt =====
-- Authentication and authorisation: src/auth.
pub mod Scope
pub mod Capabilities
pub mod AccessGrants
pub mod SiteVisibility
pub mod Resolution
pub mod Guards
pub mod Signing
pub mod AccessSync
mod Tests
