-- ===== src/Tags.antt =====
-- src/assets/tags: the tags on assets.
pub mod Tokens
pub mod Access
pub mod Registration
mod Tests
