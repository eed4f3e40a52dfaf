-- ===== src/Clients.antt =====
-- The administration of clients: src/clients.
pub mod Invitations
pub mod Members
pub mod Access
mod Tests
