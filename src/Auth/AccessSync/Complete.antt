-- ===== src/Auth/AccessSync/Complete.antt =====
-- src/auth/keycloak/keycloak-access-sync.service.ts: what a user who is synced has.
use shield_api.Common.{◌≡◌, String, true, In, Table}
use shield_api.Clients.Invitations.{PersonClientAccess}
use shield_api.Clients.Members.{Assignment, is_assigned}

module _ (ta : Table PersonClientAccess) where
  open ta use {Db, rows, find_first, create}

  abbrev pub HasAccess : String → Assignment → Db → Type 0
  HasAccess p d db = (a : PersonClientAccess) × (In a (rows db) × (is_assigned p d a ≡ true))
