-- ===== src/Auth/Capabilities.antt =====
-- src/auth/utils/capabilities.ts: the names of the capabilities.
use shield_api.Common.{String, Bool, List, [], ◌∷◌, includes}

-- `Object.values(CAPABILITIES)`
abbrev pub valid_capabilities : List String
valid_capabilities =
    "perform-inspections" ∷ "submit-requests" ∷ "manage-assets" ∷ "manage-routes" ∷ "resolve-alerts"
    ∷ "view-reports" ∷ "manage-users" ∷ "configure-products" ∷ "approve-requests" ∷ "program-tags"
    ∷ "register-tags" ∷ []

unfoldable pub is_valid_capability : String → Bool
is_valid_capability c = includes valid_capabilities c
