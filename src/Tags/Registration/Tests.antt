-- ===== src/Tags/Registration/Tests.antt =====
-- The theorems on `registerTag` of src/assets/tags/tags.service.ts, at a table with one tag.
use shield_api.Common.{
  ◌≡◌, refl, ap, ◌&&◌, inl, String, Bool, true, false, [], ◌∷◌, Option, none, some, get_or, In, ok,
  eq_iff, ◌==◌, list_table,
}
use shield_api.Auth.Scope.{RoleScope}
use shield_api.Auth.AccessGrants.{AccessGrantData, AccessIntent, is_system_admin}
use shield_api.Auth.Signing.Samples.{node}
use shield_api.Tags.Tokens.{parse_inspection_token}
use shield_api.Tags.Access.{Tag}
use shield_api.Tags.Registration.{
  RlsContext, RegisterTagDto, is_system_intent, register_as_user, register_tag,
}
use shield_api.Tags.Registration.Isolation.{OwnTags, Origin, register_tag_lem}

abbrev grant : AccessGrantData
grant = record {
  scope = RoleScope.client;
  capabilities = [];
  client_id = "c1";
  site_id = "s1";
  role_id = "r1";
}

abbrev person : RlsContext
person = record { client_id = "c1"; site_id = "s1" }

abbrev own_client : Tag → Bool
own_client x = get_or x.client_id "" == "c1"

abbrev dto : RegisterTagDto
dto = record { asset_id = "a1"; site_id = none; client_id = none }

abbrev loose : Tag
loose = record {
  id = "x1";
  external_id = "t1";
  serial_number = "SN1";
  site_id = none;
  client_id = none;
  asset_id = none;
}

abbrev registered : Tag
registered = record loose { site_id = some "s1"; client_id = some "c1"; asset_id = some "a1" }

abbrev signed : String
signed = "SN1.t1.111.11.k1.digest"

own_client-OwnTags : OwnTags own_client person
own_client-OwnTags x e = own_lem x.client_id e
  where
    own_lem : (c : Option String) → get_or c "" == "c1" ≡ true → c ≡ some "c1"
    own_lem none e = cc
    own_lem (some c) e = ap some ((eq_iff c "c1").0 e)

run :
    register_tag
      (list_table Tag)
      node
      "new"
      "k1"
      grant
      AccessIntent.user
      own_client
      (some person)
      "x2"
      signed
      dto
      (loose ∷ [])
    ≡ (registered ∷ [], ok tt)
unfolding register_tag register_as_user parse_inspection_token is_system_admin
run = refl

registered_after :
    In registered
      (register_tag
        (list_table Tag)
        node
        "new"
        "k1"
        grant
        AccessIntent.user
        own_client
        (some person)
        "x2"
        signed
        dto
        (loose ∷ [])).0
registered_after = rw run (inl refl)

not_acting : (is_system_admin grant && is_system_intent AccessIntent.user) ≡ false
unfolding is_system_admin
not_acting = refl

register_tag_example :
    Origin (list_table Tag) own_client person own_client-OwnTags (loose ∷ []) "x2" registered
register_tag_example =
    register_tag_lem (list_table Tag) own_client person own_client-OwnTags node "new" "k1" grant
      AccessIntent.user "x2" signed dto (loose ∷ []) registered not_acting registered_after
