-- ===== src/Tags/Registration.antt =====
-- src/assets/tags/tags.service.ts: `registerTag` and `checkRegistration`. The link from the asset to
-- its tag is `asset_id`. An exception of the database is a plain error.
pub mod Isolation
mod Tests
use shield_api.Common.{
  ℕ, ◌≡◌, String, Bool, true, false, not, ◌&&◌, ◌||◌, List, [], ◌∷◌, Option, none, some, is_some,
  get_or, if◌then◌else◌, ◌==◌, Result, ok, raise, Error, ◌>>=◌, Table,
}
use shield_api.Auth.AccessGrants.{AccessGrantData, AccessIntent, is_system_admin}
use shield_api.Auth.SiteVisibility.{SiteNode}
use shield_api.Auth.Signing.{Runtime, SigningKey, text_of}
use shield_api.Tags.Tokens.{ParsedToken, parse_inspection_token, validate_inspection_token}
use shield_api.Tags.Access.{Tag, AccessContext, check_registered}

-- `person` of `registerTag`: the context of row-level security.
pub record RlsContext : Type 0 where
  pub client_id : String
  pub site_id : String

pub record RegisterTagDto : Type 0 where
  pub asset_id : String
  pub site_id : Option String
  pub client_id : Option String

abbrev pub is_system_intent : AccessIntent → Bool
is_system_intent AccessIntent.system = true
is_system_intent _ = false

-- The update by `dto`, less the client.
abbrev pub apply_dto : RegisterTagDto → Tag → Tag
apply_dto dto t = record t {
  asset_id = some dto.asset_id;
  site_id = elim dto.site_id [ none ↦ t.site_id | some s ↦ some s ];
}

abbrev pub detached : Tag → Tag
detached x = record x { asset_id = none }

module _ (t : Table Tag) where
  open t use {Db, rows, find_first, create, update_many}

  -- An asset has one tag at most: the tag it was on before loses it.
  abbrev pub detach_others : String → (Tag → Bool) → Db → Db
  detach_others asset_id is_kept db =
      update_many (λ x. not (is_kept x) && get_or x.asset_id "" == asset_id) detached db

  -- The upsert of a system administrator.
  unfoldable pub upsert_tag :
      (new_id external_id serial_number client_id : String) → RegisterTagDto → Db → Db
  upsert_tag new_id external_id serial_number client_id dto db =
      if is_some (find_first (λ x. x.external_id == external_id) db)
      then detach_others dto.asset_id (λ x. x.external_id == external_id)
          (update_many (λ x. x.external_id == external_id)
            (λ x. record (apply_dto dto x) { client_id = some client_id }) db)
      else create
          (record {
            id = new_id;
            external_id = external_id;
            serial_number = serial_number;
            site_id = dto.site_id;
            client_id = some client_id;
            asset_id = some dto.asset_id;
          })
          (detach_others dto.asset_id (λ x. false) db)

  -- The update that bypasses row-level security: a tag with no client or no site becomes the user's.
  abbrev pub adopt : RlsContext → Tag → Db → Db
  adopt person x db =
      if not (is_some x.client_id) || not (is_some x.site_id)
      then update_many (λ y. y.id == x.id)
          (λ y. record y { client_id = some person.client_id; site_id = some person.site_id }) db
      else db

  -- The update under row-level security: the row has to be in sight before and after it.
  abbrev pub update_visible : (Tag → Bool) → RegisterTagDto → String → Db → Db × Result (Unit {0})
  update_visible visible dto id db =
      if is_some (find_first (λ y. visible y && (visible (apply_dto dto y) && y.id == id)) db)
      then (
        detach_others dto.asset_id (λ y. y.id == id)
            (update_many (λ y. visible y && (visible (apply_dto dto y) && y.id == id))
              (apply_dto dto) db),
        ok tt,
      )
      else (db, raise Error.plain)

  abbrev pub new_tag :
      RlsContext → RegisterTagDto → (new_id external_id serial_number : String) → Tag
  new_tag person dto new_id external_id serial_number = record {
    id = new_id;
    external_id = external_id;
    serial_number = serial_number;
    site_id = some (get_or dto.site_id person.site_id);
    client_id = some person.client_id;
    asset_id = some dto.asset_id;
  }

  abbrev pub create_visible : (Tag → Bool) → String → Tag → Db → Db × Result (Unit {0})
  create_visible visible asset_id x db =
      if visible x
      then (create x (detach_others asset_id (λ y. false) db), ok tt)
      else (db, raise Error.plain)

  -- The path of a user, once the tag is looked up.
  unfoldable pub register_as_user :
      (Tag → Bool)
      → RlsContext
      → (new_id external_id : String) → Option String
      → RegisterTagDto
      → Option Tag
      → Db
      → Db × Result (Unit {0})
  register_as_user visible person new_id external_id serial_number dto (some x) db =
      update_visible visible dto x.id (adopt person x db)
  register_as_user visible person new_id external_id (some serial_number) dto none db =
      create_visible visible dto.asset_id (new_tag person dto new_id external_id serial_number) db
  register_as_user visible person new_id external_id none dto none db = (db, raise Error.plain)

  abbrev acting_as_system_admin : AccessGrantData → AccessIntent → Bool
  acting_as_system_admin grant intent = is_system_admin grant && is_system_intent intent

  abbrev pub register_for_client :
      (new_id external_id : String)
      → Option String
      → String
      → RegisterTagDto
      → Db
      → Db × Result (Unit {0})
  register_for_client new_id external_id none client_id dto db = (db, raise Error.plain)
  register_for_client new_id external_id (some serial_number) client_id dto db =
      (upsert_tag new_id external_id serial_number client_id dto db, ok tt)

  abbrev pub register_in_context :
      (Tag → Bool)
      → Option RlsContext
      → (new_id external_id : String) → Option String
      → RegisterTagDto
      → Db
      → Db × Result (Unit {0})
  register_in_context visible none new_id external_id serial_number dto db =
      (db, raise Error.forbidden)
  register_in_context visible (some person) new_id external_id serial_number dto db =
      register_as_user visible person new_id external_id serial_number dto
        (find_first (λ x. x.external_id == external_id) db) db

  abbrev pub register_by_intent :
      (Tag → Bool)
      → Option RlsContext
      → Bool
      → (new_id external_id : String) → Option String
      → RegisterTagDto
      → Option String
      → Db
      → Db × Result (Unit {0})
  register_by_intent visible person true new_id external_id serial_number dto (some client_id) db =
      register_for_client new_id external_id serial_number client_id dto db
  register_by_intent visible person acting new_id external_id serial_number dto client db =
      register_in_context visible person new_id external_id serial_number dto db

  abbrev pub register_parsed :
      (Tag → Bool)
      → Option RlsContext
      → Bool
      → (new_id : String) → Option String
      → Option String
      → RegisterTagDto
      → Db
      → Db × Result (Unit {0})
  register_parsed visible person acting new_id none serial_number dto db = (db, raise Error.plain)
  register_parsed visible person acting new_id (some external_id) serial_number dto db =
      register_by_intent visible person acting new_id external_id serial_number dto dto.client_id db

  -- `visible`: row-level security. The result is the table after the call, which is no transaction,
  -- and whether it returns. A token with no id in it is refused by the database.
  unfoldable pub register_tag :
      (node : Runtime) (new_secret default_key_id : String)
      → AccessGrantData
      → AccessIntent
      → (Tag → Bool)
      → Option RlsContext
      → (new_id token : String) → RegisterTagDto
      → Db
      → Db × Result (Unit {0})
  unfolding parse_inspection_token is_system_admin upsert_tag register_as_user
  register_tag node new_secret default_key_id grant intent visible person new_id token dto db =
      let parsed = parse_inspection_token node new_secret default_key_id token in
      register_parsed visible person (acting_as_system_admin grant intent) new_id
        parsed.tag_external_id parsed.serial_number dto db

-- `checkRegistration`, for a token with an id in it.
unfoldable pub check_registration :
    (node : Runtime) (new_secret default_key_id : String) (now : ℕ)
    → List SiteNode
    → Option (List AccessContext)
    → List Tag
    → (token : String) → List SigningKey
    → Result (Option Tag × Option AccessContext)
unfolding validate_inspection_token check_registered
check_registration node new_secret default_key_id now sites records tags token keys = do
  validation ← validate_inspection_token node new_secret default_key_id now token keys
  external_id ← elim validation.0.tag_external_id [ none ↦ raise Error.plain | some id ↦ ok id ]
  check_registered sites records tags external_id
