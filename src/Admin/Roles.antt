-- ===== src/Admin/Roles.antt =====
-- src/admin/roles/roles.service.ts: the operations on the table of roles. `none` for an optional field
-- of a DTO is the source's undefined, which leaves the column as it is.
pub mod Invariant
pub mod Keeping
use shield_api.Common.{
  ℕ, String, Bool, true, false, not, ◌&&◌, List, [], ◌∷◌, ◌++◌, Option, none, some, filter, length,
  includes, distinct, is_some, get_or, truthy?, if◌then◌else◌, ltb, ◌==◌, Result, ok, raise, Error,
  throw_if, require, ◌>>=◌, ◌>>◌, Table,
}
use shield_api.Auth.Scope.{RoleScope, scope_eq, is_scope_at_least}
use shield_api.Auth.Capabilities.{is_valid_capability}

-- A row of `Role`, less its timestamps.
pub record Role : Type 0 where
  pub id : String
  pub name : String
  pub description : Option String
  pub is_system : Bool
  pub client_assignable : Bool
  pub notification_groups : List String
  pub scope : RoleScope
  pub capabilities : List String

pub record CreateRoleDto : Type 0 where
  pub name : String
  pub description : Option String
  pub scope : RoleScope
  pub capabilities : List String
  pub notification_groups : Option (List String)
  pub client_assignable : Bool

pub record UpdateRoleDto : Type 0 where
  pub name : Option String
  pub description : Option String
  pub scope : Option RoleScope
  pub capabilities : Option (List String)
  pub notification_groups : Option (List String)
  pub client_assignable : Option Bool

-- `invalidCapabilities.length > 0`
unfoldable pub has_invalid_capabilities : List String → Bool
has_invalid_capabilities capabilities =
    ltb 0 (length (filter (λ c. not (is_valid_capability c)) capabilities))

abbrev given_scope : Option RoleScope → RoleScope → Bool
given_scope none scope = false
given_scope (some s) scope = not (scope_eq s scope)

abbrev given_invalid : Option (List String) → Bool
given_invalid none = false
given_invalid (some cs) = has_invalid_capabilities cs

-- The row that `updateRole` writes.
abbrev pub apply_update : UpdateRoleDto → Role → Role
apply_update dto r = record r {
  name = get_or dto.name r.name;
  description = elim dto.description [ none ↦ r.description | some d ↦ some d ];
  client_assignable = get_or dto.client_assignable r.client_assignable;
  notification_groups = get_or dto.notification_groups r.notification_groups;
  scope = get_or dto.scope r.scope;
  capabilities = get_or dto.capabilities r.capabilities;
}

module _ (t : Table Role) where
  open t use {Db, find_first, create, update_many, delete_many}

  abbrev pub find_by_id : String → Db → Option Role
  find_by_id id db = find_first (λ r. r.id == id) db

  abbrev pub update_by_id : String → (Role → Role) → Db → Db
  update_by_id id f db = update_many (λ r. r.id == id) f db

  -- `new_id` is the id that the database gives to the new row.
  unfoldable pub create_role : String → CreateRoleDto → Db → Result Db
  create_role new_id dto db = do
    throw_if (is_some (find_first (λ r. r.name == dto.name) db)) Error.bad_request
    throw_if (dto.client_assignable && is_scope_at_least dto.scope RoleScope.global)
        Error.bad_request
    throw_if (has_invalid_capabilities dto.capabilities) Error.bad_request
    ok (
        create
          (record {
            id = new_id;
            name = dto.name;
            description = dto.description;
            is_system = false;
            client_assignable = dto.client_assignable;
            notification_groups = get_or dto.notification_groups [];
            scope = dto.scope;
            capabilities = dto.capabilities;
          })
          db)

  unfoldable pub update_role : String → UpdateRoleDto → Db → Result Db
  update_role id dto db = do
    existing ← require (find_by_id id db) Error.not_found
    throw_if (existing.is_system && given_scope dto.scope existing.scope) Error.bad_request
    throw_if
        (get_or dto.client_assignable existing.client_assignable
          && is_scope_at_least (get_or dto.scope existing.scope) RoleScope.global)
        Error.bad_request
    throw_if (given_invalid dto.capabilities) Error.bad_request
    throw_if
        (truthy? dto.name
          && not (get_or dto.name "" == existing.name)
          && is_some (find_first (λ r. r.name == get_or dto.name "" && not (r.id == id)) db))
        Error.bad_request
    ok (update_by_id id (apply_update dto) db)

  -- `assigned`: the number of access records with the role.
  unfoldable pub delete_role : (String → ℕ) → String → Db → Result Db
  delete_role assigned id db = do
    existing ← require (find_by_id id db) Error.not_found
    throw_if existing.is_system Error.bad_request
    throw_if (ltb 0 (assigned id)) Error.bad_request
    ok (delete_many (λ r. r.id == id) db)

  unfoldable pub add_capabilities : String → List String → Db → Result Db
  add_capabilities id capabilities db = do
    role ← require (find_by_id id db) Error.not_found
    throw_if (has_invalid_capabilities capabilities) Error.bad_request
    ok (
        update_by_id id
          (λ r. record r { capabilities = distinct (role.capabilities ++ capabilities) }) db)

  unfoldable pub remove_capabilities : String → List String → Db → Result Db
  remove_capabilities id capabilities db = do
    role ← require (find_by_id id db) Error.not_found
    ok (
        update_by_id id
          (λ r. record r {
            capabilities = filter (λ c. not (includes capabilities c)) role.capabilities;
          })
          db)

  unfoldable pub set_scope : String → RoleScope → Db → Result Db
  set_scope id scope db = do
    role ← require (find_by_id id db) Error.not_found
    throw_if role.is_system Error.bad_request
    throw_if (role.client_assignable && is_scope_at_least scope RoleScope.global) Error.bad_request
    ok (update_by_id id (λ r. record r { scope = scope }) db)

  unfoldable pub update_notification_groups : String → List String → Db → Result Db
  update_notification_groups id groups db =
      update_role id
        (record {
          name = none;
          description = none;
          scope = none;
          capabilities = none;
          notification_groups = some groups;
          client_assignable = none;
        })
        db

-- A call of the service that changes the table.
pub data Command : Type 0 where
  create_one : String → CreateRoleDto → Command
  update_one : String → UpdateRoleDto → Command
  delete_one : String → Command
  add : String → List String → Command
  remove : String → List String → Command
  rescope : String → RoleScope → Command
  notify : String → List String → Command

unfoldable pub run : (t : Table Role) → (String → ℕ) → Command → t.Db → Result t.Db
run t assigned (create_one new_id dto) db = create_role t new_id dto db
run t assigned (update_one id dto) db = update_role t id dto db
run t assigned (delete_one id) db = delete_role t assigned id db
run t assigned (add id capabilities) db = add_capabilities t id capabilities db
run t assigned (remove id capabilities) db = remove_capabilities t id capabilities db
run t assigned (rescope id scope) db = set_scope t id scope db
run t assigned (notify id groups) db = update_notification_groups t id groups db
