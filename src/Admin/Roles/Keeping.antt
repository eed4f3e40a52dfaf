-- ===== src/Admin/Roles/Keeping.antt =====
-- src/admin/roles/roles.service.ts: every operation keeps the table of roles well formed.
use shield_api.Common.{
  ℕ, ◌≡◌, ◌≢◌, refl, sym, ◌∙◌, subst, ◌⊎◌, inl, inr, String, Bool, true, false, not, ◌&&◌, List, [],
  ◌∷◌, ◌++◌, filter, includes, distinct, In, In-of_append, In-of_filter, In-of_includes,
  includes_of_In, includes-set_add_all, ◌==◌, eq_iff, arith, Bool-cases, Option-cases, All, All-In,
  Option, none, some, get_or, truthy?, is_some, ok, Table,
}
use shield_api.Auth.Scope.{RoleScope}
use shield_api.Auth.Capabilities.{is_valid_capability}
use shield_api.Admin.Roles.{
  Role, CreateRoleDto, UpdateRoleDto, has_invalid_capabilities, apply_update, find_by_id,
  update_by_id, create_role, update_role, delete_role, add_capabilities, remove_capabilities,
  set_scope, update_notification_groups, given_invalid, Command, create_one, update_one, delete_one,
  add, remove, rescope, notify, run,
}
use shield_api.Admin.Roles.Invariant.{
  WellFormed, IsFit, WellFormed-IsFit, WellFormed-update, WellFormed-append, WellFormed-filter,
}

abbrev AllValid : List String → Type 0
AllValid = All (λ c. is_valid_capability c ≡ true)

has_invalid_capabilities-AllValid :
    (cs : List String) → has_invalid_capabilities cs ≡ false → AllValid cs
unfolding has_invalid_capabilities
has_invalid_capabilities-AllValid [] h = tt
has_invalid_capabilities-AllValid (c ∷ cs) h = ground (arith, has_invalid_capabilities-AllValid cs)

AllValid-of_In :
    (cs : List String) → ((c : String) → In c cs → is_valid_capability c ≡ true) → AllValid cs
AllValid-of_In [] h = tt
AllValid-of_In (c ∷ cs) h = (h c (inl refl), AllValid-of_In cs (λ d m. h d (inr m)))

AllValid-distinct :
    (xs ys : List String) → AllValid xs → AllValid ys → AllValid (distinct (xs ++ ys))
AllValid-distinct xs ys p q = AllValid-of_In (distinct (xs ++ ys)) λ c m.
    elim (In-of_append c xs ys (
      In-of_includes (xs ++ ys) c
        (sym (includes-set_add_all [] (xs ++ ys) c) ∙ includes_of_In (distinct (xs ++ ys)) c m))) [
          | inl i ↦ All-In _ xs c p i
          | inr i ↦ All-In _ ys c q i
        ]

AllValid-filter : (p : String → Bool) (cs : List String) → AllValid cs → AllValid (filter p cs)
AllValid-filter p cs h =
    AllValid-of_In (filter p cs) λ c m. All-In _ cs c h (In-of_filter p c cs m).0

module _ (t : Table Role) (db db' : t.Db) (w : WellFormed (t.rows db)) where
  open t use {
    rows, find_first_sound, find_first_none, rows-create, rows-update_many, rows-delete_many,
  }

  -- The row that `findUnique` by id returns is the only one with the id.
  found_by_id :
      (id : String) (x : Role)
      → find_by_id t id db ≡ some x
      → In x (rows db) × (x.id ≡ id) × ((r : Role) → In r (rows db) → r.id ≡ id → r ≡ x)
  found_by_id id x e =
      let (m, p) = find_first_sound (λ (r : Role). r.id == id) db x e in
      let at = (eq_iff x.id id).0 p in (m, at, λ r i q. w.ids r x i m (q ∙ sym at))

  updated :
      (id : String) (f : Role → Role) (x : Role)
      → find_by_id t id db ≡ some x
      → ((r : Role) → (f r).id ≡ r.id)
      → IsFit (f x)
      → ((f x).name ≡ x.name) ⊎ ((s : Role) → In s (rows db) → (f x).name ≡ s.name → s.id ≡ id)
      → WellFormed (rows (update_by_id t id f db))
  updated id f x e same_id fit new_name =
      let (m, at, only) = found_by_id id x e in
      subst WellFormed (sym (rows-update_many (λ (r : Role). r.id == id) f db)) (
        WellFormed-update (rows db) w id f same_id
          (λ r i q. subst (λ y. IsFit (f y)) (sym (only r i q)) fit)
          (λ r i q.
            subst
              (λ y.
                ((f y).name ≡ y.name)
                ⊎ ((s : Role) → In s (rows db) → (f y).name ≡ s.name → s.id ≡ id))
              (sym (only r i q)) new_name))

  set_scope-WellFormed :
      (id : String) (scope : RoleScope) → set_scope t id scope db ≡ ok db' → WellFormed (rows db')
  unfolding set_scope
  set_scope-WellFormed id scope h = elim (Option-cases (find_by_id t id db)) [
    | inl e ↦ absurd (ground arith)
    | inr (x, e) ↦
        let done : update_by_id t id (λ r. record r { scope = scope }) db ≡ db' = ground arith in
        let fit = WellFormed-IsFit (rows db) w x (found_by_id id x e).0 in
        subst (λ d. WellFormed (rows d)) done
          (updated id (λ r. record r { scope = scope }) x e (λ r. refl)
            (record { assignable = λ a. ground arith; valid = fit.valid }) (inl refl))
  ]

  add_capabilities-WellFormed :
      (id : String) (capabilities : List String)
      → add_capabilities t id capabilities db ≡ ok db'
      → WellFormed (rows db')
  unfolding add_capabilities
  add_capabilities-WellFormed id capabilities h = elim (Option-cases (find_by_id t id db)) [
    | inl e ↦ absurd (ground arith)
    | inr (x, e) ↦
        let f =
          λ (r : Role). record r { capabilities = distinct (x.capabilities ++ capabilities) } in
        let done : update_by_id t id f db ≡ db' = ground arith in
        let fresh : has_invalid_capabilities capabilities ≡ false = ground arith in
        let fit = WellFormed-IsFit (rows db) w x (found_by_id id x e).0 in
        subst (λ d. WellFormed (rows d)) done
          (updated id f x e (λ r. refl)
            (record {
              assignable = fit.assignable;
              valid =
                  AllValid-distinct x.capabilities capabilities fit.valid
                    (has_invalid_capabilities-AllValid capabilities fresh);
            })
            (inl refl))
  ]

  remove_capabilities-WellFormed :
      (id : String) (capabilities : List String)
      → remove_capabilities t id capabilities db ≡ ok db'
      → WellFormed (rows db')
  unfolding remove_capabilities
  remove_capabilities-WellFormed id capabilities h = elim (Option-cases (find_by_id t id db)) [
    | inl e ↦ absurd (ground arith)
    | inr (x, e) ↦
        let kept = λ (c : String). not (includes capabilities c) in
        let f = λ (r : Role). record r { capabilities = filter kept x.capabilities } in
        let done : update_by_id t id f db ≡ db' = ground arith in
        let fit = WellFormed-IsFit (rows db) w x (found_by_id id x e).0 in
        subst (λ d. WellFormed (rows d)) done
          (updated id f x e (λ r. refl)
            (record {
              assignable = fit.assignable;
              valid = AllValid-filter kept x.capabilities fit.valid;
            })
            (inl refl))
  ]

  delete_role-WellFormed :
      (assigned : String → ℕ) (id : String)
      → delete_role t assigned id db ≡ ok db'
      → WellFormed (rows db')
  unfolding delete_role
  delete_role-WellFormed assigned id h = elim (Option-cases (find_by_id t id db)) [
    | inl e ↦ absurd (ground arith)
    | inr (x, e) ↦
        let done : t.delete_many (λ r. r.id == id) db ≡ db' = ground arith in
        subst (λ d. WellFormed (rows d)) done
          (subst WellFormed (sym (rows-delete_many (λ (r : Role). r.id == id) db))
            (WellFormed-filter (rows db) w (λ r. not (r.id == id))))
  ]

  create_role-WellFormed :
      (new_id : String) (dto : CreateRoleDto)
      → ((r : Role) → In r (rows db) → r.id ≢ new_id)
      → create_role t new_id dto db ≡ ok db'
      → WellFormed (rows db')
  unfolding create_role
  create_role-WellFormed new_id dto fresh h =
      elim (Option-cases (t.find_first (λ r. r.name == dto.name) db)) [
        | inr (x, e) ↦ absurd (ground arith)
        | inl e ↦
            let new : Role = record {
              id = new_id;
              name = dto.name;
              description = dto.description;
              is_system = false;
              client_assignable = dto.client_assignable;
              notification_groups = get_or dto.notification_groups [];
              scope = dto.scope;
              capabilities = dto.capabilities;
            } in
            let done : t.create new db ≡ db' = ground arith in
            let good : has_invalid_capabilities dto.capabilities ≡ false = ground arith in
            subst (λ d. WellFormed (rows d)) done
              (subst WellFormed (sym (rows-create new db)) (
                WellFormed-append (rows db) w new
                  (record {
                    assignable = λ a. ground arith;
                    valid = has_invalid_capabilities-AllValid dto.capabilities good;
                  })
                  fresh
                  (λ r m same.
                    let no_match = find_first_none (λ (y : Role). y.name == dto.name) db r e m in
                    let match = (eq_iff r.name dto.name).1 same in cc)))
      ]

  updated_valid :
      (dto : UpdateRoleDto) (x : Role)
      → given_invalid dto.capabilities ≡ false
      → AllValid x.capabilities
      → AllValid (get_or dto.capabilities x.capabilities)
  updated_valid dto x h valid = elim (Option-cases dto.capabilities) [
    | inl e ↦ rw e valid
    | inr (cs, e) ↦ rw e (has_invalid_capabilities-AllValid cs (rw e at h))
  ]

  abbrev name_taken : String → UpdateRoleDto → Option Role
  name_taken id dto = t.find_first (λ r. r.name == get_or dto.name "" && not (r.id == id)) db

  name_free :
      (id : String) (dto : UpdateRoleDto) (x : Role) (n : String)
      → dto.name ≢ some ""
      → dto.name ≡ some n
      → (n == x.name) ≡ false
      → (truthy? dto.name && not (get_or dto.name "" == x.name) && is_some (name_taken id dto))
        ≡ false
      → name_taken id dto ≡ none
  name_free id dto x n named e other h = elim (Option-cases (name_taken id dto)) [
    | inl free ↦ free
    | inr (y, taken) ↦ absurd (ground (arith, eq_iff n ""))
  ]

  updated_name :
      (id : String) (dto : UpdateRoleDto) (x : Role)
      → dto.name ≢ some ""
      → (truthy? dto.name && not (get_or dto.name "" == x.name) && is_some (name_taken id dto))
        ≡ false
      → (get_or dto.name x.name ≡ x.name)
        ⊎ ((s : Role) → In s (rows db) → get_or dto.name x.name ≡ s.name → s.id ≡ id)
  updated_name id dto x named h = elim (Option-cases dto.name) [
    | inl e ↦ inl (rw e refl)
    | inr (n, e) ↦ elim (Bool-cases (n == x.name)) [
      | inl same ↦ inl (rw e ((eq_iff n x.name).0 same))
      | inr other ↦ inr λ s m q.
          let free = name_free id dto x n named e other h in
          let miss =
            find_first_none (λ (r : Role). r.name == get_or dto.name "" && not (r.id == id)) db s
              free m in
          ground (arith, eq_iff s.name n, eq_iff s.id id)
    ]
  ]

  update_role-WellFormed :
      (id : String) (dto : UpdateRoleDto)
      → dto.name ≢ some ""
      → update_role t id dto db ≡ ok db'
      → WellFormed (rows db')
  unfolding update_role
  update_role-WellFormed id dto named h = elim (Option-cases (find_by_id t id db)) [
    | inl e ↦ absurd (ground arith)
    | inr (x, e) ↦
        let done : update_by_id t id (apply_update dto) db ≡ db' = ground arith in
        let fit = WellFormed-IsFit (rows db) w x (found_by_id id x e).0 in
        let valid : given_invalid dto.capabilities ≡ false = ground arith in
        subst (λ d. WellFormed (rows d)) done
          (updated id (apply_update dto) x e (λ r. refl)
            (record { assignable = λ a. ground arith; valid = updated_valid dto x valid fit.valid })
            (updated_name id dto x named (ground arith)))
  ]

-- What a call owes to the service: a new row's id is fresh, and a new name is not empty, which
-- UpdateRoleDto asks for.
abbrev pub Admissible : (t : Table Role) → Command → t.Db → Type 0
Admissible t (create_one new_id dto) db = (r : Role) → In r (t.rows db) → r.id ≢ new_id
Admissible t (update_one id dto) db = dto.name ≢ some ""
Admissible t _ db = Unit

-- A call that returns leaves a well-formed table well formed: no client-assignable role has GLOBAL
-- or SYSTEM scope, every capability is a valid one, ids are unique, and so are names. The id of a
-- created role is fresh, and a new name in an update is not empty.
pub run-WellFormed :
    (t : Table Role) (assigned : String → ℕ) (command : Command) (db db' : t.Db)
    → WellFormed (t.rows db)
    → Admissible t command db
    → run t assigned command db ≡ ok db'
    → WellFormed (t.rows db')
unfolding run update_notification_groups
run-WellFormed t assigned (create_one new_id dto) db db' w a h =
    create_role-WellFormed t db db' w new_id dto a h
run-WellFormed t assigned (update_one id dto) db db' w a h =
    update_role-WellFormed t db db' w id dto a h
run-WellFormed t assigned (delete_one id) db db' w a h =
    delete_role-WellFormed t db db' w assigned id h
run-WellFormed t assigned (add id cs) db db' w a h = add_capabilities-WellFormed t db db' w id cs h
run-WellFormed t assigned (remove id cs) db db' w a h =
    remove_capabilities-WellFormed t db db' w id cs h
run-WellFormed t assigned (rescope id scope) db db' w a h =
    set_scope-WellFormed t db db' w id scope h
run-WellFormed t assigned (notify id groups) db db' w a h =
    update_role-WellFormed t db db' w id _ (λ e. cc) h
