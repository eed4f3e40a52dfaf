-- ===== src/Tags/Registration/Isolation.antt =====
-- src/assets/tags/tags.service.ts: which tags a registration changes.
use shield_api.Common.{
  eq_iff, Option-cases, ◌≡◌, refl, sym, ◌∙◌, ap, subst, ◌⊎◌, inl, inr, String, Bool, true, false,
  not, ◌&&◌, ◌||◌, Option, none, some, is_some, In, In-of_map, In-of_append, if◌then◌else◌, ◌==◌,
  arith, Bool-cases, Table,
}
use shield_api.Auth.AccessGrants.{AccessGrantData, AccessIntent, is_system_admin}
use shield_api.Auth.Signing.{Runtime}
use shield_api.Tags.Tokens.{parse_inspection_token}
use shield_api.Tags.Access.{Tag}
use shield_api.Tags.Registration.{
  RlsContext, RegisterTagDto, is_system_intent, apply_dto, detached, detach_others, adopt,
  update_visible, create_visible, register_as_user, register_by_intent, register_parsed,
  register_tag,
}

-- Row-level security shows the caller tags of its own client only.
abbrev pub OwnTags : (Tag → Bool) → RlsContext → Type 0
OwnTags visible person = (x : Tag) → visible x ≡ true → x.client_id ≡ some person.client_id

module _ (t : Table Tag) (visible : Tag → Bool) (person : RlsContext)
    (own : OwnTags visible person) where
  open t use {Db, rows, find_first, create, update_many}

  -- A tag that the caller may take: one of its own client, or one with no client or no site.
  abbrev pub IsFree : Tag → Type 0
  IsFree x = (x.client_id ≡ some person.client_id) ⊎ ((x.client_id ≡ none) ⊎ (x.site_id ≡ none))

  -- Where a tag of the table after a registration comes from: it is as it was, or only lost its asset;
  -- or it is of the caller's client and was free before, or it is new.
  pub data Origin (db : Db) (new_id : String) (y : Tag) : Type 0 where
    same : In y (rows db) → Origin db new_id y
    lost_asset : (x : Tag) → In x (rows db) → y ≡ detached x → Origin db new_id y
    taken :
        (x : Tag)
        → In x (rows db)
        → x.id ≡ y.id
        → IsFree x
        → y.client_id ≡ some person.client_id
        → Origin db new_id y
    new : y.id ≡ new_id → y.client_id ≡ some person.client_id → Origin db new_id y

  detached-Origin : (db : Db) (n : String) (y : Tag) → Origin db n y → Origin db n (detached y)
  detached-Origin db n y (same m) = lost_asset y m refl
  detached-Origin db n y (lost_asset x m e) = lost_asset x m (ap detached e)
  detached-Origin db n y (taken x m e free ours) = taken x m e free ours
  detached-Origin db n y (new e ours) = new e ours

  own-Origin :
      (dto : RegisterTagDto) (db : Db) (n : String) (y : Tag)
      → y.client_id ≡ some person.client_id
      → Origin db n y
      → Origin db n (apply_dto dto y)
  own-Origin dto db n y ours (same m) = taken y m refl (inl ours) ours
  own-Origin dto db n y ours (lost_asset x m e) =
      taken x m (ap (λ (z : Tag). z.id) (sym e))
        (inl (ap (λ (z : Tag). z.client_id) (sym e) ∙ ours)) ours
  own-Origin dto db n y ours (taken x m e free o) = taken x m e free ours
  own-Origin dto db n y ours (new e o) = new e ours

  -- An update keeps the origins where its change does.
  update-Origin :
      (p : Tag → Bool) (f : Tag → Tag) (db before : Db) (n : String)
      → ((y : Tag) → In y (rows before) → Origin db n y)
      → ((y : Tag) → In y (rows before) → p y ≡ true → Origin db n (f y))
      → (y : Tag) → In y (rows (update_many p f before))
      → Origin db n y
  update-Origin p f db before n kept changed x m =
      let (y, i, q) =
        In-of_map (λ r. if p r then f r else r) x (rows before)
          (subst (In x) (t.rows-update_many p f before) m) in
      elim (Bool-cases (p y)) [
        | inl e ↦
            let is_f : x ≡ f y = q ∙ rw e refl in
            subst (λ z. Origin db n z) (sym is_f) (changed y i e)
        | inr e ↦
            let is_y : x ≡ y = q ∙ rw e refl in subst (λ z. Origin db n z) (sym is_y) (kept y i)
      ]

  detach-Origin :
      (asset_id : String) (is_kept : Tag → Bool) (db before : Db) (n : String)
      → ((y : Tag) → In y (rows before) → Origin db n y)
      → (y : Tag) → In y (rows (detach_others t asset_id is_kept before))
      → Origin db n y
  detach-Origin asset_id is_kept db before n kept =
      update-Origin _ detached db before n kept (λ y i e. detached-Origin db n y (kept y i))

  IsFree-cases :
      (x : Tag) → (not (is_some x.client_id) || not (is_some x.site_id)) ≡ true → IsFree x
  IsFree-cases x e = elim (Option-cases x.client_id) [
    | inl f ↦ inr (inl f)
    | inr (c, f) ↦ elim (Option-cases x.site_id) [
      | inl g ↦ inr (inr g)
      | inr (s, g) ↦ absurd (ground arith)
    ]
  ]

  adopt-Origin :
      (x : Tag) (db : Db) (n : String)
      → In x (rows db)
      → (y : Tag) → In y (rows (adopt t person x db))
      → Origin db n y
  adopt-Origin x db n m y i =
      elim (Bool-cases (not (is_some x.client_id) || not (is_some x.site_id))) [
        | inl e ↦
            update-Origin (λ z. z.id == x.id) _ db db n (λ z j. same j)
              (λ z j q. taken x m (sym ((eq_iff z.id x.id).0 q)) (IsFree-cases x e) refl) y
              (rw e at i)
        | inr e ↦ same (rw e at i)
      ]

  update_visible-Origin :
      (dto : RegisterTagDto) (id : String) (db before : Db) (n : String)
      → ((y : Tag) → In y (rows before) → Origin db n y)
      → (y : Tag) → In y (rows (update_visible t visible dto id before).0)
      → Origin db n y
  update_visible-Origin dto id db before n kept y m =
      elim (Bool-cases (
        is_some
          (find_first (λ z. visible z && (visible (apply_dto dto z) && z.id == id)) before))) [
            | inl e ↦
                detach-Origin dto.asset_id _ db _ n
                  (update-Origin (λ z. visible z && (visible (apply_dto dto z) && z.id == id))
                    (apply_dto dto) db before n kept
                    (λ z i q. own-Origin dto db n z (own z (ground arith)) (kept z i)))
                  y (rw e at m)
            | inr e ↦ kept y (rw e at m)
          ]

  create_visible-Origin :
      (asset_id : String) (x : Tag) (db : Db) (n : String)
      → x.id ≡ n
      → x.client_id ≡ some person.client_id
      → (y : Tag) → In y (rows (create_visible t visible asset_id x db).0)
      → Origin db n y
  create_visible-Origin asset_id x db n at ours y m = elim (Bool-cases (visible x)) [
    | inr e ↦ same (rw e at m)
    | inl e ↦
        elim (In-of_append y (rows (detach_others t asset_id (λ z. false) db)) _
          (subst (In y) (t.rows-create x _) (rw e at m))) [
            | inl old ↦ detach-Origin asset_id (λ z. false) db db n (λ z j. same j) y old
            | inr (inl is_x) ↦
                new (ap (λ (z : Tag). z.id) is_x ∙ at) (ap (λ (z : Tag). z.client_id) is_x ∙ ours)
            | inr (inr nothing) ↦ absurd nothing
          ]
  ]

  register_as_user_lem :
      (new_id external_id : String) (serial_number : Option String) (dto : RegisterTagDto)
      (found : Option Tag) (db : Db) (y : Tag)
      → ((x : Tag) → found ≡ some x → In x (rows db))
      → In y
          (rows (register_as_user t visible person new_id external_id serial_number dto found db).0)
      → Origin db new_id y
  unfolding register_as_user
  register_as_user_lem new_id external_id serial_number dto (some x) db y there m =
      update_visible-Origin dto x.id db (adopt t person x db) new_id
        (adopt-Origin x db new_id (there x refl)) y m
  register_as_user_lem new_id external_id (some serial_number) dto none db y there m =
      create_visible-Origin dto.asset_id _ db new_id refl refl y m
  register_as_user_lem new_id external_id none dto none db y there m = same m

  register_by_intent_lem :
      (new_id external_id : String) (serial_number client : Option String) (dto : RegisterTagDto)
      (db : Db) (y : Tag)
      → In y (
          rows
            (register_by_intent t visible
              (some person)
              false
              new_id
              external_id
              serial_number
              dto
              client
              db).0)
      → Origin db new_id y
  register_by_intent_lem new_id external_id serial_number none dto db y m =
      register_as_user_lem new_id external_id serial_number dto _ db y
        (λ x e. (t.find_first_sound _ db x e).0) m
  register_by_intent_lem new_id external_id serial_number (some c) dto db y m =
      register_as_user_lem new_id external_id serial_number dto _ db y
        (λ x e. (t.find_first_sound _ db x e).0) m

  register_parsed_lem :
      (new_id : String) (external_id serial_number : Option String) (dto : RegisterTagDto) (db : Db)
      (y : Tag)
      → In y (
          rows
            (register_parsed t visible
              (some person)
              false
              new_id
              external_id
              serial_number
              dto
              db).0)
      → Origin db new_id y
  register_parsed_lem new_id none serial_number dto db y m = same m
  register_parsed_lem new_id (some external_id) serial_number dto db y m =
      register_by_intent_lem new_id external_id serial_number dto.client_id dto db y m

  -- Where row-level security shows the caller tags of its own client only: after a registration by a
  -- caller who is not acting as a system administrator, whether it returns or throws, each tag is one
  -- that was there, the same or with its asset gone; or it is of the caller's own client, and then it
  -- has the id of the new tag, or a tag with its id was there that was of the caller's client already
  -- or had no client or no site.
  pub register_tag_lem :
      (node : Runtime) (new_secret default_key_id : String) (grant : AccessGrantData)
      (intent : AccessIntent) (new_id token : String) (dto : RegisterTagDto) (db : Db) (y : Tag)
      → (is_system_admin grant && is_system_intent intent) ≡ false
      → In y (
          rows
            (register_tag t node new_secret default_key_id grant intent visible
              (some person)
              new_id
              token
              dto
              db).0)
      → Origin db new_id y
  unfolding register_tag
  register_tag_lem node new_secret default_key_id grant intent new_id token dto db y acting m =
      let parsed = parse_inspection_token node new_secret default_key_id token in
      register_parsed_lem new_id parsed.tag_external_id parsed.serial_number dto db y
        (rw acting at m)
