-- ===== src/Clients/Invitations.antt =====
-- src/clients/invitations/invitations.service.ts: the life of an invitation. Times are in
-- milliseconds. The e-mails that the operations send are left out.
pub mod Creation
pub mod Upsert
pub mod Grants
pub mod PrimaryPlace
pub mod Isolation
pub mod Terminal
pub mod Batch
pub mod Acceptance
use shield_api.Common.{
  ℕ, zero, suc, ◌+◌, ◌*◌, String, Bool, true, false, not, ◌&&◌, ◌||◌, List, [], ◌∷◌, Option, none,
  some, map, filter, any, find, includes, distinct, length, is_some, get_or, truthy?, concat,
  if◌then◌else◌, ltb, ◌==◌, Result, ok, raise, Error, throw_if, require, ◌>>=◌, ◌>>◌, Table,
}

pub data InvitationStatus : Type 0 where
  pending accepted revoked expired : InvitationStatus

abbrev pub is_pending : InvitationStatus → Bool
is_pending InvitationStatus.pending = true
is_pending _ = false

abbrev pub is_accepted : InvitationStatus → Bool
is_accepted InvitationStatus.accepted = true
is_accepted _ = false

abbrev pub is_retired : InvitationStatus → Bool
is_retired InvitationStatus.revoked = true
is_retired InvitationStatus.expired = true
is_retired _ = false

-- A row of `Invitation`.
pub record Invitation : Type 0 where
  pub id : String
  pub code : String
  pub client_id : String
  pub created_by_id : String
  pub email : String
  pub role_id : String
  pub site_id : String
  pub group_id : Option String
  pub status : InvitationStatus
  pub expires_on : ℕ
  pub accepted_by_id : Option String
  pub accepted_on : Option ℕ

-- A row of `PersonClientAccess`.
pub record PersonClientAccess : Type 0 where
  pub person_id : String
  pub client_id : String
  pub site_id : String
  pub role_id : String
  pub is_primary : Bool

pub record Person : Type 0 where
  pub id : String
  pub email : String

-- `i === clickedIndex && (!existingPrimaryAccess || ...)`
unfoldable pub becomes_primary : Bool → Option PersonClientAccess → Invitation → Bool
becomes_primary clicked none inv = clicked
becomes_primary clicked (some a) inv =
    clicked && (a.client_id == inv.client_id && a.site_id == inv.site_id)

-- `findIndex` where an element passes
abbrev steps_to {ℓ} : {A : Type ℓ} → (A → Bool) → List A → ℕ
steps_to p [] = 0
steps_to p (x ∷ xs) = if p x then 0 else suc (steps_to p xs)

-- `Math.max(0, xs.findIndex(p))`
abbrev pub index_or_zero {ℓ} : {A : Type ℓ} → (A → Bool) → List A → ℕ
index_or_zero p xs = if any p xs then steps_to p xs else 0

abbrev pub is_here : Option ℕ → Bool
is_here (some zero) = true
is_here _ = false

abbrev pub one_step_nearer : Option ℕ → Option ℕ
one_step_nearer (some (suc n)) = some n
one_step_nearer _ = none

-- The row that the compound key of the upsert names.
abbrev pub is_access_of : String → Invitation → PersonClientAccess → Bool
is_access_of person_id inv a =
    a.person_id == person_id
    && (a.client_id == inv.client_id && (a.site_id == inv.site_id && a.role_id == inv.role_id))

module _ (t : Table PersonClientAccess) where
  open t use {Db, find_first, create, update_many}

  unfoldable pub upsert_access : String → Invitation → Bool → Db → Db
  upsert_access person_id inv is_primary db =
      if is_some (find_first (is_access_of person_id inv) db)
      then update_many (is_access_of person_id inv) (λ a. record a { is_primary = is_primary }) db
      else create
          (record {
            person_id = person_id;
            client_id = inv.client_id;
            site_id = inv.site_id;
            role_id = inv.role_id;
            is_primary = is_primary;
          })
          db

  -- The loop over `invitationsToAccept`; `to_clicked` is `clickedIndex - i`, none once it is past.
  unfoldable pub grant_accesses :
      String → Option PersonClientAccess → Option ℕ → List Invitation → Db → Db
  unfolding becomes_primary upsert_access
  grant_accesses person_id existing to_clicked [] db = db
  grant_accesses person_id existing to_clicked (inv ∷ rest) db =
      grant_accesses person_id existing (one_step_nearer to_clicked) rest
        (upsert_access person_id inv (becomes_primary (is_here to_clicked) existing inv) db)

  -- `existingPrimaryAccess`
  abbrev pub existing_primary : String → Db → Option PersonClientAccess
  existing_primary person_id db = find_first (λ a. a.person_id == person_id && a.is_primary) db

abbrev pub pending_in_group : String → Invitation → Bool
pending_in_group group_id i =
    is_some i.group_id && (get_or i.group_id "" == group_id && is_pending i.status)

abbrev pub in_batch : List Invitation → Invitation → Bool
in_batch batch i = includes (map (λ b. b.id) batch) i.id

module _ (t : Table Invitation) where
  open t use {Db, find_first, find_many, create, update_many}

  -- `invitationsToAccept`
  unfoldable pub invitations_to_accept : Invitation → Db → List Invitation
  invitations_to_accept inv db =
      if truthy? inv.group_id
      then find_many (pending_in_group (get_or inv.group_id "")) db
      else inv ∷ []

  -- The checks of `accept`, up to the collection of the batch.
  unfoldable pub acceptable : (String → String) → ℕ → Person → String → Db → Result Invitation
  acceptable lower now person code db = do
    inv ← require (find_first (λ i. i.code == code) db) Error.not_found
    throw_if (is_retired inv.status) Error.gone
    throw_if (is_accepted inv.status) Error.gone
    throw_if (ltb inv.expires_on now) Error.gone
    throw_if (not (lower person.email == lower inv.email)) Error.forbidden
    ok inv

  -- `visible`: the rows that row-level security lets the caller see.
  unfoldable pub revoke : (Invitation → Bool) → String → Db → Result Db
  revoke visible id db = do
    inv ← require (find_first (λ i. visible i && i.id == id) db) Error.not_found
    throw_if (is_accepted inv.status) Error.bad_request
    ok (
        update_many
          (λ i.
            visible i
            && (if truthy? inv.group_id
                then pending_in_group (get_or inv.group_id "") i
                else i.id == id))
          (λ i. record i { status = InvitationStatus.revoked }) db)

  unfoldable pub expire_stale : (Invitation → Bool) → ℕ → Db → Db
  expire_stale visible now db =
      update_many (λ i. visible i && (is_pending i.status && ltb i.expires_on now))
        (λ i. record i { status = InvitationStatus.revoked }) db

-- `lower`: toLowerCase. The result is the two tables after the transaction; one that throws
-- leaves them as they are.
unfoldable pub accept :
    (ti : Table Invitation) (ta : Table PersonClientAccess)
    → (String → String)
    → ℕ
    → Person
    → String
    → ti.Db
    → ta.Db
    → Result (ti.Db × ta.Db)
unfolding acceptable invitations_to_accept grant_accesses
accept ti ta lower now person code invitations accesses = do
  inv ← acceptable ti lower now person code invitations
  let batch = invitations_to_accept ti inv invitations
  ok (
      (
        ti.update_many (in_batch batch)
            (λ i. record i {
              status = InvitationStatus.accepted;
              accepted_by_id = some person.id;
              accepted_on = some now;
            })
            invitations,
        grant_accesses ta person.id (existing_primary ta person.id accesses)
            (some (index_or_zero (λ i. i.code == code) batch)) batch accesses,
      ))
