-- ===== src/Clients/Tests.antt =====
-- The theorems of src/clients at concrete tables.
use shield_api.Common.{
  ◌≡◌, refl, sym, ◌∙◌, ap, ◌==◌, eq_iff, ◌⊎◌, inl, inr, String, Bool, true, false, List, [], ◌∷◌,
  none, some, In, ok, raise, Error, list_table,
}
use shield_api.Auth.Scope.{RoleScope, is_scope_at_least}
use shield_api.Auth.AccessGrants.{scope_allows}
use shield_api.Clients.Invitations.{
  Invitation, InvitationStatus, PersonClientAccess, Person, accept, acceptable,
  invitations_to_accept, grant_accesses, upsert_access, becomes_primary, revoke, expire_stale,
}
use shield_api.Clients.Invitations.Batch.{Usable}
use shield_api.Clients.Invitations.Acceptance.{Accepted, accept_lem, accept-OnePlace}
use shield_api.Clients.Invitations.PrimaryPlace.{OnePlace}
use shield_api.Clients.Invitations.Terminal.{UniqueIds, accepted_stays}
use shield_api.Clients.Invitations.Creation.{
  CreateInvitationsDto, Caller, check_sites, check_roles, assignable_roles, create_many,
  create_bulk, group_of, renew, to_replace,
}
use shield_api.Clients.Invitations.Isolation.{IsAllowed, create_bulk-IsAllowed}

abbrev same : String → String
same s = s

abbrev ann : Person
ann = record { id = "p1"; email = "ann@example.com" }

abbrev invitation : String → String → Invitation
invitation id site_id = record {
  id = id;
  code = id;
  client_id = "c1";
  created_by_id = "p0";
  email = "ann@example.com";
  role_id = "r1";
  site_id = site_id;
  group_id = some "g1";
  status = InvitationStatus.pending;
  expires_on = 100;
  accepted_by_id = none;
  accepted_on = none;
}

abbrev accepted_row : Invitation → Invitation
accepted_row i = record i {
  status = InvitationStatus.accepted;
  accepted_by_id = some "p1";
  accepted_on = some 50;
}

abbrev revoked_row : Invitation → Invitation
revoked_row i = record i { status = InvitationStatus.revoked }

abbrev access : String → Bool → PersonClientAccess
access site_id is_primary = record {
  person_id = "p1";
  client_id = "c1";
  site_id = site_id;
  role_id = "r1";
  is_primary = is_primary;
}

abbrev group : List Invitation
group = invitation "i1" "s1" ∷ invitation "i2" "s2" ∷ []

abbrev accepted_group : List Invitation
accepted_group = accepted_row (invitation "i1" "s1") ∷ accepted_row (invitation "i2" "s2") ∷ []

abbrev granted_both : List PersonClientAccess
granted_both = access "s1" false ∷ access "s2" true ∷ []

-- The clicked invitation gives the primary access.
accepted_run :
    accept (list_table Invitation) (list_table PersonClientAccess) same 50 ann "i2" group []
    ≡ ok (accepted_group, granted_both)
unfolding accept acceptable invitations_to_accept grant_accesses upsert_access becomes_primary
accepted_run = refl

too_late :
    accept (list_table Invitation) (list_table PersonClientAccess) same 101 ann "i2" group []
    ≡ raise Error.gone
unfolding accept acceptable
too_late = refl

accept_example :
    (inv : Invitation) × In inv group
    × Usable same 50 ann "i2" inv
    × Accepted accepted_group group [] granted_both "p1" 50 inv
accept_example =
    accept_lem (list_table Invitation) same 50 ann "i2" group (list_table PersonClientAccess) []
      granted_both accepted_group accepted_run

no_access-OnePlace : OnePlace []
no_access-OnePlace a b m = absurd m

accept-OnePlace_example : OnePlace granted_both
accept-OnePlace_example =
    accept-OnePlace (list_table Invitation) same 50 ann "i2" group (list_table PersonClientAccess)
      [] granted_both accepted_group no_access-OnePlace accepted_run

abbrev caller : Caller
caller = record {
  person_id = "p0";
  grant = record {
    scope = RoleScope.client;
    capabilities = [];
    client_id = "c1";
    site_id = "s1";
    role_id = "r0";
  };
  sites = record { id = "s1"; client_id = "c1" } ∷ record { id = "s9"; client_id = "c9" } ∷ [];
  roles =
      record { id = "r1"; client_assignable = true }
      ∷ record { id = "r2"; client_assignable = false }
      ∷ [];
  time_in_days = λ n. 100;
  group_id_of = λ e. "g1";
  code_at = λ n. "i1";
  id_at = λ n. "i1";
}

abbrev request : String → String → CreateInvitationsDto
request site_id role_id = record {
  client_id = none;
  expires_in_days = none;
  invitations = record { email = "ann@example.com"; site_id = site_id; role_id = role_id } ∷ [];
}

abbrev issued : List Invitation
issued = record (invitation "i1" "s1") { group_id = none } ∷ []

created_run : create_bulk (list_table Invitation) caller (request "s1" "r1") [] ≡ ok issued
unfolding create_bulk check_sites check_roles assignable_roles scope_allows is_scope_at_least
    create_many group_of
created_run = refl

other_client :
    create_bulk (list_table Invitation) caller (request "s9" "r1") [] ≡ raise Error.bad_request
unfolding create_bulk check_sites check_roles assignable_roles scope_allows is_scope_at_least
    create_many group_of
other_client = refl

other_role :
    create_bulk (list_table Invitation) caller (request "s1" "r2") [] ≡ raise Error.not_found
unfolding create_bulk check_sites check_roles assignable_roles scope_allows is_scope_at_least
    create_many group_of
other_role = refl

twice : create_bulk (list_table Invitation) caller (request "s1" "r1") issued ≡ raise Error.conflict
unfolding create_bulk check_sites check_roles assignable_roles scope_allows is_scope_at_least
    create_many group_of
twice = refl

create_bulk_example :
    In (record (invitation "i1" "s1") { group_id = none }) []
    ⊎ IsAllowed caller (request "s1" "r1") (record (invitation "i1" "s1") { group_id = none })
create_bulk_example =
    create_bulk-IsAllowed (list_table Invitation) caller (request "s1" "r1") [] issued
      (record (invitation "i1" "s1") { group_id = none }) created_run (inl refl)

abbrev everything : Invitation → Bool
everything i = true

-- A site that the caller no longer sees: the old invitation is gone and no new one is there.
renewed_run :
    renew (list_table Invitation) everything caller "i7" none (invitation "i7" "s7" ∷ [])
    ≡ ok (revoked_row (invitation "i7" "s7") ∷ [], raise Error.not_found)
unfolding renew to_replace create_bulk check_sites
renewed_run = refl

abbrev old_row : Invitation
old_row = record (invitation "i7" "s1") { group_id = none }

revoke_run :
    revoke (list_table Invitation) everything "i1" group
    ≡ ok (revoked_row (invitation "i1" "s1") ∷ revoked_row (invitation "i2" "s2") ∷ [])
unfolding revoke
revoke_run = refl

stale_run :
    expire_stale (list_table Invitation) everything 101 group
    ≡ revoked_row (invitation "i1" "s1") ∷ revoked_row (invitation "i2" "s2") ∷ []
unfolding expire_stale
stale_run = refl

-- One accepted and one pending invitation, not of one group.
abbrev mixed : List Invitation
mixed = accepted_row (invitation "i1" "s1") ∷ record (invitation "i2" "s2") { group_id = none } ∷ []

abbrev mixed_after : List Invitation
mixed_after =
    accepted_row (invitation "i1" "s1")
    ∷ revoked_row (record (invitation "i2" "s2") { group_id = none })
    ∷ []

mixed_run : revoke (list_table Invitation) everything "i2" mixed ≡ ok mixed_after
unfolding revoke
mixed_run = refl

abbrev id_of : Invitation → String
id_of i = i.id

distinct_ids : (x y : String) → x ≡ "i1" → y ≡ "i2" → x ≡ y → ⊥
distinct_ids x y p q e =
    let clash : ("i1" == "i2") ≡ true = (eq_iff "i1" "i2").1 (sym p ∙ e ∙ q) in absurd (cc)

mixed-UniqueIds : UniqueIds mixed
mixed-UniqueIds a b (inl e) (inl f) same_id = e ∙ sym f
mixed-UniqueIds a b (inl e) (inr (inl f)) same_id =
    absurd (distinct_ids a.id b.id (ap id_of e) (ap id_of f) same_id)
mixed-UniqueIds a b (inr (inl e)) (inl f) same_id =
    absurd (distinct_ids b.id a.id (ap id_of f) (ap id_of e) (sym same_id))
mixed-UniqueIds a b (inr (inl e)) (inr (inl f)) same_id = e ∙ sym f
mixed-UniqueIds a b (inr (inr nothing)) n same_id = absurd nothing
mixed-UniqueIds a b (inl e) (inr (inr nothing)) same_id = absurd nothing
mixed-UniqueIds a b (inr (inl e)) (inr (inr nothing)) same_id = absurd nothing

accepted_stays_example :
    In (accepted_row (invitation "i1" "s1")) mixed_after
    × In
        (accepted_row (invitation "i1" "s1"))
        (expire_stale (list_table Invitation) everything 101 mixed)
accepted_stays_example =
    accepted_stays (list_table Invitation) everything mixed (accepted_row (invitation "i1" "s1"))
      "i2" 101 mixed_after mixed-UniqueIds (inl refl) refl mixed_run

-- The primary record of the person is one that the group gives again: no primary one is left.
primary_lost :
    accept
      (list_table Invitation)
      (list_table PersonClientAccess)
      same
      50
      ann
      "i2"
      group
      (access "s1" true ∷ [])
    ≡ ok (accepted_group, access "s1" false ∷ access "s2" false ∷ [])
unfolding accept acceptable invitations_to_accept grant_accesses upsert_access becomes_primary
primary_lost = refl
