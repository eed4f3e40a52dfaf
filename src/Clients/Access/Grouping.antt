-- ===== src/Clients/Access/Grouping.antt =====
-- src/clients/client-access/client-access.service.ts: one entry for each place.
use mathlib.Core.List.{append-nil}
use shield_api.Common.{
  ◌≡◌, refl, sym, inl, inr, ap, ◌∙◌, subst, String, false, List, [], ◌∷◌, ◌++◌, some, map, filter,
  head?, All, includes, set_add, set_add_all, includes-set_add, distinct, if◌then◌else◌, ◌==◌,
  eq_iff, eq_refl, arith, Bool-cases, ok,
}
use shield_api.Auth.AccessGrants.{AccessGrantData}
use shield_api.Auth.AccessGrants.Reduction.{IsReduction, reduce_access_grants-IsReduction}
use shield_api.Clients.Access.{
  AccessRow, MyClientAccess, Groups, place_key, add_to_group, group_from, grant_of, entry,
  merge_groups, get_my_client_access,
}

-- Two lists of one length, with a relation between their elements.
abbrev pub Pairwise : {A B : Type 0} → (A → B → Type 0) → List A → List B → Type 0
Pairwise R [] [] = Unit
Pairwise R (x ∷ xs) (y ∷ ys) = R x y × Pairwise R xs ys
Pairwise R _ _ = ⊥

-- The rows of a place.
abbrev pub rows_at : String → List AccessRow → List AccessRow
rows_at k = filter (λ a. place_key a == k)

-- The entry has the names of the first row, and the reduction of all of them.
pub record IsMerged (rows : List AccessRow) (e : MyClientAccess) : Type 0 where
  pub first : AccessRow
  pub merged : AccessGrantData
  pub is_first : head? rows ≡ some first
  pub is_merged : IsReduction (map grant_of rows) merged
  pub is_entry : e ≡ entry first merged

abbrev keys : Groups → List String
keys = map (λ p. p.0)

keys-add_to_group :
    (a : AccessRow) (gs : Groups) → keys (add_to_group a gs) ≡ set_add (keys gs) (place_key a)
unfolding add_to_group
keys-add_to_group a [] = refl
keys-add_to_group a (p ∷ gs) = ground (arith, keys-add_to_group a gs)

keys-group_from :
    (gs : Groups) (rows : List AccessRow)
    → keys (group_from gs rows) ≡ set_add_all (keys gs) (map place_key rows)
unfolding group_from
keys-group_from gs [] = refl
keys-group_from gs (a ∷ rows) =
    keys-group_from (add_to_group a gs) rows
    ∙ ap (λ ks. set_add_all ks (map place_key rows)) (keys-add_to_group a gs)

abbrev group_at : String → Groups → List AccessRow
group_at k [] = []
group_at k (p ∷ gs) = if p.0 == k then p.1 else group_at k gs

group_at-add_to_group :
    (k : String) (a : AccessRow) (gs : Groups)
    → group_at k (add_to_group a gs) ≡ group_at k gs ++ rows_at k (a ∷ [])
unfolding add_to_group
group_at-add_to_group k a [] = ground arith
group_at-add_to_group k a (p ∷ gs) = elim (Bool-cases (p.0 == place_key a)) [
  | inl e ↦ elim (Bool-cases (p.0 == k)) [
    | inl f ↦ rw (e, f, ap (λ z. z == k) (sym ((eq_iff p.0 (place_key a)).0 e)) ∙ f) refl
    | inr f ↦
        rw (e, f, ap (λ z. z == k) (sym ((eq_iff p.0 (place_key a)).0 e)) ∙ f)
          (sym (append-nil (group_at k gs)))
  ]
  | inr e ↦ elim (Bool-cases (p.0 == k)) [
    | inl f ↦
        let other : place_key a == k ≡ false =
          ground (arith, eq_iff p.0 k, eq_iff (place_key a) k, eq_iff p.0 (place_key a)) in
        rw (e, f, other) (sym (append-nil p.1))
    | inr f ↦ rw (e, f) (group_at-add_to_group k a gs)
  ]
]

append-rows_at :
    (k : String) (xs rows : List AccessRow) (a : AccessRow)
    → (xs ++ rows_at k (a ∷ [])) ++ rows_at k rows ≡ xs ++ rows_at k (a ∷ rows)
append-rows_at k [] rows a = ground arith
append-rows_at k (x ∷ xs) rows a = ap (λ z. x ∷ z) (append-rows_at k xs rows a)

group_at-group_from :
    (k : String) (gs : Groups) (rows : List AccessRow)
    → group_at k (group_from gs rows) ≡ group_at k gs ++ rows_at k rows
unfolding group_from
group_at-group_from k gs [] = sym (append-nil (group_at k gs))
group_at-group_from k gs (a ∷ rows) =
    group_at-group_from k (add_to_group a gs) rows
    ∙ ap (λ z. z ++ rows_at k rows) (group_at-add_to_group k a gs)
    ∙ append-rows_at k (group_at k gs) rows a

-- No two groups have the same key.
abbrev Apart : Groups → Type 0
Apart [] = Unit
Apart (p ∷ gs) = (includes (keys gs) p.0 ≡ false) × Apart gs

add_to_group-Apart : (a : AccessRow) (gs : Groups) → Apart gs → Apart (add_to_group a gs)
unfolding add_to_group
add_to_group-Apart a [] apart = (refl, tt)
add_to_group-Apart a (p ∷ gs) (fresh, apart) = elim (Bool-cases (p.0 == place_key a)) [
  | inl e ↦ rw e (fresh, apart)
  | inr e ↦ rw e (
    ground (
      arith,
      keys-add_to_group a gs,
      includes-set_add (keys gs) (place_key a) p.0,
      eq_iff (place_key a) p.0,
      eq_iff p.0 (place_key a),
    ),
    add_to_group-Apart a gs apart,
  )
]

group_from-Apart : (gs : Groups) (rows : List AccessRow) → Apart gs → Apart (group_from gs rows)
unfolding group_from
group_from-Apart gs [] apart = apart
group_from-Apart gs (a ∷ rows) apart =
    group_from-Apart (add_to_group a gs) rows (add_to_group-Apart a gs apart)

keyed_past :
    (p : String × List AccessRow) (gs : Groups) (ks : List String)
    → includes ks p.0 ≡ false
    → map {B = String × List AccessRow} (λ k. (k, group_at k (p ∷ gs))) ks
      ≡ map {B = String × List AccessRow} (λ k. (k, group_at k gs)) ks
keyed_past p gs [] fresh = refl
keyed_past p gs (k ∷ ks) fresh = ground (arith, keyed_past p gs ks, eq_iff k p.0, eq_iff p.0 k)

keyed :
    (gs : Groups)
    → Apart gs
    → map {B = String × List AccessRow} (λ k. (k, group_at k gs)) (keys gs) ≡ gs
keyed [] apart = refl
keyed (p ∷ gs) (fresh, apart) =
    ap (λ z. (p.0, group_at p.0 (p ∷ gs)) ∷ z) (keyed_past p gs (keys gs) fresh ∙ keyed gs apart)
    ∙ rw (eq_refl p.0) refl

-- Each group has a row.
abbrev Filled : Groups → Type 0
Filled = All (λ p. (a : AccessRow) × ((rest : List AccessRow) × (p.1 ≡ a ∷ rest)))

add_to_group-Filled : (a : AccessRow) (gs : Groups) → Filled gs → Filled (add_to_group a gs)
unfolding add_to_group
add_to_group-Filled a [] filled = ((a, ([], refl)), tt)
add_to_group-Filled a (p ∷ gs) ((b, (bs, q)), filled) = elim (Bool-cases (p.0 == place_key a)) [
  | inl e ↦ rw e ((b, (bs ++ a ∷ [], ap (λ z. z ++ a ∷ []) q)), filled)
  | inr e ↦ rw e ((b, (bs, q)), add_to_group-Filled a gs filled)
]

group_from-Filled : (gs : Groups) (rows : List AccessRow) → Filled gs → Filled (group_from gs rows)
unfolding group_from
group_from-Filled gs [] filled = filled
group_from-Filled gs (a ∷ rows) filled =
    group_from-Filled (add_to_group a gs) rows (add_to_group-Filled a gs filled)

merge_groups_lem :
    (gs : Groups)
    → Filled gs
    → (es : List MyClientAccess) × ((merge_groups gs ≡ ok es)
        × Pairwise (λ p e. IsMerged p.1 e) gs es)
merge_groups_lem [] filled = ([], (refl, tt))
merge_groups_lem ((k, g) ∷ gs) ((a, (rest, q)), filled) =
    let (merged, e, reduced) = reduce_access_grants-IsReduction (grant_of a) (map grant_of rest) in
    let (es, (f, pairs)) = merge_groups_lem gs filled in
    (
      entry a merged ∷ es,
      (
        rw (q, e, f) refl,
        (
          record {
            first = a;
            merged = merged;
            is_first = rw q refl;
            is_merged = rw q reduced;
            is_entry = refl;
          },
          pairs,
        ),
      ),
    )

Pairwise-map :
    {A B C : Type 0} (R : B → C → Type 0) (f : A → B) (xs : List A) (ys : List C)
    → Pairwise R (map f xs) ys
    → Pairwise (λ x. R (f x)) xs ys
Pairwise-map R f [] [] pairs = tt
Pairwise-map R f (x ∷ xs) (y ∷ ys) (r, pairs) = (r, Pairwise-map R f xs ys pairs)
Pairwise-map R f [] (y ∷ ys) pairs = absurd pairs
Pairwise-map R f (x ∷ xs) [] pairs = absurd pairs

-- The groups are those of a reference definition: for each key, in the order of their first rows,
-- the rows that have it.
groups_lem :
    (rows : List AccessRow)
    → group_from [] rows
      ≡ map {B = String × List AccessRow} (λ k. (k, rows_at k rows)) (distinct (map place_key rows))
groups_lem rows =
    sym (keyed (group_from [] rows) (group_from-Apart [] rows tt))
    ∙ same_groups (keys (group_from [] rows))
    ∙ ap (map {B = String × List AccessRow} (λ k. (k, rows_at k rows))) (keys-group_from [] rows)
  where
    same_groups :
        (ks : List String)
        → map {B = String × List AccessRow} (λ k. (k, group_at k (group_from [] rows))) ks
          ≡ map {B = String × List AccessRow} (λ k. (k, rows_at k rows)) ks
    same_groups [] = refl
    same_groups (k ∷ ks) = rw (group_at-group_from k [] rows, same_groups ks) refl

-- For a user with access records `getMyClientAccess` returns, without throwing, one entry for each
-- key of client and site, in the order of their first records. The entry names the client, the site
-- and the role of the first record with the key, and has the scope and the capabilities of the
-- reduction of all the records with it.
pub get_my_client_access_lem :
    (lower : String → String) (system_admin_emails : List String) (email : String) (r : AccessRow)
    (rs : List AccessRow)
    → (es : List MyClientAccess) × ((get_my_client_access lower system_admin_emails
            (some email)
            (r ∷ rs)
          ≡ ok es)
        × Pairwise (λ k e. IsMerged (rows_at k (r ∷ rs)) e) (distinct (map place_key (r ∷ rs))) es)
unfolding get_my_client_access
get_my_client_access_lem lower system_admin_emails email r rs =
    let (es, (e, pairs)) =
      merge_groups_lem (group_from [] (r ∷ rs)) (group_from-Filled [] (r ∷ rs) tt) in
    (
      es,
      (
        e,
        Pairwise-map (λ (p : String × List AccessRow). IsMerged p.1) (λ k. (k, rows_at k (r ∷ rs)))
            (distinct (map place_key (r ∷ rs))) es
            (subst (λ gs. Pairwise (λ p x. IsMerged p.1 x) gs es) (groups_lem (r ∷ rs)) pairs),
      ),
    )
