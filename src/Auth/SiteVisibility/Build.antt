-- ===== src/Auth/SiteVisibility/Build.antt =====
-- src/auth/utils/site-visibility.ts: `buildSiteHierarchy` against the parent links of the sites.
use shield_api.Common.{
  >>=-eq-ok, ℕ, ◌<◌, ◌≡◌, refl, sym, ◌∙◌, ap, ◌≢◌, ◌↔◌, inl, inr, String, Bool, true, false, List,
  [], ◌∷◌, ◌++◌, some, map, filter, get, put, get_or, truthy?, ◌==◌, includes, Result, ok, ◌&&◌, In,
  arith, Bool-cases, get-put, eq_iff, ok-injective,
}
use mathlib.Core.List.{append_assoc, append-nil}
use shield_api.Auth.SiteVisibility.{
  SiteNode, SiteHierarchy, children_map_from, get_descendants, descendants_from,
  build_site_hierarchy,
}
use shield_api.Auth.SiteVisibility.Hierarchy.{
  Descendant, get_descendants_lem, get_descendants_total, get_descendants_cycle,
}

-- The site names `p` as its parent; an empty text names none.
abbrev names_parent : String → SiteNode → Bool
names_parent p s = truthy? s.parent_site_id && get_or s.parent_site_id "" == p

-- The children of a site, in the order of the list.
abbrev pub children_of : List SiteNode → String → List String
children_of sites p = map (λ s. s.id) (filter (names_parent p) sites)

children_map_from_lem :
    (m : List (String × List String)) (sites : List SiteNode) (p : String)
    → get_or (get p (children_map_from m sites)) [] ≡ get_or (get p m) [] ++ children_of sites p
unfolding children_map_from
children_map_from_lem m [] p = sym (append-nil _)
children_map_from_lem m (s ∷ sites) p =
    let q = get_or s.parent_site_id "" in
    let now = get_or (get q m) [] ++ s.id ∷ [] in
    ground (
      arith,
      children_map_from_lem m sites p,
      children_map_from_lem (put q now m) sites p,
      get-put q p now m,
      eq_iff q p,
      append_assoc (get_or (get p m) []) (s.id ∷ []) (children_of sites p),
    )

descendants_from-cons :
    (descend : String → Result (List String)) (m r : List (String × List String)) (s : SiteNode)
    (sites : List SiteNode)
    → descendants_from descend m (s ∷ sites) ≡ ok r
    → (below : List String) × (descend s.id ≡ ok below)
      × (descendants_from descend (put s.id below m) sites ≡ ok r)
unfolding descendants_from
descendants_from-cons descend m r s sites h = >>=-eq-ok (descend s.id) _ h

descendants_from_absent :
    (descend : String → Result (List String)) (m r : List (String × List String))
    (sites : List SiteNode) (k : String)
    → descendants_from descend m sites ≡ ok r
    → includes (map (λ s. s.id) sites) k ≡ false
    → get k r ≡ get k m
unfolding descendants_from
descendants_from_absent descend m r [] k h n = ap (get k) (sym (ok-injective h))
descendants_from_absent descend m r (s ∷ sites) k h n =
    let (below, e, h') = descendants_from-cons descend m r s sites h in
    descendants_from_absent descend (put s.id below m) r sites k h' (ground arith)
    ∙ get-put s.id k below m
    ∙ ground arith

descendants_from_lem :
    (descend : String → Result (List String)) (m r : List (String × List String))
    (sites : List SiteNode) (k : String)
    → descendants_from descend m sites ≡ ok r
    → includes (map (λ s. s.id) sites) k ≡ true
    → (ds : List String) × (descend k ≡ ok ds) × (get k r ≡ some ds)
descendants_from_lem descend m r [] k h n = cc
descendants_from_lem descend m r (s ∷ sites) k h n =
    let (below, e, h') = descendants_from-cons descend m r s sites h in
    elim (Bool-cases (includes (map (λ x. x.id) sites) k)) [
      | inl later ↦ descendants_from_lem descend (put s.id below m) r sites k h' later
      | inr absent ↦
          let same : s.id ≡ k = ground (arith, eq_iff s.id k) in
          (
            below,
            rw (← same) e,
            descendants_from_absent descend (put s.id below m) r sites k h' absent
                ∙ get-put s.id k below m
                ∙ ground (arith, eq_iff s.id k),
          )
    ]

descendants_from_total :
    (descend : String → Result (List String)) (m : List (String × List String))
    (sites : List SiteNode)
    → ((a : String) → (ds : List String) × (descend a ≡ ok ds))
    → (r : List (String × List String)) × (descendants_from descend m sites ≡ ok r)
unfolding descendants_from
descendants_from_total descend m [] all = (m, refl)
descendants_from_total descend m (s ∷ sites) all =
    let (below, e) = all s.id in
    let (r, f) = descendants_from_total descend (put s.id below m) sites all in (r, rw e f)

module _ (sites : List SiteNode) where
  children_map_lem :
      (p : String) → get_or (get p (children_map_from [] sites)) [] ≡ children_of sites p
  children_map_lem p = children_map_from_lem [] sites p

  -- Where `buildSiteHierarchy` returns, `allSiteIds` is the ids of the list in their order, and every
  -- site of the list has an entry, which holds exactly the sites that are reached from it by one or more links from a parent to a child.
  pub build_site_hierarchy_lem :
      (stack : ℕ) (h : SiteHierarchy) (k d : String)
      → build_site_hierarchy stack sites ≡ ok h
      → includes (map (λ s. s.id) sites) k ≡ true
      → (h.all_site_ids ≡ map (λ s. s.id) sites)
        × ((ds : List String) × (get k h.descendants_by_site_id ≡ some ds)
            × (In d ds ↔ Descendant (children_of sites) k d))
  unfolding build_site_hierarchy
  build_site_hierarchy_lem stack h k d e i =
      let m = children_map_from [] sites in
      let (r, f, g) = >>=-eq-ok (descendants_from (get_descendants stack m) [] sites) _ e in
      let (ds, p, q) = descendants_from_lem (get_descendants stack m) [] r sites k f i in
      (
        ap (λ (x : SiteHierarchy). x.all_site_ids) (sym (ok-injective g)),
        (
          ds,
          ap (λ (x : SiteHierarchy). get k x.descendants_by_site_id) (sym (ok-injective g)) ∙ q,
          get_descendants_lem (children_of sites) m children_map_lem stack k d ds p,
        ),
      )

  -- Where a rank falls from every parent to its children and is below the stack's depth,
  -- `buildSiteHierarchy` returns.
  pub build_site_hierarchy_total :
      (stack : ℕ) (rank : String → ℕ)
      → ((p c : String) → In c (children_of sites p) → rank c < rank p)
      → ((a : String) → rank a < stack)
      → (h : SiteHierarchy) × (build_site_hierarchy stack sites ≡ ok h)
  unfolding build_site_hierarchy
  build_site_hierarchy_total stack rank falls deep =
      let m = children_map_from [] sites in
      let (r, e) = descendants_from_total (get_descendants stack m) [] sites λ a.
        get_descendants_total (children_of sites) m children_map_lem rank falls stack a (deep a) in
      (record { all_site_ids = map (λ s. s.id) sites; descendants_by_site_id = r }, rw e)

  -- A list with a site that is below itself, such as one that is its own parent, makes
  -- `buildSiteHierarchy` run out of the stack, however deep the stack is.
  pub build_site_hierarchy_cycle :
      (stack : ℕ) (a : String) (h : SiteHierarchy)
      → includes (map (λ s. s.id) sites) a ≡ true
      → Descendant (children_of sites) a a
      → build_site_hierarchy stack sites ≢ ok h
  unfolding build_site_hierarchy
  build_site_hierarchy_cycle stack a h i cycle e =
      let m = children_map_from [] sites in
      let (r, f, g) = >>=-eq-ok (descendants_from (get_descendants stack m) [] sites) _ e in
      let (ds, p, q) = descendants_from_lem (get_descendants stack m) [] r sites a f i in
      let overflow = get_descendants_cycle (children_of sites) m children_map_lem stack a cycle in
      cc
