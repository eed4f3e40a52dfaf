-- ===== src/Tags/Access/Hierarchy.antt =====
-- src/assets/tags/tags.service.ts: the access to a tag against the hierarchy of the sites.
use shield_api.Common.{
  ◌≡◌, refl, sym, subst, ◌⊎◌, ◌↔◌, inl, inr, String, List, [], ◌∷◌, none, find, find-none, flat_map,
  In, In-flat_map, In-of_append, ◌==◌, eq_iff, Option-cases,
}
use shield_api.Auth.SiteVisibility.{SiteNode}
use shield_api.Auth.SiteVisibility.Hierarchy.{Descendant, child, deeper}
use shield_api.Tags.Access.{subsites, get_allowed_site_ids_for_site}

In-of_flat_map :
    {A B : Type 0} (f : A → List B) (y : B) (xs : List A)
    → In y (flat_map f xs)
    → (x : A) × In x xs × In y (f x)
In-of_flat_map f y [] m = elim m [ ]
In-of_flat_map f y (x ∷ xs) m = elim (In-of_append y (f x) (flat_map f xs) m) [
  | inl here ↦ (x, inl refl, here)
  | inr later ↦ let (z, i, j) = In-of_flat_map f y xs later in (z, inr i, j)
]

-- A level of the flattening: each child with what is below it.
In-of_level :
    (below : String → List String) (d : String) (cs : List String)
    → In d (flat_map (λ c. c ∷ below c) cs)
    → (c : String) × In c cs × ((d ≡ c) ⊎ In d (below c))
In-of_level below d cs m = In-of_flat_map (λ c. c ∷ below c) d cs m

module _ (sites : List SiteNode) where
  abbrev kids : String → List String
  kids = subsites sites

  below_child :
      (k c d : String) → In c (kids k) → (d ≡ c) ⊎ Descendant kids c d → Descendant kids k d
  below_child k c d i (inl e) = subst (Descendant kids k) (sym e) (child i)
  below_child k c d i (inr r) = deeper i r

  -- An allowed site is the site itself or one below it.
  pub allowed_sound :
      (k d : String) → In d (get_allowed_site_ids_for_site sites k) → (d ≡ k) ⊎ Descendant kids k d
  unfolding get_allowed_site_ids_for_site
  allowed_sound k d m = elim (Option-cases (find (λ s. s.id == k) sites)) [
    | inl e ↦ elim (rw e at m) [ inl here ↦ inl here | inr nothing ↦ absurd nothing ]
    | inr (s, e) ↦ elim (rw e at m) [
      | inl here ↦ inl here
      | inr later ↦
          let (a, i, p) =
            In-of_level (λ s1. flat_map (λ s2. s2 ∷ kids s2) (kids s1)) d (kids k) later in
          inr (
            below_child k a d i (elim p [
              | inl here ↦ inl here
              | inr later' ↦
                  let (b, j, q) = In-of_level kids d (kids a) later' in
                  inr (
                    below_child a b d j
                      (elim q [ inl here ↦ inl here | inr last ↦ inr (child last) ]))
            ]))
    ]
  ]

  In-level_here :
      (below : String → List String) (d : String) (cs : List String)
      → In d cs
      → In d (flat_map (λ c. c ∷ below c) cs)
  In-level_here below d cs i = In-flat_map (λ c. c ∷ below c) d d cs i (inl refl)

  In-level_below :
      (below : String → List String) (c d : String) (cs : List String)
      → In c cs
      → In d (below c)
      → In d (flat_map (λ c. c ∷ below c) cs)
  In-level_below below c d cs i j = In-flat_map (λ c. c ∷ below c) c d cs i (inr j)

  -- No site is more than three levels below the site.
  abbrev pub ThreeLevels : String → Type 0
  ThreeLevels k =
      (a b c d : String) → In a (kids k) → In b (kids a) → In c (kids b) → In d (kids c) → ⊥

  listed_below :
      (k d : String)
      → ThreeLevels k
      → Descendant kids k d
      → In d (flat_map (λ s1. s1 ∷ flat_map (λ s2. s2 ∷ kids s2) (kids s1)) (kids k))
  listed_below k d flat (child i) = In-level_here _ d (kids k) i
  listed_below k d flat (deeper {c = a} i (child j)) =
      In-level_below _ a d (kids k) i (In-level_here kids d (kids a) j)
  listed_below k d flat (deeper {c = a} i (deeper {c = b} j (child l))) =
      In-level_below _ a d (kids k) i (In-level_below kids b d (kids a) j l)
  listed_below k d flat (deeper {c = a} i (deeper {c = b} j (deeper {c = c} l (child o)))) =
      absurd (flat a b c d i j l o)
  listed_below k d flat
        (deeper {c = a} i (deeper {c = b} j (deeper {c = c} l (deeper {c = e} o r)))) =
      absurd (flat a b c e i j l o)

-- `getAllowedSiteIdsForSite` gives exactly a site and the sites below it, for a site of the database
-- that has none more than three levels below.
pub get_allowed_site_ids_for_site_lem :
    (sites : List SiteNode) (s : SiteNode) (d : String)
    → In s sites
    → ThreeLevels sites s.id
    → In d (get_allowed_site_ids_for_site sites s.id)
      ↔ ((d ≡ s.id) ⊎ Descendant (subsites sites) s.id d)
unfolding get_allowed_site_ids_for_site
get_allowed_site_ids_for_site_lem sites s d i flat = (allowed_sound sites s.id d, complete)
  where
    complete :
        (d ≡ s.id) ⊎ Descendant (subsites sites) s.id d
        → In d (get_allowed_site_ids_for_site sites s.id)
    complete m = elim (Option-cases (find (λ r. r.id == s.id) sites)) [
      | inl e ↦ absurd (missing_site e)
      | inr (r, e) ↦
          rw e (elim m [
            | inl here ↦ inl here
            | inr below ↦ inr (listed_below sites s.id d flat below)
          ])
    ]
      where
        missing_site : find (λ r. r.id == s.id) sites ≡ none → ⊥
        missing_site e =
            let miss = find-none (λ r. r.id == s.id) sites s e i in
            let hit = (eq_iff s.id s.id).1 refl in cc
