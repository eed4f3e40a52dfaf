-- ===== src/Auth/SiteVisibility/Hierarchy.antt =====
-- src/auth/utils/site-visibility.ts: `getDescendants` against the descendant relation.
use shield_api.Common.{
  ℕ, zero, suc, ◌<◌, ◌≡◌, refl, sym, ◌∙◌, ap, subst, ◌≢◌, ◌↔◌, ◌⊎◌, inl, inr, String, List, [], ◌∷◌,
  ◌++◌, get, get_or, Result, ok, raise, Result-cases, ok-injective, Error, In, arith,
  In-append_left, In-append_right, In-of_append,
}
use shield_api.Auth.SiteVisibility.{descend_each, get_descendants}

-- `Descendant kids a d`: `d` is reached from `a` in one or more steps to a child.
pub data Descendant (kids : String → List String) : String → String → Type 0 where
  child : {a c : String} → In c (kids a) → Descendant kids a c
  deeper : {a c d : String} → In c (kids a) → Descendant kids c d → Descendant kids a d

-- What one child contributes to `descend_each`.
abbrev Contributes : (String → Result (List String)) → String → String → Type 0
Contributes descend d c = (d ≡ c) ⊎ ((below : List String) × (descend c ≡ ok below) × In d below)

module _ (descend : String → Result (List String)) where
  descend_each-cons :
      (c : String) (cs ds : List String)
      → descend_each descend (c ∷ cs) ≡ ok ds
      → (below rest : List String) × (descend c ≡ ok below)
        × (descend_each descend cs ≡ ok rest)
        × (ds ≡ c ∷ below ++ rest)
  descend_each-cons c cs ds h = elim (Result-cases (descend c)) [
    | inl (below, e) ↦ elim (Result-cases (descend_each descend cs)) [
      | inl (rest, f) ↦ (below, rest, e, f, ground arith)
      | inr (x, f) ↦ absurd (ground arith)
    ]
    | inr (x, e) ↦ absurd (ground arith)
  ]

  descend_each_sound :
      (cs ds : List String) (d : String)
      → descend_each descend cs ≡ ok ds
      → In d ds
      → (c : String) × In c cs × Contributes descend d c
  descend_each_sound [] ds d h m = absurd (subst (In d) (ok-injective (sym h)) m)
  descend_each_sound (c ∷ cs) ds d h m =
      let (below, rest, e, f, g) = descend_each-cons c cs ds h in
      elim (subst (In d) g m) [
        | inl p ↦ (c, inl refl, inl p)
        | inr m' ↦ elim (In-of_append d below rest m') [
          | inl here ↦ (c, inl refl, inr (below, e, here))
          | inr later ↦ let (c', i, k) = descend_each_sound cs rest d f later in (c', inr i, k)
        ]
      ]

  descend_each_complete :
      (cs ds : List String) (c d : String)
      → descend_each descend cs ≡ ok ds
      → In c cs
      → Contributes descend d c
      → In d ds
  descend_each_complete [] ds c d h i k = elim i [ ]
  descend_each_complete (x ∷ cs) ds c d h (inl p) (inl q) =
      let (below, rest, e, f, g) = descend_each-cons x cs ds h in subst (In d) (sym g) (inl (q ∙ p))
  descend_each_complete (x ∷ cs) ds c d h (inl p) (inr (b, eb, m)) =
      let (below, rest, e, f, g) = descend_each-cons x cs ds h in
      let same : b ≡ below = ok-injective (sym eb ∙ ap descend p ∙ e) in
      subst (In d) (sym g) (inr (In-append_left d below rest (subst (In d) same m)))
  descend_each_complete (x ∷ cs) ds c d h (inr j) k =
      let (below, rest, e, f, g) = descend_each-cons x cs ds h in
      subst (In d) (sym g)
        (inr (In-append_right d below rest (descend_each_complete cs rest c d f j k)))

  descend_each_calls :
      (cs ds : List String) (c : String)
      → descend_each descend cs ≡ ok ds
      → In c cs
      → (below : List String) × (descend c ≡ ok below)
  descend_each_calls [] ds c h i = elim i [ ]
  descend_each_calls (x ∷ cs) ds c h (inl p) =
      let (below, rest, e, f, g) = descend_each-cons x cs ds h in (below, ap descend p ∙ e)
  descend_each_calls (x ∷ cs) ds c h (inr j) =
      let (below, rest, e, f, g) = descend_each-cons x cs ds h in descend_each_calls cs rest c f j

  descend_each_raise :
      (cs : List String) (x : Error)
      → ((c : String) (y : Error) → descend c ≡ raise y → y ≡ Error.plain)
      → descend_each descend cs ≡ raise x
      → x ≡ Error.plain
  descend_each_raise [] x all h = cc
  descend_each_raise (c ∷ cs) x all h = elim (Result-cases (descend c)) [
    | inl (below, e) ↦ elim (Result-cases (descend_each descend cs)) [
      | inl (rest, f) ↦ absurd (ground arith)
      | inr (y, f) ↦ descend_each_raise cs x all (ground arith)
    ]
    | inr (y, e) ↦ all c x (ground arith)
  ]

  descend_each_total :
      (cs : List String)
      → ((c : String) → In c cs → (below : List String) × (descend c ≡ ok below))
      → (ds : List String) × (descend_each descend cs ≡ ok ds)
  descend_each_total [] all = ([], refl)
  descend_each_total (c ∷ cs) all =
      let (below, e) = all c (inl refl) in
      let (rest, f) = descend_each_total cs (λ x i. all x (inr i)) in (c ∷ below ++ rest, rw (e, f))

module _ (kids : String → List String) (m : List (String × List String))
    (children : (p : String) → get_or (get p m) [] ≡ kids p) where
  unfold_descendants :
      (f : ℕ) (a : String)
      → get_descendants (suc f) m a ≡ descend_each (λ c. get_descendants f m c) (kids a)
  unfolding get_descendants
  unfold_descendants f a = rw (children a)

  get_descendants_sound :
      (f : ℕ) (a d : String) (ds : List String)
      → get_descendants f m a ≡ ok ds
      → In d ds
      → Descendant kids a d
  unfolding get_descendants
  get_descendants_sound zero a d ds h i = cc
  get_descendants_sound (suc f) a d ds h i =
      let (c, j, k) =
        descend_each_sound (λ x. get_descendants f m x) (kids a) ds d
          (sym (unfold_descendants f a) ∙ h) i in
      elim k [
        | inl e ↦ child (subst (λ x. In x (kids a)) (sym e) j)
        | inr (below, e, i') ↦ deeper j (get_descendants_sound f c d below e i')
      ]

  -- A call that returns has called itself on every descendant, with less stack.
  get_descendants_calls :
      {a d : String} (f : ℕ) (ds : List String)
      → get_descendants f m a ≡ ok ds
      → Descendant kids a d
      → (g : ℕ) × (g < f) × In d ds × ((es : List String) × (get_descendants g m d ≡ ok es))
  unfolding get_descendants
  get_descendants_calls zero ds h i = cc
  get_descendants_calls {a} {d} (suc f) ds h (child j) =
      let step = λ (x : String). get_descendants f m x in
      let h' = sym (unfold_descendants f a) ∙ h in
      (
        f,
        omega arith,
        descend_each_complete step (kids a) ds d d h' j (inl refl),
        descend_each_calls step (kids a) ds d h' j,
      )
  get_descendants_calls {a} {d} (suc f) ds h (deeper {c} j r) =
      let step = λ (x : String). get_descendants f m x in
      let h' = sym (unfold_descendants f a) ∙ h in
      let (below, e) = descend_each_calls step (kids a) ds c h' j in
      let (g, lt, i, es) = get_descendants_calls f below e r in
      (g, omega arith, descend_each_complete step (kids a) ds c d h' j (inr (below, e, i)), es)

  -- A list that `getDescendants` returns holds exactly the descendants.
  pub get_descendants_lem :
      (f : ℕ) (a d : String) (ds : List String)
      → get_descendants f m a ≡ ok ds
      → In d ds ↔ Descendant kids a d
  get_descendants_lem f a d ds h =
      (get_descendants_sound f a d ds h, λ r. (get_descendants_calls f ds h r).2)

  -- It returns where the depth below a site is bounded by the stack.
  pub get_descendants_total :
      (rank : String → ℕ)
      → ((p c : String) → In c (kids p) → rank c < rank p)
      → (f : ℕ) (a : String) → rank a < f
      → (ds : List String) × (get_descendants f m a ≡ ok ds)
  get_descendants_total rank falls zero a h = absurd (omega arith)
  get_descendants_total rank falls (suc f) a h =
      let (ds, e) =
        descend_each_total (λ (x : String). get_descendants f m x) (kids a)
          λ c i. get_descendants_total rank falls f c (omega (arith, falls a c i)) in
      (ds, unfold_descendants f a ∙ e)

  get_descendants_raise :
      (f : ℕ) (a : String) (x : Error) → get_descendants f m a ≡ raise x → x ≡ Error.plain
  unfolding get_descendants
  get_descendants_raise zero a x h = cc
  get_descendants_raise (suc f) a x h =
      descend_each_raise (λ (c : String). get_descendants f m c) (get_or (get a m) []) x
        (get_descendants_raise f) h

  never_returns :
      (n f : ℕ) (a : String) (ds : List String)
      → f < n
      → Descendant kids a a
      → get_descendants f m a ≢ ok ds
  never_returns zero f a ds lt r h = absurd (omega arith)
  never_returns (suc n) f a ds lt r h =
      let (g, less, i, (es, e)) = get_descendants_calls f ds h r in
      never_returns n g a es (omega arith) r e

  -- On a site below itself it runs out of every stack.
  pub get_descendants_cycle :
      (f : ℕ) (a : String) → Descendant kids a a → get_descendants f m a ≡ raise Error.plain
  get_descendants_cycle f a r = elim (Result-cases (get_descendants f m a)) [
    | inl (ds, e) ↦ absurd (never_returns (suc f) f a ds (omega arith) r e)
    | inr (x, e) ↦ e ∙ ap raise (get_descendants_raise f a x e)
  ]
