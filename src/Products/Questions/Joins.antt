-- ===== src/Products/Questions/Joins.antt =====
-- src/products/asset-questions/asset-questions.service.ts: counting the rows of the joins and groups
-- that its SQL makes.
use shield_api.Common.{
  suc, ◌+◌, ◌≤◌, ◌≡◌, refl, sym, ap, subst, inl, inr, String, Bool, true, false, ◌&&◌, List, [],
  ◌∷◌, ◌++◌, Option, none, some, map, filter, head?, length, includes, includes-set_add_all,
  distinct, In, ltb, if◌then◌else◌, ◌==◌, eq_iff, arith, Bool-cases,
}
use shield_api.Products.Questions.{or_null, left_join}

pub includes-filter :
    (p : String → Bool) (xs : List String) (k : String)
    → includes (filter p xs) k ≡ (includes xs k && p k)
includes-filter p [] k = refl
includes-filter p (x ∷ xs) k = elim (Bool-cases (x == k)) [
  | inl e ↦
      let same : x ≡ k = (eq_iff x k).0 e in
      subst (λ z. includes (filter p (z ∷ xs)) k ≡ (includes (z ∷ xs) k && p k)) (sym same)
        (ground (arith, includes-filter p xs k, eq_iff k k))
  | inr e ↦ ground (arith, includes-filter p xs k)
]

pub includes-distinct : (xs : List String) (k : String) → includes (distinct xs) k ≡ includes xs k
includes-distinct xs k = includes-set_add_all [] xs k

module _ {A : Type 0} where
  pub includes-map :
      (f : A → String) (xs : List A) (k : String)
      → includes (map f xs) k ≡ ltb 0 (length (filter (λ x. f x == k) xs))
  includes-map f [] k = refl
  includes-map f (x ∷ xs) k = ground (arith, includes-map f xs k)

  pub length-filter_le : (p : A → Bool) (xs : List A) → length (filter p xs) ≤ length xs
  length-filter_le p [] = omega arith
  length-filter_le p (x ∷ xs) = ground (arith, length-filter_le p xs)

  -- All are counted where the counts agree.
  pub counted_all :
      (p : A → Bool) (xs : List A) (x : A) → length (filter p xs) ≡ length xs → In x xs → p x ≡ true
  counted_all p [] x e m = absurd m
  counted_all p (y ∷ ys) x e m = elim (Bool-cases (p y)) [
    | inl h ↦ elim m [
      | inl here ↦ subst (λ z. p z ≡ true) (sym here) h
      | inr later ↦ counted_all p ys x (ground arith) later
    ]
    | inr h ↦ absurd (ground (arith, length-filter_le p ys))
  ]

  pub count_of_all :
      (p : A → Bool) (xs : List A)
      → ((x : A) → In x xs → p x ≡ true)
      → length (filter p xs) ≡ length xs
  count_of_all p [] all = refl
  count_of_all p (x ∷ xs) all =
      rw (all x (inl refl)) (ap suc (count_of_all p xs (λ y m. all y (inr m))))

  pub length-filter-append :
      (p : A → Bool) (xs ys : List A)
      → length (filter p (xs ++ ys)) ≡ length (filter p xs) + length (filter p ys)
  length-filter-append p [] ys = omega arith
  length-filter-append p (x ∷ xs) ys = ground (arith, length-filter-append p xs ys)

  pub at_most_one : (xs : List A) (x : A) → length (x ∷ xs) ≤ 1 → xs ≡ []
  at_most_one [] x le = refl
  at_most_one (y ∷ ys) x le = absurd (omega arith)

module _ {A B : Type 0} where
  pub length-filter-filter-map :
      (p w : B → Bool) (h : A → B) (xs : List A)
      → length (filter p (filter w (map h xs))) ≡ length (filter (λ x. w (h x) && p (h x)) xs)
  length-filter-filter-map p w h [] = refl
  length-filter-filter-map p w h (x ∷ xs) = ground (arith, length-filter-filter-map p w h xs)

  or_null_one : (x : A) (ys : List B) → length ys ≤ 1 → or_null x ys ≡ (x, head? ys) ∷ []
  or_null_one x [] le = refl
  or_null_one x (y ∷ ys) le = rw (at_most_one ys y le) refl

  -- A join that finds at most one row keeps the rows.
  pub left_join_one :
      (on : A → B → Bool) (ys : List B) (xs : List A)
      → ((x : A) → length (filter (on x) ys) ≤ 1)
      → left_join on ys xs ≡ map (λ x. (x, head? (filter (on x) ys))) xs
  left_join_one on ys [] one = refl
  left_join_one on ys (x ∷ xs) one =
      rw (or_null_one x (filter (on x) ys) (one x), left_join_one on ys xs one) refl

  length-filter-some :
      (p : A × Option B → Bool) (al : Bool) (m : B → Bool) (x : A) (ys : List B)
      → ((y : B) → p (x, some y) ≡ (al && m y))
      → length (filter p (map (λ z. (x, some z)) ys)) ≡ (if al then length (filter m ys) else 0)
  length-filter-some p al m x [] h = ground arith
  length-filter-some p al m x (y ∷ ys) h =
      rw (h y) (ground (arith, length-filter-some p al m x ys h))

  -- The rows of one element, of which those that match nothing do not count.
  pub length-filter-or_null :
      (p : A × Option B → Bool) (al : Bool) (m : B → Bool) (x : A) (ys : List B)
      → p (x, none) ≡ false
      → ((y : B) → p (x, some y) ≡ (al && m y))
      → length (filter p (or_null x ys)) ≡ (if al then length (filter m ys) else 0)
  length-filter-or_null p al m x [] n h = rw n (ground arith)
  length-filter-or_null p al m x (y ∷ ys) n h = length-filter-some p al m x (y ∷ ys) h
