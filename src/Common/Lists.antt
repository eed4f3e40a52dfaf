-- ===== src/Common/Lists.antt =====
-- JavaScript's array and `Set` operations on lists, with Boolean tests.
use Prim.Native.Nat.{ℕ, zero, suc}
use Prim.Native.String.{String}
use mathlib.Core.Path.{◌≡◌, refl, sym, ap, subst}
use mathlib.Core.Logic.{◌⊎◌, inl, inr, ◌↔◌}
use mathlib.Core.Bool.{Bool, true, false, ◌&&◌, ◌||◌}
use mathlib.Core.Option.{Option, none, some}
use mathlib.Core.List.{List, [], ◌∷◌, ◌++◌, map}
use native.Mathlib.Omega.{arith}
use text.Mathlib.Text.{◌==◌}
use text.Mathlib.TextEquality.{eq_iff}
use shield_api.Common.Tests.{if◌then◌else◌, Bool-cases}

module _ {ℓ} {A : Type ℓ} where
  abbrev pub length : List A → ℕ
  length [] = 0
  length (x ∷ xs) = suc (length xs)

  -- `xs.filter(p)`
  abbrev pub filter : (A → Bool) → List A → List A
  filter p [] = []
  filter p (x ∷ xs) = if p x then x ∷ filter p xs else filter p xs

  -- `xs.some(p)`
  abbrev pub any : (A → Bool) → List A → Bool
  any p [] = false
  any p (x ∷ xs) = p x || any p xs

  -- `xs.every(p)`
  abbrev pub all : (A → Bool) → List A → Bool
  all p [] = true
  all p (x ∷ xs) = p x && all p xs

  -- `xs.find(p)`, and `xs.filter(p).at(0)`
  abbrev pub find : (A → Bool) → List A → Option A
  find p [] = none
  find p (x ∷ xs) = if p x then some x else find p xs

  -- `xs[0]`
  abbrev pub head? : List A → Option A
  head? [] = none
  head? (x ∷ xs) = some x

  -- `xs.slice(0, n)`
  abbrev pub take : ℕ → List A → List A
  take zero xs = []
  take (suc n) [] = []
  take (suc n) (x ∷ xs) = x ∷ take n xs

-- `xs.flatMap(f)`
abbrev pub flat_map {ℓ κ} : {A : Type ℓ} {B : Type κ} → (A → List B) → List A → List B
flat_map f [] = []
flat_map f (x ∷ xs) = f x ++ flat_map f xs

-- `x` is one of the list's elements.
abbrev pub In : {A : Type 0} → A → List A → Type 0
In x [] = ⊥
In x (y ∷ ys) = (x ≡ y) ⊎ In x ys

module _ {ℓ κ} {A : Type ℓ} where
  abbrev pub All : (A → Type κ) → List A → Type κ
  All P [] = Unit
  All P (x ∷ xs) = P x × All P xs

-- `xs.includes(x)`, and `Set.has`
abbrev pub includes : List String → String → Bool
includes xs x = any (λ y. y == x) xs

-- `set.add(x)` on the list of a `Set`'s elements in insertion order
abbrev pub set_add : List String → String → List String
set_add s x = if includes s x then s else s ++ x ∷ []

abbrev pub set_add_all : List String → List String → List String
set_add_all s [] = s
set_add_all s (x ∷ xs) = set_add_all (set_add s x) xs

-- `Array.from(new Set(xs))`
abbrev pub distinct : List String → List String
distinct xs = set_add_all [] xs

pub includes-append :
    (xs ys : List String) (c : String) → includes (xs ++ ys) c ≡ (includes xs c || includes ys c)
includes-append [] ys c = refl
includes-append (x ∷ xs) ys c = ground (arith, includes-append xs ys c)

pub includes-set_add :
    (s : List String) (x c : String) → includes (set_add s x) c ≡ (includes s c || x == c)
includes-set_add s x c =
    ground (arith, includes-append s (x ∷ []) c, eq_iff x c, Bool-cases (includes s x))

pub includes-set_add_all :
    (s xs : List String) (c : String)
    → includes (set_add_all s xs) c ≡ (includes s c || includes xs c)
includes-set_add_all s [] c = ground arith
includes-set_add_all s (x ∷ xs) c =
    ground (arith, includes-set_add s x c, includes-set_add_all (set_add s x) xs c)

module _ {A : Type 0} (x : A) where
  pub In-append_left : (xs ys : List A) → In x xs → In x (xs ++ ys)
  In-append_left (y ∷ xs) ys (inl e) = inl e
  In-append_left (y ∷ xs) ys (inr m) = inr (In-append_left xs ys m)
  In-append_left [] ys m = elim m [ ]

  pub In-of_append : (xs ys : List A) → In x (xs ++ ys) → In x xs ⊎ In x ys
  In-of_append [] ys m = inr m
  In-of_append (y ∷ xs) ys (inl e) = inl (inl e)
  In-of_append (y ∷ xs) ys (inr m) = elim (In-of_append xs ys m) [
    | inl here ↦ inl (inr here)
    | inr later ↦ inr later
  ]

  pub In-append_right : (xs ys : List A) → In x ys → In x (xs ++ ys)
  In-append_right [] ys m = m
  In-append_right (y ∷ xs) ys m = inr (In-append_right xs ys m)

module _ {A B : Type 0} where
  pub In-map : (f : A → B) (x : A) (xs : List A) → In x xs → In (f x) (map f xs)
  In-map f x [] m = elim m [ ]
  In-map f x (y ∷ xs) (inl e) = inl (ap f e)
  In-map f x (y ∷ xs) (inr m) = inr (In-map f x xs m)

  pub In-flat_map :
      (f : A → List B) (x : A) (y : B) (xs : List A) → In x xs → In y (f x) → In y (flat_map f xs)
  In-flat_map f x y [] m h = elim m [ ]
  In-flat_map f x y (z ∷ xs) (inl e) h =
      In-append_left y (f z) (flat_map f xs) (subst (λ w. In y (f w)) e h)
  In-flat_map f x y (z ∷ xs) (inr m) h =
      In-append_right y (f z) (flat_map f xs) (In-flat_map f x y xs m h)

module _ {A : Type 0} (p : A → Bool) (x : A) where
  pub In-of_filter : (xs : List A) → In x (filter p xs) → In x xs × (p x ≡ true)
  In-of_filter [] m = elim m [ ]
  In-of_filter (y ∷ xs) m = ground (arith, In-of_filter xs)

  pub In-to_filter : (xs : List A) → In x xs → p x ≡ true → In x (filter p xs)
  In-to_filter [] m h = elim m [ ]
  In-to_filter (y ∷ xs) m h = ground (arith, In-to_filter xs)

  pub In-filter : (xs : List A) → In x (filter p xs) ↔ (In x xs × (p x ≡ true))
  In-filter xs = (In-of_filter xs, λ h. In-to_filter xs h.0 h.1)

pub In-of_includes : (xs : List String) (c : String) → includes xs c ≡ true → In c xs
In-of_includes [] c h = cc
In-of_includes (x ∷ xs) c h = ground (arith, eq_iff x c, In-of_includes xs c)

pub includes_of_In : (xs : List String) (c : String) → In c xs → includes xs c ≡ true
includes_of_In [] c h = elim h [ ]
includes_of_In (x ∷ xs) c h = ground (arith, eq_iff x c, includes_of_In xs c)

module _ {A : Type 0} (p : A → Bool) where
  pub find_sound : (xs : List A) (y : A) → find p xs ≡ some y → In y xs × (p y ≡ true)
  find_sound [] y e = cc
  find_sound (x ∷ xs) y e = ground (arith, find_sound xs y)

  pub find-none : (xs : List A) (x : A) → find p xs ≡ none → In x xs → p x ≡ false
  find-none [] x e m = elim m [ ]
  find-none (y ∷ xs) x e m = ground (arith, find-none xs x)

  pub find_complete :
      (x : A) (xs : List A)
      → In x xs
      → p x ≡ true
      → (y : A) × (find p xs ≡ some y) × In y xs × (p y ≡ true)
  find_complete x [] m h = elim m [ ]
  find_complete x (y ∷ xs) m h = elim (Bool-cases (p y)) [
    | inl e ↦ (y, rw e, inl refl, e)
    | inr e ↦ let (z, f, i, q) = find_complete x xs (ground arith) h in (z, rw e f, inr i, q)
  ]

pub All-In : {A : Type 0} (P : A → Type 0) (xs : List A) (x : A) → All P xs → In x xs → P x
All-In P [] x h m = elim m [ ]
All-In P (y ∷ xs) x h (inl e) = subst P (sym e) h.0
All-In P (y ∷ xs) x h (inr m) = All-In P xs x h.1 m

pub In-of_map :
    {A B : Type 0} (f : A → B) (y : B) (xs : List A)
    → In y (map f xs)
    → (x : A) × In x xs × (y ≡ f x)
In-of_map f y [] m = elim m [ ]
In-of_map f y (x ∷ xs) (inl e) = (x, inl refl, e)
In-of_map f y (x ∷ xs) (inr m) = let (z, i, e) = In-of_map f y xs m in (z, inr i, e)
