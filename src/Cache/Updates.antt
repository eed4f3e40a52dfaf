-- ===== src/Cache/Updates.antt =====
-- src/cache/memory-cache.service.ts: maps as functions, changed at one key.
use shield_api.Common.{
  ℕ, ◌≡◌, ◌≢◌, refl, sym, ◌∙◌, ◌⊎◌, inl, inr, String, some, eqb, ◌==◌, eq_iff, arith, Bool-cases,
}
use shield_api.Cache.{at_number, at_key}

pub ℕ-cases : (m n : ℕ) → (m ≡ n) ⊎ (m ≢ n)
ℕ-cases m n = elim (Bool-cases (eqb m n)) [
  | inl e ↦ inl (ground arith)
  | inr e ↦ inr λ q. ground arith
]

pub some-some : {m n : ℕ} → some m ≡ some n → m ≡ n
some-some e = cc

module _ {A : Type 0} where
  pub at_number-here : (n m : ℕ) (x : A) (f : ℕ → A) → m ≡ n → at_number n x f m ≡ x
  at_number-here n m x f e = ground arith

  pub at_number-there : (n m : ℕ) (x : A) (f : ℕ → A) → m ≢ n → at_number n x f m ≡ f m
  at_number-there n m x f e = elim (Bool-cases (eqb m n)) [
    | inl q ↦ absurd (e (ground arith))
    | inr q ↦ rw q refl
  ]

  pub at_number-cases :
      (n m : ℕ) (x : A) (f : ℕ → A) {y : A}
      → at_number n x f m ≡ y
      → ((m ≡ n) × (x ≡ y)) ⊎ ((m ≢ n) × (f m ≡ y))
  at_number-cases n m x f e = elim (ℕ-cases m n) [
    | inl q ↦ inl (q, sym (at_number-here n m x f q) ∙ e)
    | inr q ↦ inr (q, sym (at_number-there n m x f q) ∙ e)
  ]

  pub at_key-here : (k j : String) (x : A) (f : String → A) → j ≡ k → at_key k x f j ≡ x
  at_key-here k j x f e = rw ((eq_iff j k).1 e) refl

  pub at_key-there : (k j : String) (x : A) (f : String → A) → j ≢ k → at_key k x f j ≡ f j
  at_key-there k j x f e = elim (Bool-cases (j == k)) [
    | inl q ↦ absurd (e ((eq_iff j k).0 q))
    | inr q ↦ rw q refl
  ]

  pub at_key-cases :
      (k j : String) (x : A) (f : String → A) {y : A}
      → at_key k x f j ≡ y
      → ((j ≡ k) × (x ≡ y)) ⊎ ((j ≢ k) × (f j ≡ y))
  at_key-cases k j x f e = elim (Bool-cases (j == k)) [
    | inl q ↦ let same = (eq_iff j k).0 q in inl (same, sym (at_key-here k j x f same) ∙ e)
    | inr q ↦
        let other = λ (same : j ≡ k). let p = (eq_iff j k).1 same in absurd {A = ⊥} (cc) in
        inr (other, sym (at_key-there k j x f other) ∙ e)
  ]
