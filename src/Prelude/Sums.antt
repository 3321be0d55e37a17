-- ===== src/Prelude/Sums.antt =====
-- Sums over a list, and what a list holds after a write or an append.
use Prim.Native.Nat.{ℕ, zero, suc, ◌+◌, ◌≤◌, ◌<◌}
use mathlib.Core.Path.{◌≡◌, refl, sym, ap, ◌∙◌, subst}
use mathlib.Core.Logic.{◌≢◌, ◌⊎◌, inl, inr}
use mathlib.Core.Option.{some}
use mathlib.Core.List.{List, [], ◌∷◌, ◌++◌}
use native.Mathlib.Omega.{arith}
use native.Mathlib.Decide.{ℕ_discrete}
use kafka_simulate_rule.Prelude.Lists.{
  length, get_elem?, set, length-set, get_elem?-set_self, get_elem?-set_ne,
}

module _ {ℓ} {A : Type ℓ} where
  abbrev pub sum_of : (A → ℕ) → List A → ℕ
  sum_of f [] = 0
  sum_of f (x ∷ xs) = f x + sum_of f xs

  pub sum_of-append : (f : A → ℕ) (xs ys : List A) → sum_of f (xs ++ ys) ≡ sum_of f xs + sum_of f ys
  sum_of-append f [] ys = omega arith
  sum_of-append f (x ∷ xs) ys = omega (arith, sum_of-append f xs ys)

  pub sum_of-set :
      (f : A → ℕ) (xs : List A) (i : ℕ) {a : A} (b : A)
      → get_elem? xs i ≡ some a
      → sum_of f (set xs i b) + f a ≡ sum_of f xs + f b
  sum_of-set f [] i b h = cc h
  sum_of-set f (x ∷ xs) zero {a = a} b h = let same : f x ≡ f a = cc in omega (arith, same)
  sum_of-set f (x ∷ xs) (suc i) b h = omega (arith, sum_of-set f xs i b h)

  -- A member counts in the sum.
  pub sum_of-ge :
      (f : A → ℕ) (xs : List A) (i : ℕ) {a : A} → get_elem? xs i ≡ some a → f a ≤ sum_of f xs
  sum_of-ge f [] i h = cc h
  sum_of-ge f (x ∷ xs) zero {a = a} h = let same : f x ≡ f a = cc in omega (arith, same)
  sum_of-ge f (x ∷ xs) (suc i) h = omega (arith, sum_of-ge f xs i h)

  pub sum_of-le : (f g : A → ℕ) (xs : List A) → ((a : A) → f a ≤ g a) → sum_of f xs ≤ sum_of g xs
  sum_of-le f g [] h = omega arith
  sum_of-le f g (x ∷ xs) h = omega (arith, h x, sum_of-le f g xs h)

  pub get_elem?-lt : (xs : List A) (i : ℕ) {a : A} → get_elem? xs i ≡ some a → i < length xs
  get_elem?-lt [] i h = cc h
  get_elem?-lt (x ∷ xs) zero h = omega arith
  get_elem?-lt (x ∷ xs) (suc i) h = omega (arith, get_elem?-lt xs i h)

  pub get_elem?-append_old :
      (xs ys : List A) (i : ℕ) → i < length xs → get_elem? (xs ++ ys) i ≡ get_elem? xs i
  get_elem?-append_old [] ys i h = absurd (omega arith)
  get_elem?-append_old (x ∷ xs) ys zero h = refl
  get_elem?-append_old (x ∷ xs) ys (suc i) h = get_elem?-append_old xs ys i (omega arith)

  -- What a list holds after a write.
  pub get_elem?-set_cases :
      (xs : List A) (i j : ℕ) (v : A) {a : A}
      → get_elem? (set xs i v) j ≡ some a
      → ((i ≡ j) × (v ≡ a)) ⊎ ((i ≢ j) × (get_elem? xs j ≡ some a))
  get_elem?-set_cases xs i j v {a = a} h = elim (ℕ_discrete i j) [
    | yes e ↦
        let bound : j < length (set xs i v) = get_elem?-lt (set xs i v) j h in
        let here : get_elem? (set xs i v) i ≡ some v =
          get_elem?-set_self xs i v (omega (arith, bound, length-set xs i v, e)) in
        let there : get_elem? (set xs i v) i ≡ some a =
          subst (λ k. get_elem? (set xs i v) k ≡ some a) (sym e) h in
        let same : some v ≡ some a = sym here ∙ there in inl (e, cc same)
    | no ne ↦ inr (ne, sym (get_elem?-set_ne xs v ne) ∙ h)
  ]

  -- What a list holds after an append.
  pub get_elem?-append_cases :
      (xs : List A) (v : A) (j : ℕ) {a : A}
      → get_elem? (xs ++ v ∷ []) j ≡ some a
      → (get_elem? xs j ≡ some a) ⊎ ((j ≡ length xs) × (v ≡ a))
  get_elem?-append_cases [] v zero h = inr (refl, cc h)
  get_elem?-append_cases [] v (suc j) h = cc h
  get_elem?-append_cases (x ∷ xs) v zero h = inl h
  get_elem?-append_cases (x ∷ xs) v (suc j) h = elim (get_elem?-append_cases xs v j h) [
    | inl e ↦ inl e
    | inr e ↦ inr (ap suc e.0, e.1)
  ]
