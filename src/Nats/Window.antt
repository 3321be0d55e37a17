-- ===== src/Nats/Window.antt =====
-- The windows over the sorted keys that the fetches of internal/adapters/nats/jetstream.go select.
use kafka_simulate_rule.Prelude.{
  inr, sym, ◌-◌, ◌≤◌, inl, leb, ◌*◌, Bool-cases, refl, zero, ap, suc, none, ◌∙◌, arith, ◌+◌,
  get_elem?-lt, some, length, ◌≡◌, get_elem?, ◌%◌, ◌<◌, get_elem?-append_old, ℕ, Option, ◌++◌, List,
}
use native.Mathlib.Nat.{mod-add-mod, mod-eq_of_lt, add-mod_right, mod-mod}
use kafka_simulate_rule.Nats.{found_or, window}

zero_right : (n : ℕ) → n ≡ n + 0
zero_right n = omega arith

plus_suc : (n p : ℕ) → n + suc p ≡ suc (n + p)
plus_suc n p = omega arith

zero_left : (n : ℕ) → n ≡ 0 + n
zero_left n = omega arith

suc_left : (n p : ℕ) → suc n + p ≡ suc (n + p)
suc_left n p = omega arith

shift : (n p : ℕ) → suc n + p ≡ n + suc p
shift n p = omega arith

-- The slots of a number of rounds.
abbrev pub total : ℕ → ℕ → ℕ
total zero count = 0
total (suc r) count = count + total r count

pub total-mul : (r count : ℕ) → total r count ≡ r * count
total-mul zero count = omega arith
total-mul (suc r) count = let ih = total-mul r count in grind (arith, ih)

-- A member of the list, by its position.
abbrev pub IsIn {ℓ} : {A : Type ℓ} → A → List A → Type ℓ
IsIn k xs = (p : ℕ) × (get_elem? xs p ≡ some k)

module _ {ℓ} {A : Type ℓ} (keys : List A) where
  IsIn-append_left : (k : A) (xs ys : List A) → IsIn k xs → IsIn k (xs ++ ys)
  IsIn-append_left k xs ys h = (h.0, get_elem?-append_old xs ys h.0 (get_elem?-lt xs h.0 h.1) ∙ h.1)

  found_or-IsIn : (o : Option A) (k : A) (rest : List A) → o ≡ some k → IsIn k (found_or o rest)
  found_or-IsIn none k rest h = cc h
  found_or-IsIn (some a) k rest h = (0, h)

  found_or-IsIn_rest :
      (o : Option A) (k : A) (rest : List A) → IsIn k rest → IsIn k (found_or o rest)
  found_or-IsIn_rest none k rest h = h
  found_or-IsIn_rest (some a) k rest h = (suc h.0, h.1)

  -- The key at a position that the window reaches.
  pub window-IsIn :
      (start count p : ℕ) (k : A)
      → p < count
      → get_elem? keys ((start + p) % length keys) ≡ some k
      → IsIn k (window keys start count)
  unfolding window
  window-IsIn start zero p k l h = absurd (omega arith)
  window-IsIn start (suc count) zero k l h =
      found_or-IsIn (get_elem? keys (start % length keys)) k (window keys (suc start) count)
        (ap (λ n. get_elem? keys (n % length keys)) (zero_right start) ∙ h)
  window-IsIn start (suc count) (suc p) k l h =
      found_or-IsIn_rest (get_elem? keys (start % length keys)) k (window keys (suc start) count) (
        window-IsIn (suc start) count p k (omega arith)
          (ap (λ n. get_elem? keys (n % length keys)) (shift start p) ∙ h))

  -- A window does not depend on the laps before it.
  pub window-mod :
      (start count : ℕ) (extra : ℕ)
      → window keys (start % length keys + extra) count ≡ window keys (start + extra) count
  unfolding window
  window-mod start zero extra = refl
  window-mod start (suc count) extra =
      (λ i.
        found_or (get_elem? keys (mod-add-mod start (length keys) extra i))
          (window keys (suc (start % length keys + extra)) count))
      ∙ ap (λ l. found_or (get_elem? keys ((start + extra) % length keys)) l)
          (ap (λ n. window keys n count) (sym (plus_suc (start % length keys) extra))
            ∙ window-mod start count (suc extra)
            ∙ ap (λ n. window keys n count) (plus_suc start extra))

  found_or-append : (o : Option A) (xs ys : List A) → found_or o xs ++ ys ≡ found_or o (xs ++ ys)
  found_or-append none xs ys = refl
  found_or-append (some a) xs ys = refl

  pub window-append :
      (start a b : ℕ) → window keys start a ++ window keys (start + a) b ≡ window keys start (a + b)
  unfolding window
  window-append start zero b =
      ap (λ n. window keys n b) (sym (zero_right start)) ∙ ap (window keys start) (zero_left b)
  window-append start (suc a) b =
      found_or-append (get_elem? keys (start % length keys)) (window keys (suc start) a)
        (window keys (start + suc a) b)
      ∙ ap (found_or (get_elem? keys (start % length keys))) (
          ap (λ n. window keys (suc start) a ++ window keys n b) (sym (shift start a))
          ∙ window-append (suc start) a b)
      ∙ ap (window keys start) (sym (suc_left a b))

  back : (start i : ℕ) → start ≤ i → start + (i - start) ≡ i
  back start i h = omega (arith, h)

  lap : (start i : ℕ) → start < length keys → start + (i + length keys - start) ≡ i + length keys
  lap start i h = omega (arith, h)

  -- Where the window meets a position.
  pub reach :
      (start i : ℕ)
      → start < length keys
      → i < length keys
      → (p : ℕ) × (p < length keys) × ((start + p) % length keys ≡ i)
  reach start i s l = elim (Bool-cases (leb start i)) [
    | inl e ↦
        let before : start ≤ i = ground (arith, e) in
        (
          i - start,
          omega (arith, l),
          ap (λ n. n % length keys) (back start i before) ∙ mod-eq_of_lt l,
        )
    | inr e ↦
        let beyond : i < start = ground (arith, e) in
        (
          i + length keys - start,
          omega (arith, beyond, s),
          ap (λ n. n % length keys) (lap start i s)
              ∙ add-mod_right i (length keys)
              ∙ mod-eq_of_lt l,
        )
  ]

-- The cursor that is kept is the place where the window ends.
pub next :
    {A : Type 0}
    → (keys : List A) (x count rest : ℕ)
    → window keys ((x % length keys + count) % length keys % length keys) rest
      ≡ window keys (x % length keys + count) rest
next keys x count rest =
    ap (λ n. window keys n rest)
      (mod-mod (x % length keys + count) (length keys)
        ∙ zero_right ((x % length keys + count) % length keys))
    ∙ window-mod keys (x % length keys + count) rest 0
    ∙ ap (λ n. window keys n rest) (sym (zero_right (x % length keys + count)))
