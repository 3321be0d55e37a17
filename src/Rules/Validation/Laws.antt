-- ===== src/Rules/Validation/Laws.antt =====
-- What `validatePredicate` of internal/rules/compiler.go ensures of a predicate.
use kafka_simulate_rule.Prelude.{
  ◌+◌, suc, true, refl, Option, ℕ, ◌≤◌, ◌≡◌, String, arith, none, some,
}
use Prim.Native.Nat.{max}
use kafka_simulate_rule.Domain.Rule.{
  done, pointer, valid_op, next, Pointers, nil_pointer, Pointer, nil_slice, slice, Slice, predicate,
  Predicate, Operator,
}
use kafka_simulate_rule.Domain.Errors.{GoError}
use kafka_simulate_rule.Rules.Validation.{
  validate_negated, validate_slice, validate_each, validate_predicate, has_composite, check_form,
  or_else,
}
use kafka_simulate_rule.Rules.Predicate.Errors.{AllSound, IsSound}

-- How deep composites are nested: 0 for a leaf.
mutual
  pub nesting : Predicate → ℕ
  nesting (predicate all any negated path op v) =
      max (nesting_slice all) (max (nesting_slice any) (nesting_pointer negated))

  pub nesting_slice : Slice → ℕ
  nesting_slice nil_slice = 0
  nesting_slice (slice ps) = nesting_each ps

  pub nesting_each : Pointers → ℕ
  nesting_each done = 0
  nesting_each (next p ps) = max (nesting_pointer p) (nesting_each ps)

  pub nesting_pointer : Pointer → ℕ
  nesting_pointer nil_pointer = 0
  nesting_pointer (pointer p) = suc (nesting p)

or_else-none : (a b : Option GoError) → or_else a b ≡ none → (a ≡ none) × (b ≡ none)
or_else-none none b h = (refl, h)
or_else-none (some e) b h = cc

module _ (m d : ℕ) (path : String) (op : Operator) where
  -- The result of the whole check, from that of the children.
  abbrev outcome : Slice → Slice → Pointer → Option GoError → Option GoError
  outcome all any negated children = elim (check_form m d all any negated path op) [
    | some r ↦ r
    | none ↦ children
  ]

  composite-children :
      (all any : Slice) (negated : Pointer) (children : Option GoError)
      → has_composite all any negated ≡ true
      → outcome all any negated children ≡ none
      → children ≡ none
  composite-children all any negated children c h = ground arith

  leaf-valid :
      (children : Option GoError)
      → outcome nil_slice nil_slice nil_pointer children ≡ none
      → valid_op op ≡ true
  leaf-valid children h = ground arith

  form-depth :
      (all any : Slice) (negated : Pointer) (children : Option GoError)
      → outcome all any negated children ≡ none
      → d ≤ m
  form-depth all any negated children h = ground arith

abbrev SliceSound : Slice → Type 0
SliceSound nil_slice = Unit
SliceSound (slice ps) = AllSound ps

abbrev PointerSound : Pointer → Type 0
PointerSound nil_pointer = Unit
PointerSound (pointer p) = IsSound p

-- The three parts of a predicate, when the check of its children passes.
parts-none :
    (a b c : Option GoError) → or_else a (or_else b c) ≡ none → (a ≡ none) × (b ≡ none) × (c ≡ none)
parts-none a b c h = ground arith

mutual
  unfolding validate_predicate nesting

  predicate-IsSound :
      (m d : ℕ) (p : Predicate) → validate_predicate m d p ≡ none → IsSound p × (d + nesting p ≤ m)
  predicate-IsSound m d (predicate (slice ps) any n path op v) h =
      let inside = composite-children m d path op (slice ps) any n _ refl h in
      let (e, f, g) =
        parts-none (validate_each m d ps) (validate_slice m d any) (validate_negated m d n)
          inside in
      let fits = form-depth m d path op (slice ps) any n _ h in
      let (sound, deep) = each-IsSound m d ps e fits in
      let (sound_any, deep_any) = slice-IsSound m d any f fits in
      let (sound_n, deep_n) = negated-IsSound m d n g fits in (sound, omega arith)
  predicate-IsSound m d (predicate nil_slice (slice ps) n path op v) h =
      let inside = composite-children m d path op nil_slice (slice ps) n _ refl h in
      let (e, f, g) = parts-none none (validate_each m d ps) (validate_negated m d n) inside in
      let fits = form-depth m d path op nil_slice (slice ps) n _ h in
      let (sound, deep) = each-IsSound m d ps f fits in
      let (sound_n, deep_n) = negated-IsSound m d n g fits in (sound, omega arith)
  predicate-IsSound m d (predicate nil_slice nil_slice (pointer p) path op v) h =
      let inside = composite-children m d path op nil_slice nil_slice (pointer p) _ refl h in
      let fits = form-depth m d path op nil_slice nil_slice (pointer p) _ h in
      let (sound, deep) = negated-IsSound m d (pointer p) inside fits in (sound, omega arith)
  predicate-IsSound m d (predicate nil_slice nil_slice nil_pointer path op v) h =
      let fits = form-depth m d path op nil_slice nil_slice nil_pointer _ h in
      (leaf-valid m d path op _ h, omega arith)

  slice-IsSound :
      (m d : ℕ) (s : Slice)
      → validate_slice m d s ≡ none
      → d ≤ m
      → SliceSound s × (d + nesting_slice s ≤ m)
  slice-IsSound m d nil_slice h fits = (tt, omega arith)
  slice-IsSound m d (slice ps) h fits = each-IsSound m d ps h fits

  each-IsSound :
      (m d : ℕ) (ps : Pointers)
      → validate_each m d ps ≡ none
      → d ≤ m
      → AllSound ps × (d + nesting_each ps ≤ m)
  each-IsSound m d done h fits = (tt, omega arith)
  each-IsSound m d (next nil_pointer ps) h fits = cc
  each-IsSound m d (next (pointer p) ps) h fits =
      let (e, f) = or_else-none (validate_predicate m (suc d) p) (validate_each m d ps) h in
      let (sound, deep) = predicate-IsSound m (suc d) p e in
      let (sounds, deeps) = each-IsSound m d ps f fits in ((sound, sounds), omega arith)

  negated-IsSound :
      (m d : ℕ) (n : Pointer)
      → validate_negated m d n ≡ none
      → d ≤ m
      → PointerSound n × (d + nesting_pointer n ≤ m)
  negated-IsSound m d nil_pointer h fits = (tt, omega arith)
  negated-IsSound m d (pointer p) h fits =
      let (sound, deep) = predicate-IsSound m (suc d) p h in (sound, omega arith)

-- A predicate that `validatePredicate` accepts has no nil operand, a known operator at each leaf, and
-- no more than the allowed nesting.
pub validate_predicate-IsSound :
    (m : ℕ) (p : Predicate) → validate_predicate m 0 p ≡ none → IsSound p × (nesting p ≤ m)
validate_predicate-IsSound m p h = let (s, n) = predicate-IsSound m 0 p h in (s, omega arith)
