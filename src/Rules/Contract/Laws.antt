-- ===== src/Rules/Contract/Laws.antt =====
-- What the check of a rule set against a contract (internal/rules/compiler.go) ensures.
use kafka_simulate_rule.Domain.Values.{Runtime}
use kafka_simulate_rule.Rules.Contract.{
  validate_paths_against_contract, trim_root, validate_path, has_field, validate_pointer_paths,
  validate_each_path, validate_slice_paths, validate_predicate_paths, ContractSchema,
}
use kafka_simulate_rule.Domain.Rule.{
  nil_pointer, done, nil_slice, pointer, Pointer, CompiledRule, next, Pointers, slice, Slice,
  predicate, Predicate,
}
use kafka_simulate_rule.Prelude.{
  inr, eq_iff, ◌↔◌, arith, ◌<>◌, some, sym, inl, refl, All, Bool-cases, ◌∙◌, true, ap, none, [],
  ◌⊎◌, ◌∷◌, Option, ◌≡◌, ◌++◌, List, String,
}
use kafka_simulate_rule.Rules.Validation.{or_else}
use kafka_simulate_rule.Domain.Errors.{GoError}
use kafka_simulate_rule.Domain.Result.{wrapped}
use kafka_simulate_rule.Domain.Event.{is_empty}
use kafka_simulate_rule.Domain.Result.Inversion.{wrapped-eq-none}

-- Every path of a predicate, at any depth.
mutual
  pub paths_of : Predicate → List String
  paths_of (predicate all any negated path op v) =
      paths_of_slice all ++ (paths_of_slice any ++ (paths_of_pointer negated ++ path ∷ []))

  pub paths_of_slice : Slice → List String
  paths_of_slice nil_slice = []
  paths_of_slice (slice ps) = paths_of_each ps

  pub paths_of_each : Pointers → List String
  paths_of_each done = []
  paths_of_each (next p ps) = paths_of_pointer p ++ paths_of_each ps

  pub paths_of_pointer : Pointer → List String
  paths_of_pointer nil_pointer = []
  paths_of_pointer (pointer p) = paths_of p

-- Empty, or a field of the contract below the root.
pub IsKnown : ContractSchema → String → Type 0
IsKnown schema path = (path ≡ "") ⊎ (has_field (trim_root path) schema.fields ≡ true)

or_else_assoc : (a b c : Option GoError) → or_else a (or_else b c) ≡ or_else (or_else a b) c
or_else_assoc none b c = refl
or_else_assoc (some e) b c = refl

or_else-none : (a : Option GoError) → a ≡ or_else a none
or_else-none none = refl
or_else-none (some e) = refl

or_else-eq-none : (a b : Option GoError) → or_else a b ≡ none → (a ≡ none) × (b ≡ none)
or_else-eq-none none b h = (refl, h)
or_else-eq-none (some e) b h = cc h

none-or_else : (a b : Option GoError) → a ≡ none → b ≡ none → or_else a b ≡ none
none-or_else none b h k = k
none-or_else (some e) b h k = cc h

none-wrapped : (text : String) (e : Option GoError) → e ≡ none → wrapped text e ≡ none
none-wrapped text none h = refl
none-wrapped text (some e) h = cc h

module _ (go : Runtime) (schema : ContractSchema) where
  -- The first error of a list of paths.
  first_error : List String → Option GoError
  first_error [] = none
  first_error (path ∷ paths) = or_else (validate_path go schema path) (first_error paths)

  first_error-append :
      (xs ys : List String) → first_error (xs ++ ys) ≡ or_else (first_error xs) (first_error ys)
  unfolding first_error
  first_error-append [] ys = refl
  first_error-append (x ∷ xs) ys =
      ap (or_else (validate_path go schema x)) (first_error-append xs ys)
      ∙ or_else_assoc (validate_path go schema x) (first_error xs) (first_error ys)

  mutual
    unfolding validate_predicate_paths validate_slice_paths validate_each_path
        validate_pointer_paths paths_of paths_of_slice paths_of_each paths_of_pointer first_error

    predicate_paths-first_error :
        (p : Predicate) → validate_predicate_paths go schema p ≡ first_error (paths_of p)
    predicate_paths-first_error (predicate all any negated path op v) =
        (λ i. or_else (slice_paths-first_error all i) (
          or_else (slice_paths-first_error any i) (
            or_else (pointer_paths-first_error negated i)
              (or_else-none (validate_path go schema path) i))))
        ∙ ap
            (λ o.
              or_else (first_error (paths_of_slice all))
                (or_else (first_error (paths_of_slice any)) o))
            (sym (first_error-append (paths_of_pointer negated) (path ∷ [])))
        ∙ ap (or_else (first_error (paths_of_slice all)))
            (sym (first_error-append (paths_of_slice any) (paths_of_pointer negated ++ path ∷ [])))
        ∙ sym (
            first_error-append (paths_of_slice all)
              (paths_of_slice any ++ (paths_of_pointer negated ++ path ∷ [])))

    slice_paths-first_error :
        (s : Slice) → validate_slice_paths go schema s ≡ first_error (paths_of_slice s)
    slice_paths-first_error nil_slice = refl
    slice_paths-first_error (slice ps) = each_path-first_error ps

    each_path-first_error :
        (ps : Pointers) → validate_each_path go schema ps ≡ first_error (paths_of_each ps)
    each_path-first_error done = refl
    each_path-first_error (next p ps) =
        (λ i. or_else (pointer_paths-first_error p i) (each_path-first_error ps i))
        ∙ sym (first_error-append (paths_of_pointer p) (paths_of_each ps))

    pointer_paths-first_error :
        (p : Pointer) → validate_pointer_paths go schema p ≡ first_error (paths_of_pointer p)
    pointer_paths-first_error nil_pointer = refl
    pointer_paths-first_error (pointer p) = predicate_paths-first_error p

  validate_path-IsKnown :
      (path : String) → validate_path go schema path ≡ none → IsKnown schema path
  unfolding validate_path IsKnown
  validate_path-IsKnown path h = elim (Bool-cases (is_empty path)) [
    | inl e ↦ inl (ground (arith, e, eq_iff path ""))
    | inr e ↦ elim (Bool-cases (has_field (trim_root path) schema.fields)) [
      | inl f ↦ inr f
      | inr f ↦ absurd (ground (arith, e, f, h))
    ]
  ]

  IsKnown-validate_path :
      (path : String) → IsKnown schema path → validate_path go schema path ≡ none
  unfolding validate_path IsKnown
  IsKnown-validate_path path k = elim k [
    | inl e ↦ ground (arith, e, eq_iff path "")
    | inr f ↦ elim (Bool-cases (is_empty path)) [ inl e ↦ rw e refl | inr e ↦ rw e (rw f refl) ]
  ]

  first_error-All : (paths : List String) → first_error paths ≡ none → All (IsKnown schema) paths
  unfolding first_error
  first_error-All [] h = tt
  first_error-All (path ∷ paths) h =
      let both = or_else-eq-none (validate_path go schema path) (first_error paths) h in
      (validate_path-IsKnown path both.0, first_error-All paths both.1)

  All-first_error : (paths : List String) → All (IsKnown schema) paths → first_error paths ≡ none
  unfolding first_error
  All-first_error [] k = refl
  All-first_error (path ∷ paths) k =
      none-or_else (validate_path go schema path) (first_error paths)
        (IsKnown-validate_path path k.0) (All-first_error paths k.1)

  abbrev pub AllKnown : List CompiledRule → Type 0
  AllKnown rules =
      All (λ (rule : CompiledRule). All (IsKnown schema) (paths_of rule.condition)) rules

  rules-AllKnown :
      (rules : List CompiledRule)
      → validate_paths_against_contract go schema rules ≡ none
      → AllKnown rules
  unfolding validate_paths_against_contract
  rules-AllKnown [] h = tt
  rules-AllKnown (rule ∷ rules) h =
      let both =
        or_else-eq-none
          (wrapped ("rule " <> (rule.id <> ": "))
            (validate_predicate_paths go schema rule.condition))
          (validate_paths_against_contract go schema rules) h in
      let here =
        wrapped-eq-none ("rule " <> (rule.id <> ": "))
          (validate_predicate_paths go schema rule.condition) both.0 in
      (
        first_error-All (paths_of rule.condition)
            (sym (predicate_paths-first_error rule.condition) ∙ here),
        rules-AllKnown rules both.1,
      )

  AllKnown-rules :
      (rules : List CompiledRule)
      → AllKnown rules
      → validate_paths_against_contract go schema rules ≡ none
  unfolding validate_paths_against_contract
  AllKnown-rules [] k = refl
  AllKnown-rules (rule ∷ rules) k =
      let here : validate_predicate_paths go schema rule.condition ≡ none =
        predicate_paths-first_error rule.condition
        ∙ All-first_error (paths_of rule.condition) k.0 in
      none-or_else
        (wrapped ("rule " <> (rule.id <> ": ")) (validate_predicate_paths go schema rule.condition))
        (validate_paths_against_contract go schema rules)
        (none-wrapped ("rule " <> (rule.id <> ": "))
          (validate_predicate_paths go schema rule.condition) here)
        (AllKnown-rules rules k.1)

-- The check of a rule set against a contract passes exactly if every path of every rule, at any depth of its
-- condition and under nil operands none, is empty or names, without its root, a field of the contract.
pub validate_paths_against_contract-AllKnown :
    (go : Runtime) (schema : ContractSchema) (rules : List CompiledRule)
    → (validate_paths_against_contract go schema rules ≡ none) ↔ AllKnown go schema rules
validate_paths_against_contract-AllKnown go schema rules =
    (rules-AllKnown go schema rules, AllKnown-rules go schema rules)
