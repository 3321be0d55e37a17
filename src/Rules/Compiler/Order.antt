-- ===== src/Rules/Compiler/Order.antt =====
-- The order of the compiled rules (internal/rules/compiler.go).
use mathlib.Core.List.Perm
use kafka_simulate_rule.Prelude.{
  refl, ◌∙◌, ap, subst, none, eq_iff, true, inr, All-imp, inl, false, ltb_ℤ, sym, Bool-cases, ℤ,
  ◌<ℤ◌, ◌≡◌, ◌≢◌, List, [], ◌∷◌, String, arith, All, AllPairs, Perm, map,
}
use kafka_simulate_rule.Domain.Result.{ok}
use kafka_simulate_rule.Domain.Rule.{CompiledRule}
use kafka_simulate_rule.Rules.Compiler.{
  validate_rule_actions, compiled_of, compile_each, compile_rule, has_priority, RawRule, has_id,
  validate_rule_identity, Seen, same_ℤ, insert_rule, sort_rules,
}
use kafka_simulate_rule.Rules.Validation.{Limits}
use kafka_simulate_rule.Domain.Values.{Runtime}
use kafka_simulate_rule.Domain.Result.Inversion.{ok-injective, check-eq-ok, >>=-eq-ok}

-- Two rules with other names and other priorities.
pub record Apart (x y : CompiledRule) : Type 0 where
  pub names : x.id ≢ y.id
  pub priorities : same_ℤ x.priority y.priority ≡ false

Apart-symm : (x y : CompiledRule) → Apart x y → Apart y x
Apart-symm x y h = record {
  names = λ e. h.names (sym e);
  priorities = ground (arith, h.priorities);
}

insert_rule-All {ℓ} :
    (P : CompiledRule → Type ℓ) (r : CompiledRule) (xs : List CompiledRule)
    → P r
    → All P xs
    → All P (insert_rule r xs)
unfolding insert_rule
insert_rule-All P r [] h k = (h, tt)
insert_rule-All P r (x ∷ xs) h k = elim (Bool-cases (ltb_ℤ x.priority r.priority)) [
  | inl e ↦ rw e (h, k)
  | inr e ↦ rw e (k.0, insert_rule-All P r xs h k.1)
]

pub sort_rules-All {ℓ} :
    (P : CompiledRule → Type ℓ) (xs : List CompiledRule) → All P xs → All P (sort_rules xs)
unfolding sort_rules
sort_rules-All P [] h = tt
sort_rules-All P (x ∷ xs) h = insert_rule-All P x (sort_rules xs) h.0 (sort_rules-All P xs h.1)

insert_rule-perm : (r : CompiledRule) (xs : List CompiledRule) → Perm (insert_rule r xs) (r ∷ xs)
unfolding insert_rule
insert_rule-perm r [] = Perm.refl (r ∷ [])
insert_rule-perm r (x ∷ xs) = elim (Bool-cases (ltb_ℤ x.priority r.priority)) [
  | inl e ↦ rw e (Perm.refl (r ∷ x ∷ xs))
  | inr e ↦ rw e (Perm.trans (Perm.cons x (insert_rule-perm r xs)) (Perm.swap r x xs))
]

pub sort_rules-perm : (xs : List CompiledRule) → Perm (sort_rules xs) xs
unfolding sort_rules
sort_rules-perm [] = Perm.refl []
sort_rules-perm (x ∷ xs) =
    Perm.trans (insert_rule-perm x (sort_rules xs)) (Perm.cons x (sort_rules-perm xs))

-- Falling priorities.
abbrev pub IsDescending : List CompiledRule → Type 0
IsDescending = AllPairs (λ x y. y.priority <ℤ x.priority)

ltb_ℤ→lt : (a b : ℤ) → ltb_ℤ a b ≡ true → a <ℤ b
ltb_ℤ→lt a b h = ground arith

later_of :
    (r x : CompiledRule)
    → Apart r x
    → ltb_ℤ x.priority r.priority ≡ false
    → r.priority <ℤ x.priority
later_of r x a e = ground (arith, a.priorities)

insert_rule-IsDescending :
    (r : CompiledRule) (xs : List CompiledRule)
    → All (Apart r) xs
    → IsDescending xs
    → IsDescending (insert_rule r xs)
unfolding insert_rule
insert_rule-IsDescending r [] a d = (tt, tt)
insert_rule-IsDescending r (x ∷ xs) a d = elim (Bool-cases (ltb_ℤ x.priority r.priority)) [
  | inl e ↦ rw e (
    (
      (ltb_ℤ→lt x.priority r.priority e),
      All-imp xs (λ y h. omega (arith, ltb_ℤ→lt x.priority r.priority e)) d.0,
    ),
    d,
  )
  | inr e ↦ rw e (
    insert_rule-All (λ y. y.priority <ℤ x.priority) r xs (later_of r x a.0 e) d.0,
    insert_rule-IsDescending r xs a.1 d.1,
  )
]

pub sort_rules-IsDescending :
    (xs : List CompiledRule) → AllPairs Apart xs → IsDescending (sort_rules xs)
unfolding sort_rules
sort_rules-IsDescending [] a = tt
sort_rules-IsDescending (x ∷ xs) a =
    insert_rule-IsDescending x (sort_rules xs) (sort_rules-All (Apart x) xs a.0)
      (sort_rules-IsDescending xs a.1)

insert_rule-Apart :
    (r : CompiledRule) (xs : List CompiledRule)
    → All (Apart r) xs
    → AllPairs Apart xs
    → AllPairs Apart (insert_rule r xs)
unfolding insert_rule
insert_rule-Apart r [] a p = (tt, tt)
insert_rule-Apart r (x ∷ xs) a p = elim (Bool-cases (ltb_ℤ x.priority r.priority)) [
  | inl e ↦ rw e (a, p)
  | inr e ↦
      rw e (insert_rule-All (Apart x) r xs (Apart-symm r x a.0) p.0, insert_rule-Apart r xs a.1 p.1)
]

pub sort_rules-Apart : (xs : List CompiledRule) → AllPairs Apart xs → AllPairs Apart (sort_rules xs)
unfolding sort_rules
sort_rules-Apart [] a = tt
sort_rules-Apart (x ∷ xs) a =
    insert_rule-Apart x (sort_rules xs) (sort_rules-All (Apart x) xs a.0) (sort_rules-Apart xs a.1)

-- A rule that none of the rules seen so far clashes with.
pub record IsFresh (seen : Seen) (c : CompiledRule) : Type 0 where
  pub new_id : has_id c.id seen.ids ≡ false
  pub new_priority : has_priority c.priority seen.priorities ≡ false

abbrev pub after_rule : Seen → RawRule → Seen
after_rule seen rule = record {
  ids = rule.id ∷ seen.ids;
  priorities = rule.priority ∷ seen.priorities;
}

validate_rule_identity-fresh :
    (rule : RawRule) (limits : Limits) (seen seen' : Seen)
    → validate_rule_identity rule limits seen ≡ ok seen'
    → (has_id rule.id seen.ids ≡ false)
      × (has_priority rule.priority seen.priorities ≡ false)
      × (seen' ≡ after_rule seen rule)
unfolding validate_rule_identity
validate_rule_identity-fresh rule limits seen seen' h = ground arith

-- Later rules do not clash with what was seen, and so not with the rule just added.
IsFresh-Apart :
    (r c : CompiledRule) (ids : List String) (priorities : List ℤ)
    → IsFresh (record { ids = r.id ∷ ids; priorities = r.priority ∷ priorities }) c
    → Apart r c × IsFresh (record { ids = ids; priorities = priorities }) c
IsFresh-Apart r c ids priorities f = (
  record {
    names = λ e. ground (arith, f.new_id, eq_iff r.id c.id);
    priorities = ground (arith, f.new_priority);
  },
  record { new_id = ground (arith, f.new_id); new_priority = ground (arith, f.new_priority) },
)

module _ (go : Runtime) (limits : Limits) where
  pub compile_rule_lem :
      (rule : RawRule) (seen : Seen) (r : CompiledRule × Seen)
      → compile_rule go limits rule seen ≡ ok r
      → (r ≡ (compiled_of go limits rule, after_rule seen rule))
        × IsFresh seen (compiled_of go limits rule)
        × (validate_rule_actions go limits rule ≡ none)
  unfolding compile_rule
  compile_rule_lem rule seen r h =
      let (seen', hs, h1) = >>=-eq-ok (validate_rule_identity rule limits seen) _ h in
      let (new_id, new_priority, next) = validate_rule_identity-fresh rule limits seen seen' hs in
      let (passed, h2) = check-eq-ok (validate_rule_actions go limits rule) _ h1 in
      (
        sym (ok-injective h2) ∙ ap (λ (t : Seen). (compiled_of go limits rule, t)) next,
        record { new_id = new_id; new_priority = new_priority },
        passed,
      )

  -- The compiled rules are the raw ones in their order; they clash neither with one another nor with
  -- the rules seen before; and each has passed the validation of its actions.
  pub record Built (seen : Seen) (raw : List RawRule) (cs : List CompiledRule) : Type 0 where
    pub fresh : All (IsFresh seen) cs
    pub apart : AllPairs Apart cs
    pub same : cs ≡ map (compiled_of go limits) raw
    pub passed : All (λ r. validate_rule_actions go limits r ≡ none) raw

  Built-cons :
      (rule : RawRule) (raw : List RawRule) (seen : Seen) (cs : List CompiledRule)
      → IsFresh seen (compiled_of go limits rule)
      → validate_rule_actions go limits rule ≡ none
      → Built (after_rule seen rule) raw cs
      → Built seen (rule ∷ raw) (compiled_of go limits rule ∷ cs)
  Built-cons rule raw seen cs f p b = record {
    fresh = (f, All-imp cs (λ c k. (split c k).1) b.fresh);
    apart = (All-imp cs (λ c k. (split c k).0) b.fresh, b.apart);
    same = ap (◌∷◌ (compiled_of go limits rule)) b.same;
    passed = (p, b.passed);
  }
    where
      split :
          (c : CompiledRule)
          → IsFresh (after_rule seen rule) c
          → Apart (compiled_of go limits rule) c × IsFresh seen c
      split c k = IsFresh-Apart (compiled_of go limits rule) c seen.ids seen.priorities k

  pub compile_each-Built :
      (raw : List RawRule) (seen : Seen) (cs : List CompiledRule)
      → compile_each go limits raw seen ≡ ok cs
      → Built seen raw cs
  unfolding compile_each
  compile_each-Built [] seen cs h =
      subst (Built seen []) (ok-injective h)
        (record { fresh = tt; apart = tt; same = refl; passed = tt })
  compile_each-Built (rule ∷ raw) seen cs h =
      let (r, hr, h1) = >>=-eq-ok (compile_rule go limits rule seen) _ h in
      let (rest, hrest, h2) = >>=-eq-ok (compile_each go limits raw r.1) _ h1 in
      let (e, f, p) = compile_rule_lem rule seen r hr in
      let built =
        subst (λ (t : CompiledRule × Seen). Built t.1 raw rest) e
          (compile_each-Built raw r.1 rest hrest) in
      subst (Built seen (rule ∷ raw))
        (sym (ap (λ (t : CompiledRule × Seen). t.0 ∷ rest) e) ∙ ok-injective h2)
        (Built-cons rule raw seen rest f p built)

pub names-Apart : (xs : List CompiledRule) → AllPairs Apart xs → AllPairs (λ x y. x.id ≢ y.id) xs
names-Apart [] a = tt
names-Apart (x ∷ xs) a = (All-imp xs (λ y h. h.names) a.0, names-Apart xs a.1)
