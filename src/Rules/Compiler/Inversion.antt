-- ===== src/Rules/Compiler/Inversion.antt =====
-- A successful `Compile` (internal/rules/compiler.go) taken apart.
use kafka_simulate_rule.Prelude.{
  inr, inl, Bool-cases, ◌≡◌, List, String, arith, none, some, true, ◌∙◌, sym, subst, ap,
}
use kafka_simulate_rule.Domain.Result.{ok}
use kafka_simulate_rule.Domain.Values.{Runtime}
use kafka_simulate_rule.Rules.Compiler.{
  sort_rules, compile_each, otherwise_only_last, nothing_seen, validate_rule_set_budgets,
  compile_rules, validate_rule_set_metadata, match_mode_of, finish, parse_raw_rules, RawRule,
  validate_rule_set, compile, parse_rule_set, RawRuleSet, Decoder,
}
use kafka_simulate_rule.Rules.Validation.{Limits}
use kafka_simulate_rule.Domain.Event.{is_empty, Time}
use kafka_simulate_rule.Domain.Rule.{RuleRevision, CompiledRule}
use kafka_simulate_rule.Domain.Identity.{compute_source_hash}
use kafka_simulate_rule.Domain.Result.Inversion.{
  or_fail-eq-ok, ok-injective, check-eq-ok, >>=-eq-ok,
}
use kafka_simulate_rule.Rules.Compiler.Order.{compile_each-Built, Built}
use kafka_simulate_rule.Rules.Evaluator.{is_first_match}

module _ (go : Runtime) (decoder : Decoder) (limits : Limits) where
  -- The stages that a compilation went through.
  pub record Stages (source : String) (now : Time) (rev : RuleRevision) : Type 0 where
    pub rs : RawRuleSet
    pub raw : List RawRule
    pub cs : List CompiledRule
    pub decoded : decoder.decode_rule_set source ≡ some rs
    pub decoded_rules : decoder.decode_rules rs.rules ≡ some raw
    pub metadata : validate_rule_set_metadata rs ≡ none
    pub budgets : validate_rule_set_budgets limits raw ≡ none
    pub built : Built go limits nothing_seen raw cs
    pub rules : rev.compiled ≡ sort_rules cs
    pub mode : rev.match_mode ≡ match_mode_of rs.mode
    pub hash : rev.content_hash ≡ compute_source_hash go source
    pub last_only : is_first_match rev.match_mode ≡ true → otherwise_only_last rev.compiled ≡ true

  finish-lem :
      (rs : RawRuleSet) (source : String) (cs : List CompiledRule) (now : Time) (rev : RuleRevision)
      → finish go decoder limits rs source cs now ≡ ok rev
      → (rev.compiled ≡ cs)
        × (rev.match_mode ≡ match_mode_of rs.mode)
        × (rev.content_hash ≡ compute_source_hash go source)
        × (is_first_match rev.match_mode ≡ true → otherwise_only_last rev.compiled ≡ true)
  finish-lem rs source cs now rev h = (ground arith, ground arith, ground arith, λ m. ground arith)

  parse-lem :
      (source : String) (rs : RawRuleSet)
      → parse_rule_set go decoder limits source ≡ ok rs
      → decoder.decode_rule_set source ≡ some rs
  unfolding parse_rule_set
  parse-lem source rs h = elim (Bool-cases (is_empty source)) [
    | inl e ↦ absurd (ground arith)
    | inr e ↦ or_fail-eq-ok (decoder.decode_rule_set source) _ (rw e at h)
  ]

  pub compile-Stages :
      (source : String) (now : Time) (rev : RuleRevision)
      → compile go decoder limits source now ≡ ok rev
      → Stages source now rev
  unfolding compile validate_rule_set parse_raw_rules compile_rules
  compile-Stages source now rev h =
      let (rs, hp, h1) = >>=-eq-ok (parse_rule_set go decoder limits source) _ h in
      let (raw, hv, h2) = >>=-eq-ok (validate_rule_set go decoder limits rs) _ h1 in
      let (meta, hv1) = check-eq-ok (validate_rule_set_metadata rs) _ hv in
      let (raw', hr, hv2) = >>=-eq-ok (parse_raw_rules go decoder limits rs.rules) _ hv1 in
      let (budget, hv3) = check-eq-ok (validate_rule_set_budgets limits raw') _ hv2 in
      let (sorted, hc, h3) = >>=-eq-ok (compile_rules go decoder limits raw) _ h2 in
      let (cs, hcs, hs) = >>=-eq-ok (compile_each go limits raw nothing_seen) _ hc in
      let (compiled, mode, hash, last) = finish-lem rs source sorted now rev h3 in
      let same : raw' ≡ raw = ok-injective hv3 in
      record {
        rs = rs;
        raw = raw;
        cs = cs;
        decoded = parse-lem source rs hp;
        decoded_rules = or_fail-eq-ok (decoder.decode_rules rs.rules) _ hr ∙ ap some same;
        metadata = meta;
        budgets = subst (λ r. validate_rule_set_budgets limits r ≡ none) same budget;
        built = compile_each-Built go limits raw nothing_seen cs hcs;
        rules = compiled ∙ sym (ok-injective hs);
        mode = mode;
        hash = hash;
        last_only = last;
      }
