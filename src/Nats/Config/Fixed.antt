-- ===== src/Nats/Config/Fixed.antt =====
-- `normalizeConfig` of internal/adapters/nats/jetstream.go changes nothing a second time.
use kafka_simulate_rule.Prelude.{
  ◌∙◌, ap, subst, none, [], ◌∷◌, List, inr, ◌*◌, inl, false, negsuc, pos, Bool-cases, ltb_ℤ, ◌≡◌,
  ◌==◌, String, if◌then◌else◌, ℤ, ℕ, refl,
}
use kafka_simulate_rule.Domain.Result.{ok}
use kafka_simulate_rule.Batches.{sort_texts}
use kafka_simulate_rule.Nats.Config.{
  normalize_defaulted, normalize_rule_sets_from, normalize_subjects_from, validate_consumer_config,
  normalize_subjects, normalize_rule_sets, is_zero, Config, text_or, subjects_or,
  apply_config_defaults, normalize_config,
}
use kafka_simulate_rule.Nats.Config.Normal.{
  IsNormal, subjects-IsNormal, rule_sets-IsNormal, subjects-fixed, rule_sets-fixed,
  IsNormal-sort_texts, sort_texts_idem, prepend-eq-ok, refuses_rule_set,
}
use kafka_simulate_rule.Domain.Event.{is_empty}
use kafka_simulate_rule.Domain.Result.Inversion.{ok-injective, >>=-eq-ok, check-eq-ok}

shards_idem :
    (n : ℕ)
    → (if (if n == 0 then 4096 else n) == 0 then 4096 else (if n == 0 then 4096 else n))
      ≡ (if n == 0 then 4096 else n)
shards_idem n = elim (Bool-cases (n == 0)) [ inl e ↦ rw e refl | inr e ↦ rw e (rw e refl) ]

-- A name that is not empty is the default.
text_or_idem :
    (default text : String)
    → is_empty default ≡ false
    → text_or default (text_or default text) ≡ text_or default text
text_or_idem default text d = elim (Bool-cases (is_empty text)) [
  | inl e ↦ rw e (rw d refl)
  | inr e ↦ rw e (rw e refl)
]

abbrev wait_or : ℤ → ℤ
wait_or t = if ltb_ℤ (pos 0) t then t else pos (30 * 1000000000)

wait_or_idem : (t : ℤ) → wait_or (wait_or t) ≡ wait_or t
wait_or_idem t = elim (Bool-cases (ltb_ℤ (pos 0) t)) [
  | inl e ↦ rw e (rw e refl)
  | inr e ↦ rw e refl
]

abbrev unlimited_or : ℤ → ℤ
unlimited_or n = if is_zero n then negsuc 0 else n

unlimited_or_idem : (n : ℤ) → unlimited_or (unlimited_or n) ≡ unlimited_or n
unlimited_or_idem n = elim (Bool-cases (is_zero n)) [ inl e ↦ rw e refl | inr e ↦ rw e (rw e refl) ]

module _ (trim_space : String → String)
    (idem : (text : String) → trim_space (trim_space text) ≡ trim_space text)
    (quote : String → String) where
  first_subject :
      (default : List String) (value : String) (values : List String) {out : List String}
      → normalize_subjects trim_space (value ∷ values) ≡ ok out
      → subjects_or default out ≡ out
  unfolding normalize_subjects
  first_subject default value values h = elim (Bool-cases (is_empty (trim_space value))) [
    | inl e ↦ cc (rw e at h)
    | inr e ↦
        let taken =
          prepend-eq-ok (trim_space value)
            (normalize_subjects_from trim_space (trim_space value ∷ []) values) (rw e at h) in
        rw taken.2 refl
  ]

  some_subjects :
      (default given : List String) {out : List String}
      → normalize_subjects trim_space (subjects_or ("events" ∷ default) given) ≡ ok out
      → subjects_or ("events" ∷ default) out ≡ out
  some_subjects default [] h = first_subject ("events" ∷ default) "events" default h
  some_subjects default (s ∷ given) h = first_subject ("events" ∷ default) s given h

  -- The configuration with the lists that the loops leave.
  abbrev with_lists : Config → List String → List String → Config
  with_lists cfg subjects rule_sets = record cfg { subjects = subjects; rule_sets = rule_sets }

  apply_config_defaults_idem :
      (given : Config) (subjects rule_sets : List String)
      → subjects_or ("events" ∷ []) subjects ≡ subjects
      → apply_config_defaults (with_lists (apply_config_defaults given) subjects rule_sets)
        ≡ with_lists (apply_config_defaults given) subjects rule_sets
  unfolding apply_config_defaults
  apply_config_defaults_idem given subjects rule_sets full = λ i. record given {
    num_shards = shards_idem given.num_shards i;
    subjects = full i;
    rule_sets = rule_sets;
    stream = text_or_idem "flowrule" given.stream refl i;
    consumer = text_or_idem "flowrule-worker" given.consumer refl i;
    ack_wait = wait_or_idem given.ack_wait i;
    max_deliver = unlimited_or_idem given.max_deliver i;
  }

  again :
      (cfg : Config) (subjects raw : List String)
      → validate_consumer_config cfg ≡ none
      → normalize_subjects trim_space cfg.subjects ≡ ok subjects
      → normalize_rule_sets_from trim_space quote [] cfg.rule_sets ≡ ok raw
      → normalize_defaulted trim_space quote (with_lists cfg subjects (sort_texts raw))
        ≡ ok (with_lists cfg subjects (sort_texts raw))
  unfolding normalize_defaulted
  again cfg subjects raw valid hs hr =
      let once =
        subjects-fixed trim_space [] subjects
          (subjects-IsNormal trim_space idem [] cfg.subjects hs) in
      let sorted = rule_sets-fixed trim_space quote [] (sort_texts raw) (
        IsNormal-sort_texts trim_space refuses_rule_set [] raw
          (rule_sets-IsNormal trim_space idem quote [] cfg.rule_sets hr)) in
      rw valid (rw once (rw sorted (rw (sort_texts_idem raw) refl)))

  -- What the steps of a successful call have returned.
  steps :
      (cfg : Config) {out : Config}
      → normalize_defaulted trim_space quote cfg ≡ ok out
      → (validate_consumer_config cfg ≡ none)
        × ((subjects : List String) × (raw : List String) × (normalize_subjects trim_space
                cfg.subjects
              ≡ ok subjects)
            × (normalize_rule_sets_from trim_space quote [] cfg.rule_sets ≡ ok raw)
            × (with_lists cfg subjects (sort_texts raw) ≡ out))
  unfolding normalize_defaulted
  steps cfg h =
      let valid = check-eq-ok (validate_consumer_config cfg) _ h in
      let subjects = >>=-eq-ok (normalize_subjects trim_space cfg.subjects) _ valid.1 in
      let rule_sets = >>=-eq-ok (normalize_rule_sets trim_space quote cfg.rule_sets) _ subjects.2 in
      let raw =
        >>=-eq-ok (normalize_rule_sets_from trim_space quote [] cfg.rule_sets) _ rule_sets.1 in
      (
        valid.0,
        (
          subjects.0,
          raw.0,
          subjects.1,
          raw.1,
          ap (with_lists cfg subjects.0) (ok-injective raw.2) ∙ ok-injective rule_sets.2,
        ),
      )

-- With a `strings.TrimSpace` that changes nothing a second time, a configuration that
-- `normalizeConfig` returns is one that it returns unchanged, has trimmed
-- subjects and rule sets without blanks or duplicates, and rule sets of at most 128 bytes.
pub normalize_config-fixed :
    (trim_space : String → String) (quote : String → String) (given out : Config)
    → ((text : String) → trim_space (trim_space text) ≡ trim_space text)
    → normalize_config trim_space quote given ≡ ok out
    → (normalize_config trim_space quote out ≡ ok out)
      × IsNormal trim_space is_empty [] out.subjects
      × IsNormal trim_space refuses_rule_set [] out.rule_sets
unfolding normalize_config
normalize_config-fixed trim_space quote given out idem h =
    let cfg = apply_config_defaults given in
    let (valid, (subjects, raw, hs, hr, same)) = steps trim_space idem quote cfg h in
    subst
      (λ c.
        (normalize_config trim_space quote c ≡ ok c)
        × IsNormal trim_space is_empty [] c.subjects
        × IsNormal trim_space refuses_rule_set [] c.rule_sets)
      same
      (
        ap (normalize_defaulted trim_space quote) (
              apply_config_defaults_idem trim_space idem quote given subjects (sort_texts raw)
                (some_subjects trim_space idem quote [] given.subjects hs))
            ∙ again trim_space idem quote cfg subjects raw valid hs hr,
        subjects-IsNormal trim_space idem [] cfg.subjects hs,
        IsNormal-sort_texts trim_space refuses_rule_set [] raw
            (rule_sets-IsNormal trim_space idem quote [] cfg.rule_sets hr),
      )
