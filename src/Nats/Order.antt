-- ===== src/Nats/Order.antt =====
-- The order of the keys in `matchingConsumerKeys` of internal/adapters/nats/jetstream.go: what it selects does not
-- depend on the order in which Go ranges over the map.
use kafka_simulate_rule.Prelude.{
  eq_iff, ap, ◌==◌, ◌∙◌, str_eq, sym, subst, false, inr, true, inl, ◌≡◌, not, arith, if◌then◌else◌,
  Bool, Bool-cases, String, ltb, ℕ, refl,
}
use kafka_simulate_rule.Batches.{text_le}
use kafka_simulate_rule.Batches.Identity.{text_le-total, text_le-antisym, text_le_trans}
use kafka_simulate_rule.Nats.{ConsumerKey, key_lt}

pub record IsStrict {ℓ} {A : Type ℓ} (lt : A → A → Bool) : Type ℓ where
  pub asym : (a b : A) → lt a b ≡ true → lt b a ≡ false
  pub connex : (a b : A) → lt a b ≡ false → lt b a ≡ false → a ≡ b
  pub trans : (a b c : A) → lt a b ≡ true → lt b c ≡ true → lt a c ≡ true

ltb-IsStrict : IsStrict ltb
ltb-IsStrict = record {
  asym = λ a b h. ground (arith, h);
  connex = λ a b h k. ground (arith, h, k);
  trans = λ a b c h k. ground (arith, h, k);
}

abbrev text_lt : String → String → Bool
text_lt s t = not (text_le t s)

not-true : {b : Bool} → not b ≡ true → b ≡ false
not-true {b = true} h = cc h
not-true {b = false} h = refl

not-false : {b : Bool} → not b ≡ false → b ≡ true
not-false {b = true} h = refl
not-false {b = false} h = cc h

text_lt-IsStrict : IsStrict text_lt
text_lt-IsStrict = record {
  asym = λ a b h. rw (text_le-total b a (not-true h)) refl;
  connex = λ a b h k. text_le-antisym a b (not-false k) (not-false h);
  trans = λ a b c h k. elim (Bool-cases (text_le c a)) [
    | inl e ↦ let back = text_le_trans b c a (text_le-total c b (not-true k)) e in cc (h, back)
    | inr e ↦ rw e refl
  ];
}

module _ {ℓ} {A : Type ℓ} {lt : A → A → Bool} (o : IsStrict lt) where
  pub irrefl : (a : A) → lt a a ≡ false
  irrefl a = elim (Bool-cases (lt a a)) [ inl e ↦ o.asym a a e | inr e ↦ e ]

  pub mixed : (x a b : A) → lt x b ≡ false → lt x a ≡ true → lt b a ≡ true
  mixed x a b h k = elim (Bool-cases (lt b x)) [
    | inl e ↦ o.trans b x a e k
    | inr e ↦ subst (λ y. lt y a ≡ true) (o.connex x b h e) k
  ]

  mixed_right : (a b c : A) → lt a b ≡ true → lt c b ≡ false → lt a c ≡ true
  mixed_right a b c h k = elim (Bool-cases (lt b c)) [
    | inl e ↦ o.trans a b c h e
    | inr e ↦ subst (λ y. lt a y ≡ true) (o.connex b c e k) h
  ]

-- First by one part, then by another.
abbrev lex : {A B K : Type 0} → (A → A → Bool) → (B → B → Bool) → (K → A) → (K → B) → K → K → Bool
lex lt mt f g a b =
    if lt (f a) (f b) then true else if lt (f b) (f a) then false else mt (g a) (g b)

module _ {A B K : Type 0} {lt : A → A → Bool} {mt : B → B → Bool} (o : IsStrict lt)
    (p : IsStrict mt) (f : K → A) (g : K → B)
    (joint : (a b : K) → f a ≡ f b → g a ≡ g b → a ≡ b) where
  lex-IsStrict : IsStrict (lex lt mt f g)
  lex-IsStrict = record {
    asym = λ a b h. elim (Bool-cases (lt (f a) (f b))) [
      | inl e ↦ rw (e, o.asym (f a) (f b) e) refl
      | inr e ↦ elim (Bool-cases (lt (f b) (f a))) [
        | inl k ↦ cc (rw (e, k) at h)
        | inr k ↦ rw (e, k) (p.asym (g a) (g b) (rw (e, k) at h))
      ]
    ];
    connex = λ a b h i. elim (Bool-cases (lt (f a) (f b))) [
      | inl e ↦ cc (rw e at h)
      | inr e ↦ elim (Bool-cases (lt (f b) (f a))) [
        | inl k ↦ cc (rw k at i)
        | inr k ↦
            joint a b (o.connex (f a) (f b) e k)
              (p.connex (g a) (g b) (rw (e, k) at h) (rw (k, e) at i))
      ]
    ];
    trans = λ a b c h i. elim (Bool-cases (lt (f a) (f b))) [
      | inl e ↦ elim (Bool-cases (lt (f b) (f c))) [
        | inl j ↦ rw (o.trans (f a) (f b) (f c) e j) refl
        | inr j ↦ elim (Bool-cases (lt (f c) (f b))) [
          | inl k ↦ cc (rw (j, k) at i)
          | inr k ↦ rw (mixed_right o (f a) (f b) (f c) e k) refl
        ]
      ]
      | inr e ↦ elim (Bool-cases (lt (f b) (f a))) [
        | inl k ↦ cc (rw (e, k) at h)
        | inr k ↦
            let same = o.connex (f a) (f b) e k in
            let first = rw (e, k) at h in
            elim (Bool-cases (lt (f b) (f c))) [
              | inl j ↦ let less = subst (λ y. lt y (f c) ≡ true) (sym same) j in rw less refl
              | inr j ↦ elim (Bool-cases (lt (f c) (f b))) [
                | inl l ↦ cc (rw (j, l) at i)
                | inr l ↦
                    let up = subst (λ y. lt y (f c) ≡ false) (sym same) j in
                    let down = subst (λ y. lt (f c) y ≡ false) (sym same) l in
                    rw (up, down) (p.trans (g a) (g b) (g c) first (rw (j, l) at i))
              ]
            ]
      ]
    ];
  }

-- The two texts of a key, and all of it.
abbrev names_lt : String × String → String × String → Bool
names_lt = lex text_lt text_lt (λ (p : String × String). p.0) (λ (p : String × String). p.1)

abbrev names_of : ConsumerKey → String × String
names_of k = (k.base_subject, k.rule_set)

abbrev all_lt : ConsumerKey → ConsumerKey → Bool
all_lt = lex ltb names_lt (λ (k : ConsumerKey). k.shard) names_of

pub all_lt-IsStrict : IsStrict all_lt
all_lt-IsStrict =
    lex-IsStrict ltb-IsStrict
      (lex-IsStrict text_lt-IsStrict text_lt-IsStrict (λ (p : String × String). p.0)
        (λ (p : String × String). p.1) (λ a b e f i. (e i, f i)))
      (λ (k : ConsumerKey). k.shard) names_of
      (λ a b e f i. record { base_subject = (f i).0; rule_set = (f i).1; shard = e i })

-- The tests of the source, on texts and on a shard.
text_test :
    (a b : String) (rest : Bool)
    → (if not (str_eq a b) then text_lt a b else rest)
      ≡ (if text_lt a b then true else if text_lt b a then false else rest)
text_test a b rest = elim (Bool-cases (str_eq a b)) [
  | inl e ↦
      let same : a ≡ b = (eq_iff a b).0 e in
      let here = irrefl text_lt-IsStrict b in
      let up = subst (λ x. text_lt x b ≡ false) (sym same) here in
      let down = subst (λ x. text_lt b x ≡ false) (sym same) here in rw (e, up, down) refl
  | inr e ↦ elim (Bool-cases (text_lt a b)) [
    | inl k ↦ rw (e, k) refl
    | inr k ↦ elim (Bool-cases (text_lt b a)) [
      | inl l ↦ rw (e, k, l) refl
      | inr l ↦
          let equal : str_eq a b ≡ true = (eq_iff a b).1 (text_lt-IsStrict.connex a b k l) in
          cc (e, equal)
    ]
  ]
]

shard_test :
    (a b : ℕ) (rest : Bool)
    → (if not (a == b) then ltb a b else rest)
      ≡ (if ltb a b then true else if ltb b a then false else rest)
shard_test a b rest = ground arith

pub key_lt-all_lt : (a b : ConsumerKey) → key_lt a b ≡ all_lt a b
unfolding key_lt
key_lt-all_lt a b =
    ap (λ t. if not (a.shard == b.shard) then ltb a.shard b.shard else t)
      (text_test a.base_subject b.base_subject (text_lt a.rule_set b.rule_set))
    ∙ shard_test a.shard b.shard (names_lt (names_of a) (names_of b))

pub key_lt-IsStrict : IsStrict key_lt
key_lt-IsStrict = record {
  asym = λ a b h. key_lt-all_lt b a ∙ all_lt-IsStrict.asym a b (sym (key_lt-all_lt a b) ∙ h);
  connex = λ a b h k.
      all_lt-IsStrict.connex a b (sym (key_lt-all_lt a b) ∙ h) (sym (key_lt-all_lt b a) ∙ k);
  trans = λ a b c h k.
      key_lt-all_lt a c
      ∙ all_lt-IsStrict.trans a b c (sym (key_lt-all_lt a b) ∙ h) (sym (key_lt-all_lt b c) ∙ k);
}
