-- ===== src/Nats/Config/Normal.antt =====
-- What `normalizeConfig` of internal/adapters/nats/jetstream.go returns is in normal form.
use kafka_simulate_rule.Prelude.{
  length, subst, ltb, eq_iff, arith, true, inr, inl, ◌||◌, ap, sym, ◌∙◌, Bool-cases, [], false, ◌∷◌,
  ◌∷◌, ◌≡◌, Bool, str_eq, List, String, refl,
}
use kafka_simulate_rule.Batches.{text_le, sort_texts, insert_text}
use kafka_simulate_rule.Batches.Identity.{insert_text_comm}
use kafka_simulate_rule.Domain.Result.{Result, err, ok}
use kafka_simulate_rule.Domain.Event.{is_empty, bytes}
use kafka_simulate_rule.Nats.Config.{
  contains, prepend, normalize_subjects_from, normalize_rule_sets_from,
}
use kafka_simulate_rule.Domain.Result.Inversion.{ok-injective}

sort_texts-insert_text :
    (x : String) (ys : List String) → sort_texts (insert_text x ys) ≡ insert_text x (sort_texts ys)
unfolding sort_texts insert_text
sort_texts-insert_text x [] = refl
sort_texts-insert_text x (y ∷ ys) = elim (Bool-cases (text_le x y)) [
  | inl e ↦ rw e refl
  | inr e ↦
      rw e (ap (insert_text y) (sort_texts-insert_text x ys) ∙ insert_text_comm y x (sort_texts ys))
]

pub sort_texts_idem : (xs : List String) → sort_texts (sort_texts xs) ≡ sort_texts xs
unfolding sort_texts
sort_texts_idem [] = refl
sort_texts_idem (x ∷ xs) =
    sort_texts-insert_text x (sort_texts xs) ∙ ap (insert_text x) (sort_texts_idem xs)

str_eq_comm : (a b : String) → str_eq a b ≡ str_eq b a
str_eq_comm a b = grind (arith, eq_iff a b, eq_iff b a)

or_swap : (a b c : Bool) → (a || (b || c)) ≡ (b || (a || c))
or_swap true true c = refl
or_swap true false c = refl
or_swap false true c = refl
or_swap false false c = refl

or_left : (a b : Bool) → (a || b) ≡ false → a ≡ false
or_left true b h = h
or_left false b h = refl

or_right : (a b : Bool) → (a || b) ≡ false → b ≡ false
or_right true b h = cc h
or_right false b h = h

or_false : {a b : Bool} → a ≡ false → b ≡ false → (a || b) ≡ false
or_false e f = rw e f

pub prepend-eq-ok :
    (x : String) (m : Result (List String)) {out : List String}
    → prepend x m ≡ ok out
    → (rest : List String) × (m ≡ ok rest) × (out ≡ x ∷ rest)
prepend-eq-ok x (err e) h = cc h
prepend-eq-ok x (ok rest) h = (rest, refl, sym (ok-injective h))

module _ (trim_space : String → String) (refused : String → Bool) where
  -- The texts are trimmed, none is refused, and none is in `seen` or comes twice.
  abbrev pub IsNormal : List String → List String → Type 0
  IsNormal seen [] = Unit
  IsNormal seen (x ∷ xs) =
      (trim_space x ≡ x) × (refused x ≡ false) × (contains seen x ≡ false) × IsNormal (x ∷ seen) xs

  IsNormal-seen :
      (seen other xs : List String)
      → ((x : String) → contains seen x ≡ contains other x)
      → IsNormal seen xs
      → IsNormal other xs
  IsNormal-seen seen other [] same h = h
  IsNormal-seen seen other (x ∷ xs) same h = (
    h.0,
    h.1,
    sym (same x) ∙ h.2,
    IsNormal-seen (x ∷ seen) (x ∷ other) xs (λ y. ap (λ b. str_eq x y || b) (same y)) h.3,
  )

  swap :
      (x y : String) (seen : List String) (z : String)
      → contains (y ∷ x ∷ seen) z ≡ contains (x ∷ y ∷ seen) z
  swap x y seen z = or_swap (str_eq y z) (str_eq x z) (contains seen z)

  IsNormal-swap :
      (seen : List String) (x y : String) (ys : List String)
      → IsNormal seen (x ∷ y ∷ ys)
      → IsNormal seen (y ∷ x ∷ ys)
  IsNormal-swap seen x y ys h =
      let rest : IsNormal (x ∷ seen) (y ∷ ys) = h.3 in
      let last : IsNormal (x ∷ y ∷ seen) ys =
        IsNormal-seen (y ∷ x ∷ seen) (x ∷ y ∷ seen) ys (swap x y seen) rest.3 in
      let apart = str_eq_comm y x ∙ or_left (str_eq x y) (contains seen y) rest.2 in
      (
        rest.0,
        rest.1,
        or_right (str_eq x y) (contains seen y) rest.2,
        (h.0, h.1, or_false apart h.2, last),
      )

  IsNormal-insert_text :
      (seen : List String) (x : String) (xs : List String)
      → IsNormal seen (x ∷ xs)
      → IsNormal seen (insert_text x xs)
  unfolding insert_text
  IsNormal-insert_text seen x [] h = h
  IsNormal-insert_text seen x (y ∷ ys) h = elim (Bool-cases (text_le x y)) [
    | inl e ↦ rw e h
    | inr e ↦
        rw e
          let front = IsNormal-swap seen x y ys h in
            let back : IsNormal (y ∷ seen) (x ∷ ys) = front.3 in
            (front.0, front.1, front.2, IsNormal-insert_text (y ∷ seen) x ys back)
  ]

  pub IsNormal-sort_texts :
      (seen xs : List String) → IsNormal seen xs → IsNormal seen (sort_texts xs)
  unfolding sort_texts
  IsNormal-sort_texts seen [] h = h
  IsNormal-sort_texts seen (x ∷ xs) h =
      IsNormal-insert_text seen x (sort_texts xs)
        (h.0, h.1, h.2, IsNormal-sort_texts (x ∷ seen) xs h.3)

-- The two conditions on a rule set.
abbrev pub refuses_rule_set : String → Bool
refuses_rule_set rule_set = is_empty rule_set || ltb 128 (length (bytes rule_set))

module _ (trim_space : String → String) where
  pub subjects-fixed :
      (seen xs : List String)
      → IsNormal trim_space is_empty seen xs
      → normalize_subjects_from trim_space seen xs ≡ ok xs
  unfolding normalize_subjects_from
  subjects-fixed seen [] h = refl
  subjects-fixed seen (x ∷ xs) h =
      let trimmed = h.0 in
      let full = h.1 in
      let new = h.2 in
      let same = subjects-fixed (x ∷ seen) xs h.3 in rw trimmed (rw full (rw new (rw same refl)))

  pub rule_sets-fixed :
      (quote : String → String) (seen xs : List String)
      → IsNormal trim_space refuses_rule_set seen xs
      → normalize_rule_sets_from trim_space quote seen xs ≡ ok xs
  unfolding normalize_rule_sets_from
  rule_sets-fixed quote seen [] h = refl
  rule_sets-fixed quote seen (x ∷ xs) h =
      let trimmed = h.0 in
      let full = or_left (is_empty x) (ltb 128 (length (bytes x))) h.1 in
      let short = or_right (is_empty x) (ltb 128 (length (bytes x))) h.1 in
      let new = h.2 in
      let same = rule_sets-fixed quote (x ∷ seen) xs h.3 in
      rw trimmed (rw full (rw short (rw new (rw same refl))))

  module _ (idem : (text : String) → trim_space (trim_space text) ≡ trim_space text) where
    pub subjects-IsNormal :
        (seen values : List String) {out : List String}
        → normalize_subjects_from trim_space seen values ≡ ok out
        → IsNormal trim_space is_empty seen out
    unfolding normalize_subjects_from
    subjects-IsNormal seen [] h = subst (IsNormal trim_space is_empty seen) (ok-injective h) tt
    subjects-IsNormal seen (v ∷ values) h = elim (Bool-cases (is_empty (trim_space v))) [
      | inl e ↦ cc (rw e at h)
      | inr e ↦ elim (Bool-cases (contains seen (trim_space v))) [
        | inl f ↦ let first = rw e at h in subjects-IsNormal seen values (rw f at first)
        | inr f ↦
            let first = rw e at h in
            let taken =
              prepend-eq-ok (trim_space v)
                (normalize_subjects_from trim_space (trim_space v ∷ seen) values) (rw f at first) in
            subst (IsNormal trim_space is_empty seen) (sym taken.2)
              (idem v, e, f, subjects-IsNormal (trim_space v ∷ seen) values taken.1)
      ]
    ]

    pub rule_sets-IsNormal :
        (quote : String → String) (seen values : List String) {out : List String}
        → normalize_rule_sets_from trim_space quote seen values ≡ ok out
        → IsNormal trim_space refuses_rule_set seen out
    unfolding normalize_rule_sets_from
    rule_sets-IsNormal quote seen [] h =
        subst (IsNormal trim_space refuses_rule_set seen) (ok-injective h) tt
    rule_sets-IsNormal quote seen (v ∷ values) h = elim (Bool-cases (is_empty (trim_space v))) [
      | inl e ↦ cc (rw e at h)
      | inr e ↦
          let full = rw e at h in
          elim (Bool-cases (ltb 128 (length (bytes (trim_space v))))) [
            | inl l ↦ cc (rw l at full)
            | inr l ↦
                let short = rw l at full in
                elim (Bool-cases (contains seen (trim_space v))) [
                  | inl f ↦ cc (rw f at short)
                  | inr f ↦
                      let taken =
                        prepend-eq-ok (trim_space v)
                          (normalize_rule_sets_from trim_space quote (trim_space v ∷ seen) values)
                          (rw f at short) in
                      subst (IsNormal trim_space refuses_rule_set seen) (sym taken.2) (
                        idem v,
                        or_false e l,
                        f,
                        rule_sets-IsNormal quote (trim_space v ∷ seen) values taken.1,
                      )
                ]
          ]
    ]
