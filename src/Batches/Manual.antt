-- ===== src/Batches/Manual.antt =====
-- The request of a manual batch (internal/services/batches/service.go).
use kafka_simulate_rule.Prelude.{
  ℕ, ap, ℤ, ltb, ◌&&◌, pos_part, ◌==◌, is_positive, some, length, not, if◌then◌else◌, ◌≤◌, ◌↔◌,
  true, Option, ◌||◌, Bool, All-imp, refl, [], inr, inl, eq_iff, arith, Bool-cases, ◌∷◌, none,
  false, ◌≡◌, ◌≢◌, All, AllPairs, String, List,
}
use kafka_simulate_rule.Domain.Values.{Runtime}
use kafka_simulate_rule.Batches.Requests.{
  validate_unique_event_ids, validate_manual_batch_request, has_text, validate_unique_from,
}
use kafka_simulate_rule.Domain.Event.{is_empty}
use kafka_simulate_rule.Batches.{Service}
use kafka_simulate_rule.Domain.Errors.{batch_processing_unavailable, sentinel}

abbrev pub AbsentFrom : List String → String → Type 0
AbsentFrom seen id = All (λ (x : String). x ≢ id) seen

has_text-eq-false :
    (id : String) (seen : List String) → has_text id seen ≡ false → AbsentFrom seen id
has_text-eq-false id [] h = tt
has_text-eq-false id (x ∷ xs) h =
    (λ e. ground (arith, h, e, eq_iff x id), has_text-eq-false id xs (ground (arith, h)))

AbsentFrom-has_text :
    (id : String) (seen : List String) → AbsentFrom seen id → has_text id seen ≡ false
AbsentFrom-has_text id [] h = refl
AbsentFrom-has_text id (x ∷ xs) h = ground (arith, h.0, AbsentFrom-has_text id xs h.1, eq_iff x id)

-- Not empty, and none of the IDs before it.
pub record IsNew (seen : List String) (id : String) : Type 0 where
  pub nonempty : id ≢ ""
  pub absent : AbsentFrom seen id

abbrev pub AreDistinct : List String → Type 0
AreDistinct ids = AllPairs (λ (a b : String). a ≢ b) ids

later_IsNew : (id : String) (seen : List String) (x : String) → IsNew (id ∷ seen) x → IsNew seen x
later_IsNew id seen x n = record { nonempty = n.nonempty; absent = n.absent.1 }

nonempty-is_empty : (id : String) → id ≢ "" → is_empty id ≡ false
nonempty-is_empty id h = ground (arith, h, eq_iff id "")

is_empty-nonempty : (id : String) → is_empty id ≡ false → id ≢ ""
is_empty-nonempty id h e = ground (arith, h, e, eq_iff id "")

All-both :
    (id : String) (seen ids : List String)
    → All (IsNew seen) ids
    → All (λ (x : String). id ≢ x) ids
    → All (IsNew (id ∷ seen)) ids
All-both id seen [] n d = tt
All-both id seen (x ∷ xs) n d =
    (record { nonempty = n.0.nonempty; absent = (d.0, n.0.absent) }, All-both id seen xs n.1 d.1)

module _ (go : Runtime) where
  unique_from-eq-none :
      (seen ids : List String)
      → validate_unique_from go seen ids ≡ none
      → All (IsNew seen) ids × AreDistinct ids
  unfolding validate_unique_from
  unique_from-eq-none seen [] h = (tt, tt)
  unique_from-eq-none seen (id ∷ ids) h = elim (Bool-cases (is_empty id)) [
    | inl e ↦ absurd (ground (arith, e, h))
    | inr e ↦ elim (Bool-cases (has_text id seen)) [
      | inl f ↦ absurd (ground (arith, e, f, h))
      | inr f ↦
          let rest : validate_unique_from go (id ∷ seen) ids ≡ none = ground (arith, e, f, h) in
          let ih = unique_from-eq-none (id ∷ seen) ids rest in
          let first : IsNew seen id = record {
            nonempty = λ g. ground (arith, e, g, eq_iff id "");
            absent = has_text-eq-false id seen f;
          } in
          (
            (first, All-imp ids (λ (x : String) n. later_IsNew id seen x n) ih.0),
            (All-imp ids (λ (x : String) n. n.absent.0) ih.0, ih.1),
          )
    ]
  ]

  unique_from-none :
      (seen ids : List String)
      → All (IsNew seen) ids
      → AreDistinct ids
      → validate_unique_from go seen ids ≡ none
  unfolding validate_unique_from
  unique_from-none seen [] n d = refl
  unique_from-none seen (id ∷ ids) n d =
      let e : is_empty id ≡ false = nonempty-is_empty id n.0.nonempty in
      let f : has_text id seen ≡ false = AbsentFrom-has_text id seen n.0.absent in
      rw e (rw f (unique_from-none (id ∷ seen) ids (All-both id seen ids n.1 d.0) d.1))

-- A request that can be served.
pub record IsServable (s : Service) (tenant_id partition_key rule_set : String) (ids : List String)
    : Type 0 where
  pub available : s.has_events ≡ true
  pub some_event : 1 ≤ length ids
  pub tenant : tenant_id ≢ ""
  pub partition : partition_key ≢ ""
  pub rules : rule_set ≢ ""
  pub size : is_positive s.config.max_batch ≡ true → length ids ≤ pos_part s.config.max_batch
  pub named : All (λ (id : String). id ≢ "") ids
  pub distinct : AreDistinct ids

none-if :
    {A : Type 0} (b : Bool) (a : A) (o : Option A)
    → b ≡ false
    → o ≡ none
    → (if b then some a else o) ≡ none
none-if true a o h k = cc h
none-if false a o h k = k

all_false : (a b c : Bool) → a ≡ false → b ≡ false → c ≡ false → (a || (b || c)) ≡ false
all_false a b c h k l = ground (arith, h, k, l)

not_too_many :
    (m : ℤ) (n : ℕ)
    → (is_positive m ≡ true → n ≤ pos_part m)
    → (is_positive m && ltb (pos_part m) n) ≡ false
not_too_many m n h = elim (Bool-cases (is_positive m)) [
  | inl e ↦ let l = h e in ground (arith, l)
  | inr e ↦ ground (arith, e)
]

if-none :
    {A : Type 0} (b : Bool) (a : A) (o : Option A)
    → (if b then some a else o) ≡ none
    → (b ≡ false) × (o ≡ none)
if-none true a o h = cc h
if-none false a o h = (refl, h)

or_false : (a b : Bool) → (a || b) ≡ false → (a ≡ false) × (b ≡ false)
or_false true b h = cc h
or_false false b h = (refl, h)

validate_manual_batch_request-eq-none :
    (go : Runtime) (s : Service) (tenant_id partition_key rule_set : String) (ids : List String)
    → validate_manual_batch_request go s tenant_id partition_key rule_set ids ≡ none
    → IsServable s tenant_id partition_key rule_set ids
unfolding validate_manual_batch_request validate_unique_event_ids
validate_manual_batch_request-eq-none go s tenant_id partition_key rule_set ids h =
    let a = if-none (not s.has_events) (sentinel batch_processing_unavailable) _ h in
    let b = if-none (length ids == 0) _ _ a.1 in
    let c = if-none (is_empty tenant_id || (is_empty partition_key || is_empty rule_set)) _ _ b.1 in
    let d =
      if-none (is_positive s.config.max_batch && ltb (pos_part s.config.max_batch) (length ids)) _ _
        c.1 in
    let texts = or_false (is_empty tenant_id) _ c.0 in
    let more = or_false (is_empty partition_key) _ texts.1 in
    let u = unique_from-eq-none go [] ids d.1 in
    record {
      available = ground (arith, a.0);
      some_event = ground (arith, b.0);
      tenant = is_empty-nonempty tenant_id texts.0;
      partition = is_empty-nonempty partition_key more.0;
      rules = is_empty-nonempty rule_set more.1;
      size = λ p. ground (arith, d.0, p);
      named = All-imp ids (λ (x : String) n. n.nonempty) u.0;
      distinct = u.1;
    }

IsServable-validate_manual_batch_request :
    (go : Runtime) (s : Service) (tenant_id partition_key rule_set : String) (ids : List String)
    → IsServable s tenant_id partition_key rule_set ids
    → validate_manual_batch_request go s tenant_id partition_key rule_set ids ≡ none
unfolding validate_manual_batch_request validate_unique_event_ids
IsServable-validate_manual_batch_request go s tenant_id partition_key rule_set ids v =
    let u =
      unique_from-none go [] ids
        (All-imp ids (λ (x : String) n. record { nonempty = n; absent = tt }) v.named) v.distinct in
    none-if (not s.has_events) _ _ (ap not v.available) (
      none-if (length ids == 0) _ _ (ground (arith, v.some_event)) (
        none-if (is_empty tenant_id || (is_empty partition_key || is_empty rule_set)) _ _
          (all_false (is_empty tenant_id) (is_empty partition_key) (is_empty rule_set)
            (nonempty-is_empty tenant_id v.tenant) (nonempty-is_empty partition_key v.partition)
            (nonempty-is_empty rule_set v.rules))
          (none-if
            (is_positive s.config.max_batch && ltb (pos_part s.config.max_batch) (length ids)) _ _
            (not_too_many s.config.max_batch (length ids) v.size) u)))

-- A manual batch is accepted exactly if events can be processed, some event is named, the tenant, the partition
-- key and the rule set are given, the events are not more than a positive limit, none of their IDs is
-- empty, and no two are equal.
pub validate_manual_batch_request-IsServable :
    (go : Runtime) (s : Service) (tenant_id partition_key rule_set : String) (ids : List String)
    → (validate_manual_batch_request go s tenant_id partition_key rule_set ids ≡ none)
      ↔ IsServable s tenant_id partition_key rule_set ids
validate_manual_batch_request-IsServable go s tenant_id partition_key rule_set ids = (
  validate_manual_batch_request-eq-none go s tenant_id partition_key rule_set ids,
  IsServable-validate_manual_batch_request go s tenant_id partition_key rule_set ids,
)
