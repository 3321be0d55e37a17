-- ===== src/Batches/Selection.antt =====
-- The batch that a manual request forms (internal/services/batches/service.go).
use mathlib.Core.List.Perm
use mathlib.Core.List.{foldr}
use mathlib.Core.HLevel.{hedberg}
use kafka_simulate_rule.Batches.{
  list_by_ids_call, History, Service, compute_batch_id, sort_entries, insert_entry,
}
use kafka_simulate_rule.Prelude.{
  subst, length-map, none, ◌==◌, false, if◌then◌else◌, Bool, inr, arith, ℕ_discrete, inl, ltb, ◌∙◌,
  pos_part, refl, sym, true, Bool-cases, map, [], some, ap, length, ◌≤◌, ◌∷◌, is_positive, ◌∷◌, suc,
  All, ◌≡◌, ℤ, Perm, ℕ, String, List,
}
use kafka_simulate_rule.Domain.Values.{Runtime}
use kafka_simulate_rule.Batches.Processing.{
  process_input, process_group, event_id_of, input_of, limit_batch_members, build_batch_input,
}
use kafka_simulate_rule.Domain.Outbox.{InboxEntry}
use kafka_simulate_rule.Batches.Requests.{
  after_group, validate_manual_batch_request, create_from, validate_requested_batch_members,
  create_valid, requested_members, create_batch,
}
use kafka_simulate_rule.Batches.Identity.{compute_batch_id-perm}
use kafka_simulate_rule.Domain.Result.{ok, Result}
use kafka_simulate_rule.Batches.Manual.{validate_manual_batch_request-IsServable}

insert_entry-perm : (e : InboxEntry) (xs : List InboxEntry) → Perm (insert_entry e xs) (e ∷ xs)
unfolding insert_entry
insert_entry-perm e [] = Perm.refl (e ∷ [])
insert_entry-perm e (x ∷ xs) = elim (Bool-cases (ltb x.first_seen_at e.first_seen_at)) [
  | inl f ↦ rw f (Perm.trans (Perm.cons x (insert_entry-perm e xs)) (Perm.swap e x xs))
  | inr f ↦ rw f (Perm.refl (e ∷ x ∷ xs))
]

pub sort_entries-perm : (xs : List InboxEntry) → Perm (sort_entries xs) xs
unfolding sort_entries
sort_entries-perm [] = Perm.refl []
sort_entries-perm (x ∷ xs) =
    Perm.trans (insert_entry-perm x (sort_entries xs)) (Perm.cons x (sort_entries-perm xs))

insert_entry-All {ℓ} :
    (P : InboxEntry → Type ℓ) (e : InboxEntry) (xs : List InboxEntry)
    → P e
    → All P xs
    → All P (insert_entry e xs)
unfolding insert_entry
insert_entry-All P e [] h k = (h, tt)
insert_entry-All P e (x ∷ xs) h k = elim (Bool-cases (ltb x.first_seen_at e.first_seen_at)) [
  | inl f ↦ rw f (k.0, insert_entry-All P e xs h k.1)
  | inr f ↦ rw f (h, k)
]

pub sort_entries-All {ℓ} :
    (P : InboxEntry → Type ℓ) (xs : List InboxEntry) → All P xs → All P (sort_entries xs)
unfolding sort_entries
sort_entries-All P [] h = tt
sort_entries-All P (x ∷ xs) h =
    insert_entry-All P x (sort_entries xs) h.0 (sort_entries-All P xs h.1)

-- The length, as a fold.
length-foldr {ℓ} : {A : Type ℓ} (xs : List A) → foldr (λ (a : A) (n : ℕ). suc n) 0 xs ≡ length xs
length-foldr [] = refl
length-foldr (x ∷ xs) = ap suc (length-foldr xs)

pub length-perm {ℓ} : {A : Type ℓ} (xs ys : List A) → Perm xs ys → length xs ≡ length ys
length-perm {A} xs ys h =
    sym (length-foldr xs)
    ∙ Perm.foldr-eq (hedberg ℕ_discrete) (λ (a : A) (n : ℕ). suc n) (λ a b n. refl) h 0
    ∙ length-foldr ys

-- A member of the request's scope.
pub record InScope (tenant_id partition_key rule_set : String) (e : InboxEntry) : Type 0 where
  pub tenant : e.tenant_id ≡ tenant_id
  pub partition : e.partition_key ≡ partition_key
  pub rules : e.rule_set ≡ rule_set

limit_batch_members-all :
    (max_batch : ℤ) (members : List InboxEntry)
    → (is_positive max_batch ≡ true → length members ≤ pos_part max_batch)
    → limit_batch_members max_batch members ≡ members
unfolding limit_batch_members
limit_batch_members-all max_batch members h = elim (Bool-cases (is_positive max_batch)) [
  | inl e ↦ let l = h e in ground (arith, l)
  | inr e ↦ ground (arith, e)
]

-- The identity of the batch of members of one scope.
same_identity :
    (go : Runtime) (tenant_id partition_key rule_set : String) (ids : List String) (e : InboxEntry)
    (es : List InboxEntry)
    → All (InScope tenant_id partition_key rule_set) (e ∷ es)
    → Perm (map event_id_of (e ∷ es)) ids
    → (input_of go e es).batch_id ≡ compute_batch_id go tenant_id partition_key rule_set ids
unfolding input_of
same_identity go tenant_id partition_key rule_set ids e es h p =
    (λ i.
      compute_batch_id go (h.0.tenant i) (h.0.partition i) (h.0.rules i) (map event_id_of (e ∷ es)))
    ∙ compute_batch_id-perm go tenant_id partition_key rule_set (map event_id_of (e ∷ es)) ids p

requested_members-all :
    (go : Runtime) (ids : List String) (members : List InboxEntry)
    (answer : Result (List InboxEntry))
    → answer ≡ ok members
    → length members ≡ length ids
    → requested_members go ids answer ≡ ok members
unfolding requested_members validate_requested_batch_members
requested_members-all go ids members answer h l =
    let same : (length members == length ids) ≡ true = ground (arith, l) in rw h (rw same refl)

if-true : {A : Type 0} (b : Bool) (x y : A) → b ≡ true → (if b then x else y) ≡ x
if-true true x y h = refl
if-true false x y h = cc h

-- An accepted request whose events the repository lists is the processing of one input.
pub create_batch-input :
    (go : Runtime) (s : Service) (tenant_id partition_key rule_set : String) (ids : List String)
    (t : History) (members : List InboxEntry) (e : InboxEntry) (es : List InboxEntry)
    → validate_manual_batch_request go s tenant_id partition_key rule_set ids ≡ none
    → s.list_unbatched_by_ids t tenant_id partition_key rule_set ids ≡ ok members
    → Perm (map event_id_of members) ids
    → All (InScope tenant_id partition_key rule_set) members
    → sort_entries members ≡ e ∷ es
    → ((input_of go e es).batch_id ≡ compute_batch_id go tenant_id partition_key rule_set ids)
      × Perm (map event_id_of (e ∷ es)) ids
      × (create_batch go s tenant_id partition_key rule_set ids t
          ≡ after_group go s (input_of go e es).batch_id (
              process_input go s
                (some (input_of go e es))
                (list_by_ids_call tenant_id partition_key rule_set ids ∷ t)))
unfolding create_batch create_valid create_from process_group build_batch_input
create_batch-input go s tenant_id partition_key rule_set ids t members e es valid listed same scope
      split =
    let v =
      (validate_manual_batch_request-IsServable go s tenant_id partition_key rule_set ids).0
        valid in
    let sorted = sort_entries members in
    let count : length members ≡ length ids =
      sym (length-map members event_id_of) ∙ length-perm (map event_id_of members) ids same in
    let sorted_count : length sorted ≡ length ids =
      length-perm sorted members (sort_entries-perm members) ∙ count in
    let ids_of : Perm (map event_id_of (e ∷ es)) ids =
      subst (λ l. Perm (map event_id_of l) ids) split
        (Perm.trans (Perm.map event_id_of (sort_entries-perm members)) same) in
    let own =
      same_identity go tenant_id partition_key rule_set ids e es
        (subst (All (InScope tenant_id partition_key rule_set)) split
          (sort_entries-All (InScope tenant_id partition_key rule_set) members scope))
        ids_of in
    let whole : limit_batch_members s.config.max_batch sorted ≡ sorted =
      limit_batch_members-all s.config.max_batch sorted
        (λ p. omega (arith, v.size p, sorted_count)) in
    let u = list_by_ids_call tenant_id partition_key rule_set ids ∷ t in
    let group : process_group go s sorted u ≡ process_input go s (some (input_of go e es)) u =
      if-true s.has_events _ _ v.available
      ∙ ap (λ l. process_input go s (build_batch_input go l) u) (whole ∙ split) in
    (
      own,
      ids_of,
      ap (λ o. create_valid go s tenant_id partition_key rule_set ids o t) valid
          ∙ ap (λ r. create_from go s tenant_id partition_key rule_set ids r u)
              (requested_members-all go ids members _ listed count)
          ∙ ap (λ r. after_group go s (compute_batch_id go tenant_id partition_key rule_set ids) r)
              group
          ∙ ap (λ id. after_group go s id (process_input go s (some (input_of go e es)) u))
              (sym own),
    )
