-- ===== src/Batches/Grouping.antt =====
-- What the groups of `groupInboxEntries` (internal/services/batches/service.go) hold.
use kafka_simulate_rule.Batches.{
  group_inbox_entries, is_grouped, group_of, same_group, BatchGroupKey, group_from, Groups,
  add_entry,
}
use kafka_simulate_rule.Prelude.{
  append_assoc, Bool, ap, refl, inr, ◌&&◌, length-append, ◌∙◌, eq_iff, eq_refl, [], subst, inl,
  if◌then◌else◌, true, append-nil, false, ◌++◌, Bool-cases, length, ◌≡◌, ◌≤◌, sym, ◌∷◌, ◌≢◌, arith,
  AllPairs, All, List,
}
use kafka_simulate_rule.Domain.Outbox.{InboxEntry}

pub same_group-eq : (a b : BatchGroupKey) → same_group a b ≡ true → a ≡ b
same_group-eq a b h =
    let t : a.tenant_id ≡ b.tenant_id = ground (arith, h, eq_iff a.tenant_id b.tenant_id) in
    let p : a.partition_key ≡ b.partition_key =
      ground (arith, h, eq_iff a.partition_key b.partition_key) in
    let r : a.rule_set ≡ b.rule_set = ground (arith, h, eq_iff a.rule_set b.rule_set) in
    λ i. record { tenant_id = t i; partition_key = p i; rule_set = r i }

same_group_refl : (a : BatchGroupKey) → same_group a a ≡ true
same_group_refl a = ground (arith, eq_refl a.tenant_id, eq_refl a.partition_key, eq_refl a.rule_set)

different : (a b : BatchGroupKey) → same_group a b ≡ false → a ≢ b
different a b h e =
    let f : true ≡ false = sym (subst (λ z. same_group a z ≡ true) e (same_group_refl a)) ∙ h in
    cc f

other_group :
    (k key other : BatchGroupKey)
    → same_group k key ≡ true
    → same_group k other ≡ false
    → same_group other key ≡ false
other_group k key other h f = elim (Bool-cases (same_group other key)) [
  | inl g ↦ absurd (different k other f (same_group-eq k key h ∙ sym (same_group-eq other key g)))
  | inr g ↦ g
]

-- The members of a group, none if there is no such group.
unfoldable pub members_of : BatchGroupKey → Groups → List InboxEntry
members_of key [] = []
members_of key ((k, members) ∷ groups) = if same_group k key then members else members_of key groups

-- The entries of a group, in their order.
unfoldable pub entries_of : BatchGroupKey → List InboxEntry → List InboxEntry
entries_of key [] = []
entries_of key (e ∷ es) =
    if is_grouped e && same_group (group_of e) key then e ∷ entries_of key es else entries_of key es

add_entry-members_of :
    (e : InboxEntry) (key : BatchGroupKey) (groups : Groups)
    → members_of key (add_entry e groups)
      ≡ members_of key groups ++ (if same_group (group_of e) key then e ∷ [] else [])
unfolding add_entry members_of
add_entry-members_of e key [] = ground arith
add_entry-members_of e key ((k, members) ∷ groups) = elim (Bool-cases (same_group k (group_of e))) [
  | inl f ↦
      let same = same_group-eq k (group_of e) f in
      elim (Bool-cases (same_group (group_of e) key)) [
        | inl g ↦
            let h : same_group k key ≡ true = subst (λ z. same_group z key ≡ true) (sym same) g in
            rw f (rw h (rw g refl))
        | inr g ↦
            let h : same_group k key ≡ false = subst (λ z. same_group z key ≡ false) (sym same) g in
            rw f (rw h (rw g (sym (append-nil (members_of key groups)))))
      ]
  | inr f ↦ elim (Bool-cases (same_group k key)) [
    | inl h ↦ rw f (rw h (rw (other_group k key (group_of e) h f) (sym (append-nil members))))
    | inr h ↦ rw f (rw h (add_entry-members_of e key groups))
  ]
]

abbrev pub HasDistinctKeys : Groups → Type 0
HasDistinctKeys groups = AllPairs (λ (a b : BatchGroupKey × List InboxEntry). a.0 ≢ b.0) groups

add_entry-All :
    (P : BatchGroupKey → Type 0) (e : InboxEntry) (groups : Groups)
    → P (group_of e)
    → All (λ (g : BatchGroupKey × List InboxEntry). P g.0) groups
    → All (λ (g : BatchGroupKey × List InboxEntry). P g.0) (add_entry e groups)
unfolding add_entry
add_entry-All P e [] p h = (p, tt)
add_entry-All P e ((k, members) ∷ groups) p h = elim (Bool-cases (same_group k (group_of e))) [
  | inl f ↦ rw f h
  | inr f ↦ rw f (h.0, add_entry-All P e groups p h.1)
]

add_entry-HasDistinctKeys :
    (e : InboxEntry) (groups : Groups)
    → HasDistinctKeys groups
    → HasDistinctKeys (add_entry e groups)
unfolding add_entry
add_entry-HasDistinctKeys e [] h = (tt, tt)
add_entry-HasDistinctKeys e ((k, members) ∷ groups) h =
    elim (Bool-cases (same_group k (group_of e))) [
      | inl f ↦ rw f h
      | inr f ↦
          let other : k ≢ group_of e = λ z. different k (group_of e) f z in
          rw f (
            add_entry-All (λ (z : BatchGroupKey). k ≢ z) e groups other h.0,
            add_entry-HasDistinctKeys e groups h.1,
          )
    ]

abbrev pub AllNonempty : Groups → Type 0
AllNonempty groups = All (λ (g : BatchGroupKey × List InboxEntry). 1 ≤ length g.1) groups

add_entry-AllNonempty :
    (e : InboxEntry) (groups : Groups) → AllNonempty groups → AllNonempty (add_entry e groups)
unfolding add_entry
add_entry-AllNonempty e [] h = (omega arith, tt)
add_entry-AllNonempty e ((k, members) ∷ groups) h = elim (Bool-cases (same_group k (group_of e))) [
  | inl f ↦ rw f (omega (arith, length-append members (e ∷ [])), h.1)
  | inr f ↦ rw f (h.0, add_entry-AllNonempty e groups h.1)
]

-- What the loop of `groupInboxEntries` adds to the groups that it has.
record Grouped (key : BatchGroupKey) (before after : Groups) (es : List InboxEntry) : Type 0 where
  distinct : HasDistinctKeys after
  nonempty : AllNonempty after
  members : members_of key after ≡ members_of key before ++ entries_of key es

entries_of-nil : (key : BatchGroupKey) → entries_of key [] ≡ []
unfolding entries_of
entries_of-nil key = refl

entries_of-grouped :
    (key : BatchGroupKey) (e : InboxEntry) (es : List InboxEntry)
    → is_grouped e ≡ true
    → entries_of key (e ∷ es)
      ≡ (if same_group (group_of e) key then e ∷ entries_of key es else entries_of key es)
unfolding entries_of
entries_of-grouped key e es f = rw f refl

entries_of-skipped :
    (key : BatchGroupKey) (e : InboxEntry) (es : List InboxEntry)
    → is_grouped e ≡ false
    → entries_of key (e ∷ es) ≡ entries_of key es
unfolding entries_of
entries_of-skipped key e es f = rw f refl

if-append :
    (b : Bool) (e : InboxEntry) (xs : List InboxEntry)
    → (if b then e ∷ [] else []) ++ xs ≡ (if b then e ∷ xs else xs)
if-append true e xs = refl
if-append false e xs = refl

group_from-Grouped :
    (key : BatchGroupKey) (groups : Groups) (es : List InboxEntry)
    → HasDistinctKeys groups
    → AllNonempty groups
    → Grouped key groups (group_from groups es) es
unfolding group_from
group_from-Grouped key groups [] d n = record {
  distinct = d;
  nonempty = n;
  members =
      sym (append-nil (members_of key groups))
      ∙ ap (λ l. members_of key groups ++ l) (sym (entries_of-nil key));
}
group_from-Grouped key groups (e ∷ es) d n = elim (Bool-cases (is_grouped e)) [
  | inl f ↦
      let rest =
        group_from-Grouped key (add_entry e groups) es (add_entry-HasDistinctKeys e groups d)
          (add_entry-AllNonempty e groups n) in
      rw f (record {
        distinct = rest.distinct;
        nonempty = rest.nonempty;
        members =
            rest.members
            ∙ ap (λ l. l ++ entries_of key es) (add_entry-members_of e key groups)
            ∙ append_assoc (members_of key groups)
                (if same_group (group_of e) key then e ∷ [] else []) (entries_of key es)
            ∙ ap (λ l. members_of key groups ++ l)
                (if-append (same_group (group_of e) key) e (entries_of key es))
            ∙ ap (λ l. members_of key groups ++ l) (sym (entries_of-grouped key e es f));
      })
  | inr f ↦
      let rest = group_from-Grouped key groups es d n in
      rw f (record {
        distinct = rest.distinct;
        nonempty = rest.nonempty;
        members =
            rest.members
            ∙ ap (λ l. members_of key groups ++ l) (sym (entries_of-skipped key e es f));
      })
]

-- The groups of a tick have distinct keys and at least one member each. Under every key they hold exactly the
-- entries that have a tenant, a partition key and a rule set and are of that key, in the order of the listing.
pub group_inbox_entries-members :
    (es : List InboxEntry)
    → HasDistinctKeys (group_inbox_entries es)
      × AllNonempty (group_inbox_entries es)
      × ((key : BatchGroupKey) → members_of key (group_inbox_entries es) ≡ entries_of key es)
unfolding group_inbox_entries members_of
group_inbox_entries-members es =
    let any : BatchGroupKey = record { tenant_id = ""; partition_key = ""; rule_set = "" } in
    let g = group_from-Grouped any [] es tt tt in
    (g.distinct, g.nonempty, λ key. (group_from-Grouped key [] es tt tt).members)
