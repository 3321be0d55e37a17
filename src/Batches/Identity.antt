-- ===== src/Batches/Identity.antt =====
-- The identity of a batch in internal/domain/batch.go does not depend on the order of its events.
use mathlib.Core.List.Perm.{foldr-eq}
use mathlib.Core.List.{foldr}
use mathlib.Core.HLevel.{hedberg}
use text.Mathlib.TextEquality.{Char-path}
use kafka_simulate_rule.Batches.{join, compute_batch_id, insert_text, sort_texts, text_le}
use kafka_simulate_rule.Prelude.{
  eq_iff, str_eq, ◌<>◌, ◌∙◌, ap, sym, if◌then◌else◌, [], ◌∷◌, inr, inl, Perm, Bool-cases, List,
  arith, refl, true, false, ◌≡◌, String,
}
use Prim.Native.Char.{code}
use kafka_simulate_rule.Domain.Values.{Runtime}
use kafka_simulate_rule.Domain.Identity.{bar}

pub text_le-total : (s t : String) → text_le s t ≡ false → text_le t s ≡ true
unfolding text_le
text_le-total String.[] t h = cc h
text_le-total (String.◌∷◌ c s) String.[] h = refl
text_le-total (String.◌∷◌ c s) (String.◌∷◌ d t) h = ground (arith, h, text_le-total s t)

pub text_le-antisym : (s t : String) → text_le s t ≡ true → text_le t s ≡ true → s ≡ t
unfolding text_le
text_le-antisym String.[] String.[] h k = refl
text_le-antisym String.[] (String.◌∷◌ d t) h k = cc k
text_le-antisym (String.◌∷◌ c s) String.[] h k = cc h
text_le-antisym (String.◌∷◌ c s) (String.◌∷◌ d t) h k =
    let codes : code c ≡ code d = ground (arith, h, k) in
    let rests : (text_le s t ≡ true) × (text_le t s ≡ true) =
      (ground (arith, h, codes), ground (arith, k, codes)) in
    λ i. String.◌∷◌ (Char-path c d codes i) (text_le-antisym s t rests.0 rests.1 i)

pub text_le_trans : (s t u : String) → text_le s t ≡ true → text_le t u ≡ true → text_le s u ≡ true
unfolding text_le
text_le_trans String.[] t u h k = refl
text_le_trans (String.◌∷◌ c s) String.[] u h k = cc h
text_le_trans (String.◌∷◌ c s) (String.◌∷◌ d t) String.[] h k = cc k
text_le_trans (String.◌∷◌ c s) (String.◌∷◌ d t) (String.◌∷◌ e u) h k =
    ground (arith, h, k, text_le_trans s t u)

text_le-above : (a b x : String) → text_le a x ≡ true → text_le b x ≡ false → text_le b a ≡ false
text_le-above a b x h k = elim (Bool-cases (text_le b a)) [
  | inl e ↦ let f : true ≡ false = sym (text_le_trans b a x e h) ∙ k in cc f
  | inr e ↦ e
]

-- Two texts in front of a list.
insert_text-front :
    (a b : String) (xs : List String)
    → (if text_le a b then a ∷ b ∷ xs else b ∷ a ∷ xs)
      ≡ (if text_le b a then b ∷ a ∷ xs else a ∷ b ∷ xs)
insert_text-front a b xs = elim (Bool-cases (text_le a b)) [
  | inl e ↦ elim (Bool-cases (text_le b a)) [
    | inl f ↦ let same = text_le-antisym a b e f in rw same refl
    | inr f ↦ rw e (rw f refl)
  ]
  | inr e ↦ let f = text_le-total a b e in rw e (rw f refl)
]

-- Two insertions commute.
pub insert_text_comm :
    (a b : String) (xs : List String)
    → insert_text a (insert_text b xs) ≡ insert_text b (insert_text a xs)
unfolding insert_text
insert_text_comm a b [] = elim (Bool-cases (text_le a b)) [
  | inl e ↦ elim (Bool-cases (text_le b a)) [
    | inl f ↦ let same = text_le-antisym a b e f in rw same refl
    | inr f ↦ rw e (rw f refl)
  ]
  | inr e ↦ let f = text_le-total a b e in rw e (rw f refl)
]
insert_text_comm a b (x ∷ xs) = elim (Bool-cases (text_le a x)) [
  | inl e ↦ elim (Bool-cases (text_le b x)) [
    | inl f ↦ rw e (rw f (rw e (insert_text-front a b (x ∷ xs))))
    | inr f ↦ rw e (rw f (rw (text_le-above a b x e f) (rw e refl)))
  ]
  | inr e ↦ elim (Bool-cases (text_le b x)) [
    | inl f ↦ rw e (rw f (rw (text_le-above b a x f e) (rw e refl)))
    | inr f ↦ rw e (rw f (rw e (ap (λ l. x ∷ l) (insert_text_comm a b xs))))
  ]
]

sort_texts-foldr : (xs : List String) → foldr insert_text [] xs ≡ sort_texts xs
unfolding sort_texts
sort_texts-foldr [] = refl
sort_texts-foldr (x ∷ xs) = ap (insert_text x) (sort_texts-foldr xs)

pub String-discrete : Discrete String
String-discrete s t = elim (Bool-cases (str_eq s t)) [
  | inl e ↦ yes (ground (arith, e, eq_iff s t))
  | inr e ↦ no (λ h. ground (arith, e, h, eq_iff s t))
]

pub sort_texts-perm : (xs ys : List String) → Perm xs ys → sort_texts xs ≡ sort_texts ys
sort_texts-perm xs ys h =
    sym (sort_texts-foldr xs)
    ∙ foldr-eq (hlevel (hedberg String-discrete)) insert_text insert_text_comm h []
    ∙ sort_texts-foldr ys

-- The identity of a batch does not depend on the order in which its events are given.
pub compute_batch_id-perm :
    (go : Runtime) (tenant_id partition_key rule_set : String) (xs ys : List String)
    → Perm xs ys
    → compute_batch_id go tenant_id partition_key rule_set xs
      ≡ compute_batch_id go tenant_id partition_key rule_set ys
unfolding compute_batch_id
compute_batch_id-perm go tenant_id partition_key rule_set xs ys h =
    ap
      (λ (l : List String).
        go.sha256_hex
          (tenant_id <> (bar <> (partition_key <> (bar <> (rule_set <> (bar <> join l)))))))
      (sort_texts-perm xs ys h)
