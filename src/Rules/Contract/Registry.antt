-- ===== src/Rules/Contract/Registry.antt =====
-- What is read back from the registry of internal/adapters/memory/contract_registry.go.
use Prim.Native.Char.{Char, char, code}
use text.Mathlib.TextLemmas.{nil-append, cons-append}
use kafka_simulate_rule.Prelude.{
  some, none, ◌==◌, ◌&&◌, All, not, Option, Bool, true, ◌∙◌, List, ◌<>◌, if◌then◌else◌, [], ◌∷◌,
  refl, inr, sym, inl, Bool-cases, ap, eq_iff, arith, false, ◌≡◌, str_eq, ℕ, ◌≢◌, String,
}
use kafka_simulate_rule.Rules.Contract.{
  registry_key, ContractSchema, drop_key, ContractRegistry, register_contract, find_schema,
  get_contract,
}
use kafka_simulate_rule.Domain.Result.{or_fail}
use kafka_simulate_rule.Domain.Errors.{message}

and_left : (a b : Bool) → (a && b) ≡ true → a ≡ true
and_left true b h = refl
and_left false b h = cc h

and_right : (a b : Bool) → (a && b) ≡ true → b ≡ true
and_right true b h = h
and_right false b h = cc h

drop_key-find_schema :
    (key other : String) (r : ContractRegistry)
    → other ≢ key
    → find_schema key (drop_key other r) ≡ find_schema key r
unfolding find_schema
drop_key-find_schema key other [] ne = refl
drop_key-find_schema key other ((k, schema) ∷ r) ne =
    ground (arith, drop_key-find_schema key other r ne, ne, eq_iff k other, eq_iff k key)

abbrev pub colon_free : String → Bool
colon_free String.[] = true
colon_free (String.◌∷◌ c s) = not (code c == 58) && colon_free s

abbrev first_code : String → ℕ
first_code String.[] = 0
first_code (String.◌∷◌ c s) = code c

abbrev first_or : Char → String → Char
first_or d String.[] = d
first_or d (String.◌∷◌ c s) = c

abbrev after_first : String → String
after_first String.[] = ""
after_first (String.◌∷◌ c s) = s

-- The key, character by character.
abbrev spelled : String → String → String
spelled String.[] version = String.◌∷◌ (char 58 tt) version
spelled (String.◌∷◌ c name) version = String.◌∷◌ c (spelled name version)

registry_key-spelled : (name version : String) → registry_key name version ≡ spelled name version
registry_key-spelled String.[] version =
    nil-append (":" <> version)
    ∙ cons-append (char 58 tt) "" version
    ∙ ap (λ s. String.◌∷◌ (char 58 tt) s) (nil-append version)
registry_key-spelled (String.◌∷◌ c name) version =
    cons-append c name (":" <> version)
    ∙ ap (λ s. String.◌∷◌ c s) (registry_key-spelled name version)

-- The first colon ends the name.
spelled_parts :
    (a c b d : String)
    → colon_free a ≡ true
    → colon_free c ≡ true
    → spelled a b ≡ spelled c d
    → (a ≡ c) × (b ≡ d)
spelled_parts String.[] String.[] b d f g h = (refl, ap after_first h)
spelled_parts String.[] (String.◌∷◌ y c) b d f g h =
    let e : 58 ≡ code y = ap first_code h in absurd (ground (arith, e, g))
spelled_parts (String.◌∷◌ x a) String.[] b d f g h =
    let e : code x ≡ 58 = ap first_code h in absurd (ground (arith, e, f))
spelled_parts (String.◌∷◌ x a) (String.◌∷◌ y c) b d f g h =
    let rest =
      spelled_parts a c b d (and_right (not (code x == 58)) (colon_free a) f)
        (and_right (not (code y == 58)) (colon_free c) g) (ap after_first h) in
    (λ i. String.◌∷◌ (first_or x (h i)) (rest.0 i), rest.1)

-- Under names without a colon the keys tell names and versions apart.
registry_key-eq :
    (a b c d : String)
    → colon_free a ≡ true
    → colon_free c ≡ true
    → str_eq (registry_key a b) (registry_key c d) ≡ (str_eq a c && str_eq b d)
registry_key-eq a b c d f g = elim (Bool-cases (str_eq (registry_key a b) (registry_key c d))) [
  | inl e ↦
      let same = (eq_iff (registry_key a b) (registry_key c d)).0 e in
      let parts =
        spelled_parts a c b d f g
          (sym (registry_key-spelled a b) ∙ same ∙ registry_key-spelled c d) in
      let left : str_eq a c ≡ true = (eq_iff a c).1 parts.0 in
      let right : str_eq b d ≡ true = (eq_iff b d).1 parts.1 in rw (e, left, right) refl
  | inr e ↦ elim (Bool-cases (str_eq a c && str_eq b d)) [
    | inl t ↦
        let left = (eq_iff a c).0 (and_left (str_eq a c) (str_eq b d) t) in
        let right = (eq_iff b d).0 (and_right (str_eq a c) (str_eq b d) t) in
        let same : registry_key a b ≡ registry_key c d = λ i. registry_key (left i) (right i) in
        let full = (eq_iff (registry_key a b) (registry_key c d)).1 same in cc full
    | inr t ↦ e ∙ sym t
  ]
]

-- The registry after a number of registrations, the last of them in front.
unfoldable pub registered : List ContractSchema → ContractRegistry
unfolding register_contract
registered [] = []
registered (schema ∷ schemas) = register_contract (registered schemas) schema

-- The last contract that was registered with a name and a version.
unfoldable pub latest : List ContractSchema → String → String → Option ContractSchema
latest [] name version = none
latest (schema ∷ schemas) name version =
    if str_eq schema.name name && str_eq schema.version version
    then some schema
    else latest schemas name version

abbrev pub IsPlain : ContractSchema → Type 0
IsPlain schema = colon_free schema.name ≡ true

find_schema-latest :
    (schemas : List ContractSchema) (name version : String)
    → All IsPlain schemas
    → colon_free name ≡ true
    → find_schema (registry_key name version) (registered schemas) ≡ latest schemas name version
unfolding find_schema registered register_contract latest
find_schema-latest [] name version plain f = refl
find_schema-latest (schema ∷ schemas) name version plain f =
    let own = registry_key schema.name schema.version in
    let key = registry_key name version in
    let rest = find_schema-latest schemas name version plain.1 f in
    let same = registry_key-eq schema.name schema.version name version plain.0 f in
    elim (Bool-cases (str_eq own key)) [
      | inl e ↦ rw (e, sym same ∙ e) refl
      | inr e ↦
          rw (e, sym same ∙ e)
            (drop_key-find_schema key own (registered schemas) (λ z. cc (e, (eq_iff own key).1 z))
              ∙ rest)
    ]

-- After any registrations of contracts whose names have no colon, a lookup under such a name and a version
-- returns the last contract that was registered with this name and this version, and an error if there
-- was none.
pub registered-get_contract :
    (schemas : List ContractSchema) (name version : String)
    → All IsPlain schemas
    → colon_free name ≡ true
    → get_contract (registered schemas) name version
      ≡ or_fail
          (latest schemas name version)
          (message ("contract " <> (name <> ("@" <> (version <> " not found")))))
unfolding get_contract
registered-get_contract schemas name version plain f =
    ap (λ o. or_fail o (message ("contract " <> (name <> ("@" <> (version <> " not found"))))))
      (find_schema-latest schemas name version plain f)
