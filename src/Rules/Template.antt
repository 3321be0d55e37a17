-- ===== src/Rules/Template.antt =====
-- internal/rules/evaluator.go: the placeholders {{new_id}}, {{now}} and {{$.path}} of emitted data.
use Prim.Native.Char.{code}
use kafka_simulate_rule.Prelude.{
  ℕ, zero, suc, ◌+◌, ◌-◌, Bool, false, not, ◌&&◌, ◌||◌, if◌then◌else◌, ◌==◌, [], Option, none, some,
  String, str_eq, ◌<>◌,
}
use kafka_simulate_rule.Domain.Errors.{message}
use kafka_simulate_rule.Domain.Result.{Result, ok, err}
use kafka_simulate_rule.Domain.Event.{EventEnvelope, Time, is_empty}
use kafka_simulate_rule.Domain.Values.{
  Value, string, array, object, Items, end, item, Fields, close, field, Runtime, is_null,
}
use kafka_simulate_rule.Rules.Path.{after_root, resolve_path}

-- `[^{}]` and `\s` of the regular expression.
abbrev is_brace : ℕ → Bool
is_brace c = c == 123 || c == 125

abbrev is_space : ℕ → Bool
is_space c = c == 32 || c == 9 || c == 10 || c == 12 || c == 13

abbrev pub text_length : String → ℕ
text_length String.[] = 0
text_length (String.◌∷◌ c s) = suc (text_length s)

-- The longest beginning without braces, and what follows it.
abbrev span_plain : String → String × String
span_plain String.[] = ("", "")
span_plain (String.◌∷◌ c s) =
    let (run, rest) = span_plain s in
    if is_brace (code c) then ("", String.◌∷◌ c s) else (String.◌∷◌ c run, rest)

abbrev trim_left : String → String
trim_left String.[] = ""
trim_left (String.◌∷◌ c s) =
    let rest = trim_left s in if is_space (code c) then rest else String.◌∷◌ c s

-- Blanks at the end are dropped as they are found to have only blanks after them.
abbrev trim_right : String → String
trim_right String.[] = ""
trim_right (String.◌∷◌ c s) =
    let rest = trim_right s in if is_space (code c) && is_empty rest then "" else String.◌∷◌ c rest

abbrev last_char : String → String
last_char String.[] = ""
last_char (String.◌∷◌ c String.[]) = String.◌∷◌ c String.[]
last_char (String.◌∷◌ c (String.◌∷◌ d s)) = last_char (String.◌∷◌ d s)

-- The group of a match: what stands between the blanks, or one blank if there is nothing else.
abbrev group_of : String → String
group_of run = if is_empty (trim_left run) then last_char run else trim_right (trim_left run)

abbrev closes : String → Bool
closes (String.◌∷◌ c (String.◌∷◌ d s)) = code c == 125 && code d == 125
closes _ = false

-- A match of `\{\{\s*([^{}]+?)\s*\}\}` at the beginning: its group, and how long the match is.
unfoldable pub placeholder_at : String → Option (String × ℕ)
placeholder_at (String.◌∷◌ c (String.◌∷◌ d s)) =
    let (run, rest) = span_plain s in
    if code c == 123 && code d == 123 && not (is_empty run) && closes rest
    then some (group_of run, text_length run + 4)
    else none
placeholder_at _ = none

-- `strings.Contains(s, "{{")`
unfoldable pub has_opening : String → Bool
has_opening String.[] = false
has_opening (String.◌∷◌ c String.[]) = false
has_opening (String.◌∷◌ c (String.◌∷◌ d s)) =
    code c == 123 && code d == 123 || has_opening (String.◌∷◌ d s)

-- A nil event is `none`.
pub record TemplateContext : Type 0 where
  pub event : Option EventEnvelope
  pub child_id : String
  pub now : String

module _ (go : Runtime) (c : TemplateContext) where
  abbrev lookup_path : String → Option Value
  lookup_path path = elim c.event [
    | none ↦ none
    | some e ↦ elim (resolve_path go path e.payload []) [
      | err x ↦ none
      | ok v ↦ if is_null v then none else some v
    ]
  ]

  unfoldable pub lookup : String → Option Value
  lookup expr =
      if str_eq expr "new_id"
      then some (string c.child_id)
      else if str_eq expr "now"
      then some (string c.now)
      else elim (after_root expr) [
        | none ↦ lookup_path ("$." <> expr)
        | some rest ↦ lookup_path expr
      ]

  -- What a placeholder inside a longer text becomes.
  abbrev as_text : Option Value → String
  as_text none = ""
  as_text (some (string s)) = s
  as_text (some v) = elim (go.marshal v) [ none ↦ "" | some t ↦ t ]

  -- `ReplaceAllStringFunc`: `skip` characters are still part of the last match.
  unfoldable pub replace_all : ℕ → String → String
  unfolding placeholder_at lookup
  replace_all skip String.[] = ""
  replace_all (suc skip) (String.◌∷◌ d s) = replace_all skip s
  replace_all zero (String.◌∷◌ d s) = elim (placeholder_at (String.◌∷◌ d s)) [
    | none ↦ String.◌∷◌ d (replace_all zero s)
    | some (expr, n) ↦ as_text (lookup expr) <> replace_all (n - 1) s
  ]

  abbrev or_blank : Option Value → Value
  or_blank none = string ""
  or_blank (some v) = v

  abbrev expand_mixed : String → Value
  expand_mixed s = string (replace_all zero s)

  unfoldable pub expand : String → Value
  unfolding has_opening replace_all
  expand s = if not (has_opening s) then string s else elim (placeholder_at s) [
    | none ↦ expand_mixed s
    | some (expr, n) ↦ if n == text_length s then or_blank (lookup expr) else expand_mixed s
  ]

  unfoldable mutual
    pub walk : Value → Value
    walk (string s) = expand s
    walk (object fs) = object (walk_fields fs)
    walk (array vs) = array (walk_items vs)
    walk v = v

    pub walk_items : Items → Items
    walk_items end = end
    walk_items (item v vs) = item (walk v) (walk_items vs)

    pub walk_fields : Fields → Fields
    walk_fields close = close
    walk_fields (field k v fs) = field k (walk v) (walk_fields fs)

module _ (go : Runtime) where
  -- `none` as the result of `json.Marshal` is its error.
  unfoldable pub interpolate_templates :
      String → Option EventEnvelope → String → Time → Result String
  interpolate_templates raw event child_id now = elim (go.unmarshal raw) [
    | none ↦ err (message (go.decode_error raw))
    | some tree ↦
        let out =
          walk go (record { event = event; child_id = child_id; now = go.rfc3339 now }) tree in
        elim (go.marshal out) [ none ↦ err (message (go.encode_error out)) | some t ↦ ok t ]
  ]
