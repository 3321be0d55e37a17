-- ===== src/Domain/Values.antt =====
-- The values that `encoding/json` decodes into `interface{}`, as the rule engine meets them, and the
-- parts of Go's standard library that it calls on them.
use kafka_simulate_rule.Prelude.{
  ℕ, Bool, true, false, if◌then◌else◌, Option, none, some, String, str_eq, ℤ,
}
use kafka_simulate_rule.Domain.Event.{EventEnvelope, Time}

-- A `float64` is its IEEE 754 bit pattern.
abbrev pub Float64 : Type 0
Float64 = ℕ

-- `int64` and `json.Number` do not come out of `json.Unmarshal`, but a caller in Go may pass them.
mutual
  pub data Value : Type 0 where
    null : Value
    bool : Bool → Value
    float64 : Float64 → Value
    int64 : ℤ → Value
    number : String → Value
    string : String → Value
    array : Items → Value
    object : Fields → Value

  -- `[]interface{}`
  pub data Items : Type 0 where
    end : Items
    item : Value → Items → Items

  -- `map[string]interface{}`: the first entry of a key is the one that counts.
  pub data Fields : Type 0 where
    close : Fields
    field : String → Value → Fields → Fields

-- `object[part]` with its `ok`.
unfoldable pub get_field : String → Fields → Option Value
get_field k close = none
get_field k (field j v fs) = if str_eq j k then some v else get_field k fs

abbrev pub is_null : Value → Bool
is_null null = true
is_null _ = false

-- What the engine uses of the standard library on floats, JSON, formatting and hashes. `float_lt` and
-- `float_eq` are the IEEE comparisons, `parse_float` is `strconv.ParseFloat` (and `Number.Float64`),
-- `parse_int64` is `Number.Int64`; `none` is an error, whose text is that of
-- `decode_error`, `encode_error` or `event_error` for JSON. `marshal_event` encodes an envelope, and `marshal_raw` a
-- `json.RawMessage`, which it checks and compacts. `sprint`, `itoa` and `quote` are the verbs `%v`, `%d` and `%q`
-- of `fmt`.
pub record Runtime : Type 0 where
  pub float_lt : Float64 → Float64 → Bool
  pub float_eq : Float64 → Float64 → Bool
  pub float_of_int64 : ℤ → Float64
  pub int64_of_float : Float64 → ℤ
  pub parse_float : String → Option Float64
  pub parse_int64 : String → Option ℤ
  pub sprint : Value → String
  pub unmarshal : String → Option Value
  pub valid_json : String → Bool
  pub decode_error : String → String
  pub marshal : Value → Option String
  pub encode_error : Value → String
  pub marshal_raw : String → Option String
  pub marshal_event : EventEnvelope → Option String
  pub event_error : EventEnvelope → String
  pub rfc3339 : Time → String
  pub sha256_hex : String → String
  pub itoa : ℤ → String
  pub quote : String → String
