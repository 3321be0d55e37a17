-- ===== src/Delivery/Backoff.antt =====
-- The retry delays of internal/services/effects/service.go, internal/runtime/scheduler/scheduler.go and
-- internal/application/worker_delivery.go, in nanoseconds.
pub mod Laws
mod Tests
use kafka_simulate_rule.Prelude.{
  ◌+◌, none, pos_part, negsuc, zero, is_positive, leb, ◌*◌, ltb, ◌-◌, ◌/◌, pos, some, if◌then◌else◌,
  suc, ℕ, ℤ, Option,
}

-- `c << k`, while it fits its machine word: the value doubled `k` times.
unfoldable pub doubled : ℕ → ℕ → ℕ
doubled zero c = c
doubled (suc k) c = doubled k (c * 2)

abbrev pub second : ℕ
second = 1000000000

abbrev pub minute : ℕ
minute = 60000000000

-- The bounds that the source puts on a count of attempts.
unfoldable pub clamp : ℕ → ℤ → ℕ
clamp high (pos n) = if ltb n 1 then 1 else if ltb high n then high else n
clamp high (negsuc n) = 1

-- The shift is of at most 29 places: the product fits an int64.
unfoldable pub backoff_duration : ℤ → ℕ
unfolding clamp doubled
backoff_duration attempts =
    let delay = doubled (clamp 30 attempts - 1) 1 * second in
    if ltb minute delay then minute else delay

unfoldable pub scheduled_retry_delay : ℤ → ℕ
unfolding clamp doubled
scheduled_retry_delay attempt =
    let delay = doubled (clamp 7 attempt - 1) 1 * second in
    if ltb minute delay then minute else delay

abbrev pub max_delivery_retry_delay : ℕ
max_delivery_retry_delay = 300000000000

-- The loop, which runs while `n < attempt`: at most `attempt - 1` times.
unfoldable pub double_ceiling : ℕ → ℕ → ℕ
double_ceiling zero ceiling = ceiling
double_ceiling (suc k) ceiling =
    let rest = double_ceiling k (ceiling * 2) in
    if ltb ceiling max_delivery_retry_delay
    then (if ltb (max_delivery_retry_delay / 2) ceiling then max_delivery_retry_delay else rest)
    else ceiling

abbrev pub base_delay : ℤ → ℕ
base_delay base = if is_positive base then pos_part base else 5000000000

-- No metadata, or a count of 0, is the first attempt.
abbrev pub attempt_of : Option ℕ → ℕ
attempt_of none = 1
attempt_of (some n) = if ltb 0 n then n else 1

unfoldable pub retry_ceiling : ℤ → Option ℕ → ℕ
unfolding double_ceiling
retry_ceiling base attempt =
    let ceiling = double_ceiling (attempt_of attempt - 1) (base_delay base) in
    if ltb max_delivery_retry_delay ceiling then max_delivery_retry_delay else ceiling

-- `random n` is `rand.Int64N(n)`.
unfoldable pub retry_delay_for_delivery : (ℕ → ℕ) → ℤ → Option ℕ → ℕ
unfolding retry_ceiling
retry_delay_for_delivery random base attempt =
    let ceiling = retry_ceiling base attempt in
    let lower = ceiling / 2 in
    let jitter_range = ceiling - lower in
    if leb jitter_range 0 then ceiling else lower + random (jitter_range + 1)
