-- ===== src/Delivery/Backoff/Laws.antt =====
-- The retry delays are capped doublings.
use Prim.Native.Nat.{min}
use kafka_simulate_rule.Delivery.Backoff.{
  retry_delay_for_delivery, base_delay, attempt_of, minute, max_delivery_retry_delay, second, clamp,
  scheduled_retry_delay, double_ceiling, retry_ceiling, backoff_duration, doubled,
}
use kafka_simulate_rule.Prelude.{
  ◌/◌, negsuc, sym, ◌-◌, ap, refl, zero, ◌∙◌, suc, pos, arith, Option, ◌<◌, ltb, ◌≡◌, ◌+◌,
  if◌then◌else◌, ◌*◌, ◌≤◌, ℤ, ℕ,
}

pub doubled-ge : (k c : ℕ) → c ≤ doubled k c
unfolding doubled
doubled-ge zero c = omega arith
doubled-ge (suc k) c = omega (arith, doubled-ge k (c * 2))

doubled-scale : (k c : ℕ) → doubled k c * second ≡ doubled k (c * second)
unfolding doubled
doubled-scale zero c = refl
doubled-scale (suc k) c = doubled-scale k (c * 2) ∙ ap (doubled k) (omega arith)

doubled_mono : (j k c : ℕ) → j ≤ k → doubled j c ≤ doubled k c
unfolding doubled
doubled_mono zero k c h = doubled-ge k c
doubled_mono (suc j) zero c h = absurd (omega arith)
doubled_mono (suc j) (suc k) c h = doubled_mono j k (c * 2) (omega arith)

six : doubled 6 second ≡ 64000000000
unfolding doubled
six = refl

capped : (cap delay : ℕ) → (if ltb cap delay then cap else delay) ≡ min cap delay
capped cap delay = ground arith

shifted : ℕ → ℤ → ℕ
unfolding clamp doubled
shifted high attempts =
    let delay = doubled (clamp high attempts - 1) 1 * second in
    if ltb minute delay then minute else delay

-- A bound on the shift of 7 or more lies beyond the minute.
within :
    (high n : ℕ) → 1 ≤ n → 7 ≤ high → shifted high (pos n) ≡ min minute (doubled (n - 1) second)
unfolding shifted clamp
within high n h l = ground (
  arith,
  capped minute (doubled (n - 1) 1 * second),
  capped minute (doubled (high - 1) 1 * second),
  doubled-scale (n - 1) 1,
  doubled-scale (high - 1) 1,
  doubled_mono 6 (n - 1) second,
  doubled_mono 6 (high - 1) second,
  six,
)

-- The delay of an effect after its attempt `n`, and that of a scheduled event, is one second doubled
-- `n - 1` times and at most a minute, however large `n` is: the bounds on the shift do not show.
pub backoff_duration-doubled :
    (n : ℕ)
    → 1 ≤ n
    → (backoff_duration (pos n) ≡ min minute (doubled (n - 1) second))
      × (scheduled_retry_delay (pos n) ≡ backoff_duration (pos n))
unfolding backoff_duration scheduled_retry_delay shifted
backoff_duration-doubled n h =
    (within 30 n h (omega arith), within 7 n h (omega arith) ∙ sym (within 30 n h (omega arith)))

double_ceiling-min :
    (k c : ℕ)
    → 0 < c
    → min max_delivery_retry_delay (double_ceiling k c) ≡ min max_delivery_retry_delay (doubled k c)
unfolding doubled double_ceiling
double_ceiling-min zero c h = refl
double_ceiling-min (suc k) c h =
    ground (arith, double_ceiling-min k (c * 2) (omega arith), doubled-ge k (c * 2))

base_delay-pos : (base : ℤ) → 0 < base_delay base
base_delay-pos (pos n) = ground arith
base_delay-pos (negsuc n) = omega arith

retry_ceiling-doubled :
    (base : ℤ) (attempt : Option ℕ)
    → retry_ceiling base attempt
      ≡ min max_delivery_retry_delay (doubled (attempt_of attempt - 1) (base_delay base))
unfolding retry_ceiling
retry_ceiling-doubled base attempt =
    capped _ _ ∙ double_ceiling-min (attempt_of attempt - 1) (base_delay base) (base_delay-pos base)

-- The delay before a broker delivers an event again lies between the half and the whole of the ceiling,
-- which is the base delay (5 seconds where none is set) doubled once for each attempt before this one,
-- and at most 5 minutes, if the random source stays below its bound.
pub retry_delay_for_delivery-bounds :
    (random : ℕ → ℕ) (base : ℤ) (attempt : Option ℕ)
    → ((n : ℕ) → 0 < n → random n < n)
    → (min max_delivery_retry_delay (doubled (attempt_of attempt - 1) (base_delay base)) / 2
        ≤ retry_delay_for_delivery random base attempt)
      × (retry_delay_for_delivery random base attempt
          ≤ min max_delivery_retry_delay (doubled (attempt_of attempt - 1) (base_delay base)))
unfolding retry_delay_for_delivery
retry_delay_for_delivery-bounds random base attempt r =
    let c = retry_ceiling base attempt in
    let below : random (c - c / 2 + 1) < c - c / 2 + 1 = r (c - c / 2 + 1) (omega arith) in
    rw (sym (retry_ceiling-doubled base attempt)) (ground arith, ground arith)
