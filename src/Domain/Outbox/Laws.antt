-- ===== src/Domain/Outbox/Laws.antt =====
-- The outbox effect and the inbox entry of internal/domain/types.go as state machines.
-- A call of one of the methods.
use kafka_simulate_rule.Domain.Outbox.{
  quarantine, is_pending, retry, is_claimed, deliver, claim, OutboxEffect,
}
use kafka_simulate_rule.Prelude.{arith, not, ℤ, false, ◌≡◌, ℕ, ◌+◌, true, String, Bool}
use kafka_simulate_rule.Domain.Event.{Time}
use kafka_simulate_rule.Domain.Result.{Result, ok}

pub data Call : Type 0 where
  claiming : String → Time → Call
  delivering : Time → Call
  retrying : Time → ℤ → ℤ → String → Call
  quarantining : Time → String → Call

unfoldable pub perform : Call → OutboxEffect → Result OutboxEffect
unfolding claim deliver retry quarantine
perform (claiming who now) e = claim e who now
perform (delivering now) e = deliver e now
perform (retrying now delay n m) e = retry e now delay n m
perform (quarantining now m) e = quarantine e now m

abbrev pub is_claiming : Call → Bool
is_claiming (claiming who now) = true
is_claiming _ = false

abbrev pub count : Bool → ℕ
count true = 1
count false = 0

-- A run of calls that all succeed, with the number of claims and of settlements (deliveries, retries and
-- quarantines) among them.
pub data Run : OutboxEffect → ℕ → ℕ → OutboxEffect → Type 0 where
  start : {e : OutboxEffect} → Run e 0 0 e
  next :
      {e f g : OutboxEffect} {claims settlements : ℕ} (c : Call)
      → Run e claims settlements f
      → perform c f ≡ ok g
      → Run e (claims + count (is_claiming c)) (settlements + count (not (is_claiming c))) g

-- What every run keeps of an effect.
pub record Kept (e f : OutboxEffect) : Type 0 where
  pub same_id : f.id ≡ e.id
  pub same_execution : f.execution_id ≡ e.execution_id
  pub same_destination : f.destination ≡ e.destination
  pub same_payload : f.payload ≡ e.payload
  pub same_max_attempts : f.max_attempts ≡ e.max_attempts

record Step (c : Call) (f g : OutboxEffect) : Type 0 where
  kept : Kept f g
  ledger :
      count (is_claiming c) + count (is_claimed f.status)
      ≡ count (not (is_claiming c)) + count (is_claimed g.status)

step : (c : Call) (f g : OutboxEffect) → perform c f ≡ ok g → Step c f g
unfolding perform claim deliver retry quarantine
step (claiming who now) f g h = ground arith
step (delivering now) f g h = ground arith
step (retrying now delay n m) f g h = ground arith
step (quarantining now m) f g h = ground arith

-- In a run from a pending effect the claims are as many as the settlements, and one more while the effect
-- is claimed: it is settled once for each claim. The identity, the execution, the destination, the
-- payload and the limit of attempts stay.
pub Run-ledger :
    {e f : OutboxEffect} {claims settlements : ℕ}
    → is_pending e.status ≡ true
    → Run e claims settlements f
    → (claims ≡ settlements + count (is_claimed f.status)) × Kept e f
Run-ledger h start = ground arith
Run-ledger h (next c r p) = ground (arith, Run-ledger h r, step c _ _ p)
