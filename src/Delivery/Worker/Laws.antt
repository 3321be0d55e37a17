-- ===== src/Delivery/Worker/Laws.antt =====
-- How internal/application/worker_delivery.go settles a delivery.
use kafka_simulate_rule.Prelude.{
  [], ◌+◌, none, ℤ, true, ◌&&◌, ◌∷◌, some, false, ℕ, Bool, ◌≡◌, Option, List,
}
use kafka_simulate_rule.Delivery.Worker.{
  naking, acking, token_or_zero, submitting, quarantining, retrying, Step, Delivery, Act,
}
use kafka_simulate_rule.Domain.Errors.{error_text, classify_error, GoError, is_permanent}
use kafka_simulate_rule.Domain.Event.{virtual_shard, EventEnvelope}
use kafka_simulate_rule.Domain.Result.{ok, Result}
use kafka_simulate_rule.Domain.Execution.{Execution}

abbrev pub settles : Act → ℕ
settles acking = 1
settles naking = 1
settles (retrying delay) = 1
settles (quarantining source event tenant class text) = 0
settles (submitting token shard) = 0

abbrev pub settlements : List Act → ℕ
settlements [] = 0
settlements (a ∷ acts) = settles a + settlements acts

abbrev pub acks : List Act → Bool
acks [] = false
acks (acking ∷ acts) = true
acks (naking ∷ acts) = acks acts
acks (retrying delay ∷ acts) = acks acts
acks (quarantining source event tenant class text ∷ acts) = acks acts
acks (submitting token shard ∷ acts) = acks acts

abbrev pub is_nil : Option GoError → Bool
is_nil none = true
is_nil (some e) = false

-- Was the error that stands in the way of the event kept in the quarantine?
unfoldable pub is_kept : Delivery → Option GoError → Bool
unfolding is_permanent classify_error error_text
is_kept d none = true
is_kept d (some e) =
    is_permanent (some e) && is_nil (d.quarantine (classify_error (some e)) (error_text e))

record Settled (d : Delivery) (failed : Option GoError) (s : Step) : Type 0 where
  once : settlements s.1 ≡ 1
  acked : acks s.1 ≡ is_kept d failed
  reported : is_nil s.0 ≡ (acks s.1 && is_nil d.ack)

-- A delivery that was handed to the queue of its shard.
pub record IsSubmitted (d : Delivery) (parsed : Result (Option EventEnvelope)) (n : ℕ)
    (owner : ℕ → Bool) (token : ℕ → Option ℤ) (s : Step) : Type 0 where
  pub event : EventEnvelope
  pub read : parsed ≡ ok (some event)
  pub owned : owner (virtual_shard event n) ≡ true
  pub accepted :
      d.submit (token_or_zero d (token (virtual_shard event n))) (virtual_shard event n) ≡ none
  pub acts :
      s.1
      ≡ submitting (token_or_zero d (token (virtual_shard event n))) (virtual_shard event n) ∷ []
