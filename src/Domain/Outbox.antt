-- ===== src/Domain/Outbox.antt =====
-- internal/domain/types.go: an effect in the outbox and an entry of the inbox. A method that writes to its
-- receiver returns the new receiver, or the error, which leaves the receiver as it was.
pub mod Laws
mod Tests
use kafka_simulate_rule.Prelude.{
  suc, ◌-◌, negsuc, some, ◌<>◌, ◌+◌, pos, if◌then◌else◌, false, ◌&&◌, ℤ, not, true, Option, String,
  Bool,
}
use kafka_simulate_rule.Domain.Event.{is_empty, Time}
use kafka_simulate_rule.Domain.Rule.{EffectType}
use kafka_simulate_rule.Domain.Result.{err, ok, Result}
use kafka_simulate_rule.Domain.Errors.{message, GoError}

-- The status is a string in the source, of which the code writes these five.
pub data OutboxStatus : Type 0 where
  pending claimed delivered failed quarantined : OutboxStatus

pub outbox_status_text : OutboxStatus → String
outbox_status_text pending = "pending"
outbox_status_text claimed = "claimed"
outbox_status_text delivered = "delivered"
outbox_status_text failed = "failed"
outbox_status_text quarantined = "quarantined"

pub record OutboxEffect : Type 0 where
  pub id : String
  pub execution_id : String
  pub tenant_id : String
  pub destination : String
  pub name : String
  pub payload : String
  pub effect_type : EffectType
  pub status : OutboxStatus
  pub attempts : ℤ
  pub max_attempts : ℤ
  pub available_at : Time
  pub claimed_by : String
  pub claimed_at : Option Time
  pub claim_expires_at : Option Time
  pub last_error : String
  pub created_at : Time
  pub updated_at : Time

-- `now.Add(delay)`; a time before Go's zero time is that time.
abbrev pub add_duration : Time → ℤ → Time
add_duration now (pos d) = now + d
add_duration now (negsuc d) = now - suc d

abbrev pub is_pending : OutboxStatus → Bool
is_pending pending = true
is_pending _ = false

abbrev pub is_claimed : OutboxStatus → Bool
is_claimed claimed = true
is_claimed _ = false

abbrev pub refuse : String → OutboxStatus → GoError
unfolding outbox_status_text
refuse verb s = message ("cannot " <> (verb <> (" effect in state " <> outbox_status_text s)))

-- The claimant is not recorded.
unfoldable pub claim : OutboxEffect → String → Time → Result OutboxEffect
claim e claimant now =
    if is_pending e.status
    then ok (record e { status = claimed; updated_at = now })
    else err (refuse "claim" e.status)

unfoldable pub deliver : OutboxEffect → Time → Result OutboxEffect
deliver e now =
    if is_claimed e.status
    then ok (record e { status = delivered; updated_at = now })
    else err (refuse "deliver" e.status)

unfoldable pub retry : OutboxEffect → Time → ℤ → ℤ → String → Result OutboxEffect
retry e now delay attempts err_msg =
    if is_claimed e.status
    then ok (record e {
      status = pending;
      attempts = attempts;
      available_at = add_duration now delay;
      last_error = err_msg;
      updated_at = now;
    })
    else err (refuse "retry" e.status)

unfoldable pub quarantine : OutboxEffect → Time → String → Result OutboxEffect
quarantine e now err_msg =
    if is_claimed e.status
    then ok (record e { status = quarantined; last_error = err_msg; updated_at = now })
    else err (refuse "quarantine" e.status)

pub record QuarantineEntry : Type 0 where
  pub id : String
  pub source_type : String
  pub source_id : String
  pub error_class : String
  pub payload_ref : String
  pub event_id : String
  pub tenant_id : String
  pub error : String
  pub created_at : Time

pub data InboxStatus : Type 0 where
  processing committed : InboxStatus

pub inbox_status_text : InboxStatus → String
inbox_status_text processing = "processing"
inbox_status_text committed = "committed"

-- A nil payload is the empty text.
pub record InboxEntry : Type 0 where
  pub tenant_id : String
  pub event_id : String
  pub status : InboxStatus
  pub execution_id : String
  pub partition_key : String
  pub rule_set : String
  pub payload : String
  pub batch_id : String
  pub first_seen_at : Time
  pub committed_at : Option Time

abbrev pub is_processing : InboxStatus → Bool
is_processing processing = true
is_processing committed = false

unfoldable pub commit : InboxEntry → String → Time → Result InboxEntry
unfolding inbox_status_text
commit e execution_id now =
    if is_processing e.status
    then ok (record e { status = committed; execution_id = execution_id; committed_at = some now })
    else err (message ("cannot commit inbox entry in state " <> inbox_status_text e.status))

unfoldable pub is_duplicate : InboxEntry → Bool
is_duplicate e = not (is_processing e.status) && not (is_empty e.execution_id)
