-- ===== src/Effects.antt =====
-- internal/services/effects/service.go. The repositories and the sender are outside: what they answer is a
-- function of the calls made before, newest first, so a pass of the publisher is a trace of its calls.
pub mod Settlement
pub mod Reasons
mod Tests
use kafka_simulate_rule.Prelude.{
  is_positive, none, ltb_ℤ, [], not, some, ◌++◌, ◌<>◌, ℕ, ◌∷◌, increment, ◌∷◌, if◌then◌else◌, Bool,
  ℤ, String, List, Option,
}
use kafka_simulate_rule.Domain.Outbox.{QuarantineEntry, OutboxEffect}
use kafka_simulate_rule.Domain.Errors.{
  message, wrap, classify_error, class_text, error_text, GoError,
}
use kafka_simulate_rule.Domain.Event.{is_empty, Time}
use kafka_simulate_rule.Delivery.Backoff.{backoff_duration}
use kafka_simulate_rule.Domain.Result.{ok, err, Result}
use kafka_simulate_rule.Domain.Rule.{Effect}

-- What the service calls, with the arguments that matter.
pub data Call : Type 0 where
  claim_call : ℤ → String → Call
  id_call : Call
  send_call : String → String → Call
  deliver_call : String → String → Call
  retry_call : String → String → ℕ → ℤ → String → Call
  quarantine_call : String → String → String → Call
  save_call : QuarantineEntry → Call
  delete_call : String → String → Call

abbrev pub History : Type 0
History = List Call

-- `none` is a nil error. `has_outbox`, `has_sender` and `has_quarantine` say whether the dependency is there.
pub record Service : Type 0 where
  pub has_outbox : Bool
  pub has_sender : Bool
  pub has_quarantine : Bool
  pub claimant : String
  pub now : History → Time
  pub new_id : History → String
  pub claim_pending : History → ℤ → String → ℕ → Result (List OutboxEffect)
  pub send : History → Effect → String → Option GoError
  pub mark_delivered : History → List String → String → Option GoError
  pub schedule_retry : History → String → String → ℕ → ℤ → String → Option GoError
  pub quarantine_effect : History → String → String → String → Option GoError
  pub save : History → QuarantineEntry → Option GoError
  pub delete : History → String → String → Option GoError

-- An empty name of the claimant is replaced.
unfoldable pub claimant_of : String → String
claimant_of name = if is_empty name then "publisher" else name

-- The errors that `errors.Join` takes at the end, oldest first: its result is nil if there is none. The
-- history is as the calls leave it.
abbrev pub Pass : Type 0
Pass = List GoError × History

abbrev pub failure : String → Option GoError → List GoError
failure text none = []
failure text (some e) = wrap text e ∷ []

abbrev pub effect_of : OutboxEffect → Effect
effect_of ef = record {
  id = ef.id;
  execution_id = ef.execution_id;
  tenant_id = ef.tenant_id;
  destination = ef.destination;
  name = ef.name;
  payload = ef.payload;
  effect_type = ef.effect_type;
  created_at = ef.created_at;
}

abbrev pub key_of : String → String
key_of id = "effect-" <> id

module _ (s : Service) (token : String) where
  -- After `outbox.Quarantine`: an orphan of the quarantine is removed.
  unfoldable pub after_mark : OutboxEffect → String → Option GoError → History → Pass
  after_mark ef id none t = ([], t)
  after_mark ef id (some e) t = (
    wrap ("mark effect " <> (ef.id <> " quarantined: ")) e
        ∷ failure ("remove orphan quarantine for effect " <> (ef.id <> ": "))
            (s.delete t ef.tenant_id id),
    delete_call ef.tenant_id id ∷ t,
  )

  -- After `quarantine.Save`.
  unfoldable pub after_save : OutboxEffect → String → String → Option GoError → History → Pass
  unfolding after_mark
  after_save ef id text (some e) t =
      (wrap ("persist quarantine for effect " <> (ef.id <> ": ")) e ∷ [], t)
  after_save ef id text none t =
      after_mark ef id (s.quarantine_effect t ef.id token text)
        (quarantine_call ef.id token text ∷ t)

  unfoldable pub entry_for : OutboxEffect → String → GoError → Time → QuarantineEntry
  unfolding error_text class_text classify_error
  entry_for ef id e now = record {
    id = id;
    source_type = "effect";
    source_id = ef.id;
    error_class = class_text (classify_error (some e));
    payload_ref = "";
    event_id = "";
    tenant_id = ef.tenant_id;
    error = error_text e;
    created_at = now;
  }

  -- The last attempt has failed. The closing parenthesis of the first text is not kept.
  unfoldable pub give_up : OutboxEffect → GoError → History → Pass
  unfolding after_save error_text entry_for
  give_up ef e t =
      let id = key_of ef.id <> ("-" <> s.new_id t) in
      let entry = entry_for ef id e (s.now (id_call ∷ t)) in
      if s.has_quarantine
      then after_save ef id (error_text e) (s.save (id_call ∷ t) entry)
          (save_call entry ∷ id_call ∷ t)
      else (
        wrap
              ("quarantine effect "
                <> (ef.id <> ": quarantine repository is not configured (send error: "))
              e
            ∷ [],
        t,
      )

  unfoldable pub reschedule : OutboxEffect → GoError → ℤ → History → Pass
  unfolding backoff_duration error_text
  reschedule ef e attempts t =
      let delay = backoff_duration attempts in
      (
        failure ("schedule retry for effect " <> (ef.id <> ": "))
            (s.schedule_retry t ef.id token delay attempts (error_text e)),
        retry_call ef.id token delay attempts (error_text e) ∷ t,
      )

  -- What follows the answer of the sender.
  unfoldable pub settle : OutboxEffect → Option GoError → History → Pass
  unfolding give_up reschedule increment
  settle ef none t = (
    failure ("mark effect " <> (ef.id <> " delivered: ")) (s.mark_delivered t (ef.id ∷ []) token),
    deliver_call ef.id token ∷ t,
  )
  settle ef (some e) t =
      let attempts = increment ef.attempts in
      if ltb_ℤ attempts ef.max_attempts then reschedule ef e attempts t else give_up ef e t

  unfoldable pub publish_one : OutboxEffect → History → Pass
  unfolding settle
  publish_one ef t =
      settle ef (s.send t (effect_of ef) (key_of ef.id)) (send_call ef.id (key_of ef.id) ∷ t)

  unfoldable pub publish_each : List OutboxEffect → History → Pass
  unfolding publish_one
  publish_each [] t = ([], t)
  publish_each (ef ∷ efs) t =
      let (failures, t1) = publish_one ef t in
      let (others, t2) = publish_each efs t1 in (failures ++ others, t2)

unfoldable pub publish_claimed : Service → String → Result (List OutboxEffect) → History → Pass
unfolding publish_each
publish_claimed s token (err e) t = (wrap "claim pending: " e ∷ [], t)
publish_claimed s token (ok efs) t = publish_each s token efs t

-- The claim lasts two minutes.
unfoldable pub publish_batch : Service → ℤ → History → Pass
unfolding publish_claimed
publish_batch s batch_size t =
    let token = s.claimant <> ("-" <> s.new_id t) in
    let claimed = s.claim_pending (id_call ∷ t) batch_size token 120000000000 in
    if not s.has_outbox
    then (message "publish effects: outbox repository is not configured" ∷ [], t)
    else if not s.has_sender
    then (message "publish effects: effect sender is not configured" ∷ [], t)
    else if not (is_positive batch_size)
    then ([], t)
    else publish_claimed s token claimed (claim_call batch_size token ∷ id_call ∷ t)

-- `none` is a nil effect.
unfoldable pub dispatch : Service → Option Effect → History → Option GoError × History
dispatch s none t = (some (message "dispatch effect: effect is nil"), t)
dispatch s (some ef) t =
    if not s.has_sender
    then (some (message "dispatch effect: effect sender is not configured"), t)
    else (s.send t ef (key_of ef.id), send_call ef.id (key_of ef.id) ∷ t)
