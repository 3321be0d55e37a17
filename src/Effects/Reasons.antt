-- ===== src/Effects/Reasons.antt =====
-- Why the publisher of internal/services/effects/service.go makes each of its calls.
-- The calls that are made, each with what must have happened just before it: the sender's answer, and the
-- attempts that the claimed effect has left.
use kafka_simulate_rule.Effects.{
  Pass, publish_claimed, reschedule, after_save, settle, publish_each, publish_batch, publish_one,
  give_up, delete_call, retry_call, quarantine_call, deliver_call, save_call, effect_of, key_of,
  send_call, id_call, claim_call, entry_for, after_mark, Call, History, Service,
}
use kafka_simulate_rule.Prelude.{
  ◌⊎◌, All-imp, Option, All, is_positive, not, if_both, refl, Bool-cases, inr, ◌<>◌, inl, List,
  Option-cases, false, true, increment, ltb_ℤ, some, none, ◌≡◌, [], ℤ, ◌∷◌, String,
}
use kafka_simulate_rule.Domain.Outbox.{QuarantineEntry, OutboxEffect}
use kafka_simulate_rule.Domain.Errors.{classify_error, class_text, error_text, GoError}
use kafka_simulate_rule.Delivery.Backoff.{backoff_duration}
use kafka_simulate_rule.Domain.Event.{Time}
use kafka_simulate_rule.Effects.Settlement.{claim_of, token_of}
use kafka_simulate_rule.Domain.Result.Inversion.{Result-cases}
use kafka_simulate_rule.Domain.Result.{ok}

abbrev pub IsOneOf : OutboxEffect → List OutboxEffect → Type 0
IsOneOf ef [] = ⊥
IsOneOf ef (x ∷ xs) = (ef ≡ x) ⊎ IsOneOf ef xs

all_of :
    {P : OutboxEffect → Type 0} (xs : List OutboxEffect)
    → ((ef : OutboxEffect) → IsOneOf ef xs → P ef)
    → All P xs
all_of [] f = tt
all_of (x ∷ xs) f = (f x (inl refl), all_of xs (λ ef h. f ef (inr h)))

-- The effect is one that the last claim of the history was answered with.
abbrev pub IsClaimed : Service → OutboxEffect → History → Type 0
IsClaimed s ef [] = ⊥
IsClaimed s ef (claim_call n token ∷ t) =
    (efs : List OutboxEffect) × (s.claim_pending t n token 120000000000 ≡ ok efs) × IsOneOf ef efs
IsClaimed s ef (id_call ∷ t) = IsClaimed s ef t
IsClaimed s ef (send_call id key ∷ t) = IsClaimed s ef t
IsClaimed s ef (deliver_call id token ∷ t) = IsClaimed s ef t
IsClaimed s ef (retry_call id token delay attempts text ∷ t) = IsClaimed s ef t
IsClaimed s ef (quarantine_call id token text ∷ t) = IsClaimed s ef t
IsClaimed s ef (save_call entry ∷ t) = IsClaimed s ef t
IsClaimed s ef (delete_call tenant id ∷ t) = IsClaimed s ef t

pub data Reason (s : Service) : Call → History → Type 0 where
  claiming : {n : ℤ} {token : String} {t : History} → Reason s (claim_call n token) t
  naming : {t : History} → Reason s id_call t
  sending :
      {t : History} (ef : OutboxEffect)
      → IsClaimed s ef t
      → Reason s (send_call ef.id (key_of ef.id)) t
  delivering :
      {token : String} {t : History} (ef : OutboxEffect)
      → IsClaimed s ef t
      → s.send t (effect_of ef) (key_of ef.id) ≡ none
      → Reason s (deliver_call ef.id token) (send_call ef.id (key_of ef.id) ∷ t)
  retrying :
      {token : String} {t : History} (ef : OutboxEffect) (e : GoError)
      → IsClaimed s ef t
      → s.send t (effect_of ef) (key_of ef.id) ≡ some e
      → ltb_ℤ (increment ef.attempts) ef.max_attempts ≡ true
      → Reason s
          (retry_call ef.id token
            (backoff_duration (increment ef.attempts))
            (increment ef.attempts)
            (error_text e))
          (send_call ef.id (key_of ef.id) ∷ t)
  saving :
      {entry : QuarantineEntry} {t : History} (ef : OutboxEffect) (e : GoError)
      → IsClaimed s ef t
      → s.send t (effect_of ef) (key_of ef.id) ≡ some e
      → ltb_ℤ (increment ef.attempts) ef.max_attempts ≡ false
      → entry.source_id ≡ ef.id
      → entry.error_class ≡ class_text (classify_error (some e))
      → Reason s (save_call entry) (id_call ∷ send_call ef.id (key_of ef.id) ∷ t)
  quarantining :
      {entry : QuarantineEntry} {token text : String} {t : History}
      → s.save t entry ≡ none
      → Reason s (quarantine_call entry.source_id token text) (save_call entry ∷ t)
  deleting :
      {entry : QuarantineEntry} {token text : String} {t : History} (e : GoError)
      → s.quarantine_effect (save_call entry ∷ t) entry.source_id token text ≡ some e
      → Reason s
          (delete_call entry.tenant_id entry.id)
          (quarantine_call entry.source_id token text ∷ save_call entry ∷ t)

-- Every call of a history has its reason.
abbrev pub IsReasoned : Service → History → Type 0
IsReasoned s [] = Unit
IsReasoned s (c ∷ t) = Reason s c t × IsReasoned s t

module _ (s : Service) (token : String) where
  mark-IsReasoned :
      (ef : OutboxEffect) (e : GoError) (id text : String) (now : Time) (t : History)
      → s.save t (entry_for s token ef id e now) ≡ none
      → IsReasoned s (save_call (entry_for s token ef id e now) ∷ t)
      → IsReasoned s
          (after_mark s token ef id
            (s.quarantine_effect (save_call (entry_for s token ef id e now) ∷ t) ef.id token text)
            (quarantine_call ef.id token text ∷ save_call (entry_for s token ef id e now) ∷ t)).1
  unfolding after_mark entry_for
  mark-IsReasoned ef e id text now t saved h =
      let entry : QuarantineEntry = entry_for s token ef id e now in
      let marked : IsReasoned s (quarantine_call ef.id token text ∷ save_call entry ∷ t) =
        (quarantining {entry = entry} saved, h) in
      elim (Option-cases (s.quarantine_effect (save_call entry ∷ t) ef.id token text)) [
        | inl n ↦ rw n marked
        | inr (x, n) ↦ rw n (deleting {entry = entry} x n, marked)
      ]

  give_up-IsReasoned :
      (ef : OutboxEffect) (e : GoError) (t : History)
      → IsClaimed s ef t
      → s.send t (effect_of ef) (key_of ef.id) ≡ some e
      → ltb_ℤ (increment ef.attempts) ef.max_attempts ≡ false
      → IsReasoned s t
      → IsReasoned s (give_up s token ef e (send_call ef.id (key_of ef.id) ∷ t)).1
  unfolding give_up after_save entry_for
  give_up-IsReasoned ef e t mine failed spent h =
      let sent_now : History = send_call ef.id (key_of ef.id) ∷ t in
      let id = key_of ef.id <> ("-" <> s.new_id sent_now) in
      let now = s.now (id_call ∷ sent_now) in
      let entry : QuarantineEntry = entry_for s token ef id e now in
      let named : IsReasoned s (id_call ∷ sent_now) = (naming, (sending ef mine, h)) in
      let kept : IsReasoned s (save_call entry ∷ id_call ∷ sent_now) =
        (saving {entry = entry} ef e mine failed spent refl refl, named) in
      if_both (λ (q : Pass). IsReasoned s q.1) s.has_quarantine
        (elim (Option-cases (s.save (id_call ∷ sent_now) entry)) [
          | inl n ↦ rw n (mark-IsReasoned ef e id (error_text e) now (id_call ∷ sent_now) n kept)
          | inr (x, n) ↦ rw n kept
        ])
        (sending ef mine, h)

  publish_one-IsReasoned :
      (ef : OutboxEffect) (t : History)
      → IsClaimed s ef t
      → IsReasoned s t
      → IsReasoned s (publish_one s token ef t).1
  unfolding publish_one settle reschedule
  publish_one-IsReasoned ef t mine h =
      elim (Option-cases (s.send t (effect_of ef) (key_of ef.id))) [
        | inl n ↦ rw n (delivering ef mine n, (sending ef mine, h))
        | inr (e, n) ↦ rw n (elim (Bool-cases (ltb_ℤ (increment ef.attempts) ef.max_attempts)) [
          | inl b ↦ rw b (retrying ef e mine n b, (sending ef mine, h))
          | inr b ↦ rw b (give_up-IsReasoned ef e t mine n b h)
        ])
      ]

  -- A pass over one effect makes no claim.
  module _ (other : OutboxEffect) where
    after_save-IsClaimed :
        (ef : OutboxEffect) (id text : String) (o : Option GoError) (t : History)
        → IsClaimed s other t
        → IsClaimed s other (after_save s token ef id text o t).1
    unfolding after_save after_mark
    after_save-IsClaimed ef id text (some e) t h = h
    after_save-IsClaimed ef id text none t h =
        elim (Option-cases (s.quarantine_effect t ef.id token text)) [
          | inl n ↦ rw n h
          | inr (x, n) ↦ rw n h
        ]

    give_up-IsClaimed :
        (ef : OutboxEffect) (e : GoError) (t : History)
        → IsClaimed s other t
        → IsClaimed s other (give_up s token ef e t).1
    unfolding give_up
    give_up-IsClaimed ef e t h =
        let id = key_of ef.id <> ("-" <> s.new_id t) in
        let entry : QuarantineEntry = entry_for s token ef id e (s.now (id_call ∷ t)) in
        if_both (λ (q : Pass). IsClaimed s other q.1) s.has_quarantine
          (after_save-IsClaimed ef id (error_text e) (s.save (id_call ∷ t) entry)
            (save_call entry ∷ id_call ∷ t) h)
          h

    publish_one-IsClaimed :
        (ef : OutboxEffect) (t : History)
        → IsClaimed s other t
        → IsClaimed s other (publish_one s token ef t).1
    unfolding publish_one settle reschedule
    publish_one-IsClaimed ef t h = elim (Option-cases (s.send t (effect_of ef) (key_of ef.id))) [
      | inl n ↦ rw n h
      | inr (e, n) ↦ rw n (
          if_both (λ (q : Pass). IsClaimed s other q.1)
            (ltb_ℤ (increment ef.attempts) ef.max_attempts) h
            (give_up-IsClaimed ef e (send_call ef.id (key_of ef.id) ∷ t) h))
    ]

  -- The effects that are left are claimed.
  abbrev AllClaimed : List OutboxEffect → History → Type 0
  AllClaimed efs t = All (λ ef. IsClaimed s ef t) efs

  publish_each-IsReasoned :
      (efs : List OutboxEffect) (t : History)
      → AllClaimed efs t
      → IsReasoned s t
      → IsReasoned s (publish_each s token efs t).1
  unfolding publish_each
  publish_each-IsReasoned [] t mine h = h
  publish_each-IsReasoned (ef ∷ efs) t mine h =
      publish_each-IsReasoned efs (publish_one s token ef t).1
        (All-imp efs (λ other. publish_one-IsClaimed other ef t) mine.1)
        (publish_one-IsReasoned ef t mine.0 h)

-- Every call of the publisher has its reason, whatever the repositories and the sender answer: an effect is
-- of the last claim is marked delivered only right after the sender has taken it; it is put back, with its attempts counted and
-- the backoff of that count, only after a failure with attempts left; an entry of the quarantine, with the
-- class of the sender's error, is saved only after a failure of the last attempt; an effect is marked
-- quarantined only once its entry is saved; and an entry is deleted only when that mark was refused.
pub publish_batch-IsReasoned :
    (s : Service) (n : ℤ) (t : History) → IsReasoned s t → IsReasoned s (publish_batch s n t).1
unfolding publish_batch publish_claimed
publish_batch-IsReasoned s n t h =
    let P : Pass → Type 0 = λ q. IsReasoned s q.1 in
    let token = token_of s t in
    let start : IsReasoned s (claim_call n token ∷ id_call ∷ t) = (claiming, (naming, h)) in
    if_both P (not s.has_outbox) h (
      if_both P (not s.has_sender) h (
        if_both P (not (is_positive n)) h (elim (Result-cases (claim_of s n t)) [
          | inl (efs, c) ↦
              rw c (publish_each-IsReasoned s token efs _ (all_of efs (λ ef m. (efs, c, m))) start)
          | inr (e, c) ↦ rw c start
        ])))
