-- ===== src/Effects/Settlement.antt =====
-- A pass of the publisher of internal/services/effects/service.go as its trace shows it.
use kafka_simulate_rule.Effects.{
  publish_batch, entry_for, effect_of, publish_one, reschedule, settle, publish_each, give_up,
  key_of, after_save, id_call, delete_call, save_call, claim_call, retry_call, send_call,
  quarantine_call, deliver_call, after_mark, Pass, History, Service,
}
use kafka_simulate_rule.Domain.Outbox.{QuarantineEntry, OutboxEffect}
use kafka_simulate_rule.Prelude.{
  sym, is_positive, length-append, ◌++◌, increment, ◌+◌, ap, ◌≤◌, ◌<>◌, ◌∙◌, ltb_ℤ, ℤ, Bool-cases,
  refl, arith, inr, length, none, inl, false, ◌<◌, if◌then◌else◌, Option-cases, some, ◌⊎◌, [], ◌≡◌,
  true, ◌∷◌, Bool, List, String, Option,
}
use kafka_simulate_rule.Domain.Errors.{error_text, GoError}
use kafka_simulate_rule.Delivery.Backoff.{backoff_duration}
use kafka_simulate_rule.Domain.Result.{ok, Result}

abbrev pub is_nil : Option GoError → Bool
is_nil none = true
is_nil (some e) = false

-- The settlements that the outbox accepted, with their tokens, newest first.
unfoldable pub settled : Service → History → List (String × String)
settled s [] = []
settled s (deliver_call id token ∷ t) =
    let rest = settled s t in
    if is_nil (s.mark_delivered t (id ∷ []) token) then (id, token) ∷ rest else rest
settled s (retry_call id token delay attempts text ∷ t) =
    let rest = settled s t in
    if is_nil (s.schedule_retry t id token delay attempts text) then (id, token) ∷ rest else rest
settled s (quarantine_call id token text ∷ t) =
    let rest = settled s t in
    if is_nil (s.quarantine_effect t id token text) then (id, token) ∷ rest else rest
settled s (claim_call n token ∷ t) = settled s t
settled s (id_call ∷ t) = settled s t
settled s (send_call id key ∷ t) = settled s t
settled s (save_call entry ∷ t) = settled s t
settled s (delete_call tenant id ∷ t) = settled s t

-- The sends, with their keys, newest first.
unfoldable pub sent : History → List (String × String)
sent [] = []
sent (send_call id key ∷ t) = (id, key) ∷ sent t
sent (deliver_call id token ∷ t) = sent t
sent (retry_call id token delay attempts text ∷ t) = sent t
sent (quarantine_call id token text ∷ t) = sent t
sent (claim_call n token ∷ t) = sent t
sent (id_call ∷ t) = sent t
sent (save_call entry ∷ t) = sent t
sent (delete_call tenant id ∷ t) = sent t

-- What the effects put on top of a list, one each, the last one on top.
unfoldable pub stacked {ℓ} : {A : Type ℓ} → (OutboxEffect → A) → List OutboxEffect → List A → List A
stacked f [] acc = acc
stacked f (ef ∷ efs) acc = stacked f efs (f ef ∷ acc)

-- One effect is settled with no failure, or is not settled with at least one.
record Settles (s : Service) (token : String) (ef : OutboxEffect) (t : History) (p : Pass)
    : Type 0 where
  once : sent p.1 ≡ sent t
  done :
      ((p.0 ≡ []) × (settled s p.1 ≡ (ef.id, token) ∷ settled s t))
      ⊎ ((0 < length p.0) × (settled s p.1 ≡ settled s t))

append-eq-nil {ℓ} : {A : Type ℓ} (xs ys : List A) → xs ++ ys ≡ [] → (xs ≡ []) × (ys ≡ [])
append-eq-nil [] ys h = (refl, h)
append-eq-nil (x ∷ xs) ys h = (cc h, cc h)

module _ (s : Service) (token : String) where
  mark-Settles :
      (ef : OutboxEffect) (id text : String) (t : History)
      → Settles s token ef t (
          after_mark s token ef id
            (s.quarantine_effect t ef.id token text)
            (quarantine_call ef.id token text ∷ t))
  unfolding after_mark settled sent
  mark-Settles ef id text t = elim (Option-cases (s.quarantine_effect t ef.id token text)) [
    | inl n ↦ rw n (record { once = refl; done = inl (refl, rw n refl) })
    | inr (e, n) ↦ rw n (record { once = refl; done = inr (omega arith, rw n refl) })
  ]

  save-Settles :
      (ef : OutboxEffect) (id text : String) (entry : QuarantineEntry) (t : History)
      → Settles s token ef t (after_save s token ef id text (s.save t entry) (save_call entry ∷ t))
  unfolding after_save settled sent
  save-Settles ef id text entry t = elim (Option-cases (s.save t entry)) [
    | inl n ↦ rw n (
        let m = mark-Settles ef id text (save_call entry ∷ t) in
        record { once = m.once; done = m.done })
    | inr (e, n) ↦ rw n (record { once = refl; done = inr (omega arith, refl) })
  ]

  give_up-Settles :
      (ef : OutboxEffect) (e : GoError) (t : History)
      → Settles s token ef t (give_up s token ef e t)
  unfolding give_up settled sent
  give_up-Settles ef e t = elim (Bool-cases s.has_quarantine) [
    | inl h ↦ rw h (
        let m =
          save-Settles ef (key_of ef.id <> ("-" <> s.new_id t)) (error_text e)
            (entry_for s token ef (key_of ef.id <> ("-" <> s.new_id t)) e (s.now (id_call ∷ t)))
            (id_call ∷ t) in
        record { once = m.once; done = m.done })
    | inr h ↦ rw h (record { once = refl; done = inr (omega arith, refl) })
  ]

  reschedule-Settles :
      (ef : OutboxEffect) (e : GoError) (attempts : ℤ) (t : History)
      → Settles s token ef t (reschedule s token ef e attempts t)
  unfolding reschedule settled sent
  reschedule-Settles ef e attempts t =
      elim (Option-cases
        (s.schedule_retry t ef.id token (backoff_duration attempts) attempts (error_text e))) [
          | inl n ↦ record { once = refl; done = inl (rw n refl, rw n refl) }
          | inr (x, n) ↦ record { once = refl; done = inr (rw n (omega arith), rw n refl) }
        ]

  settle-Settles :
      (ef : OutboxEffect) (t : History) (id key : String)
      → Settles s token ef
          (send_call id key ∷ t)
          (settle s token ef (s.send t (effect_of ef) key) (send_call id key ∷ t))
  unfolding settle settled sent
  settle-Settles ef t id key = elim (Option-cases (s.send t (effect_of ef) key)) [
    | inl n ↦
        rw n (elim (Option-cases (s.mark_delivered (send_call id key ∷ t) (ef.id ∷ []) token)) [
          | inl m ↦ record { once = refl; done = inl (rw m refl, rw m refl) }
          | inr (x, m) ↦ record { once = refl; done = inr (rw m (omega arith), rw m refl) }
        ])
    | inr (e, n) ↦ rw n (elim (Bool-cases (ltb_ℤ (increment ef.attempts) ef.max_attempts)) [
      | inl b ↦ rw b (reschedule-Settles ef e (increment ef.attempts) (send_call id key ∷ t))
      | inr b ↦ rw b (give_up-Settles ef e (send_call id key ∷ t))
    ])
  ]

  -- The effects that are sent, each under the key of its identity.
  abbrev pub keyed : OutboxEffect → String × String
  keyed ef = (ef.id, key_of ef.id)

  abbrev pub tokened : OutboxEffect → String × String
  tokened ef = (ef.id, token)

  publish_each-sent :
      (efs : List OutboxEffect) (t : History)
      → sent (publish_each s token efs t).1 ≡ stacked keyed efs (sent t)
  unfolding publish_each publish_one sent stacked
  publish_each-sent [] t = refl
  publish_each-sent (ef ∷ efs) t =
      publish_each-sent efs (publish_one s token ef t).1
      ∙ ap (stacked keyed efs) (settle-Settles ef t ef.id (key_of ef.id)).once

  publish_each-settled :
      (efs : List OutboxEffect) (t : History)
      → (publish_each s token efs t).0 ≡ []
      → settled s (publish_each s token efs t).1 ≡ stacked tokened efs (settled s t)
  unfolding publish_each publish_one settled stacked
  publish_each-settled [] t h = refl
  publish_each-settled (ef ∷ efs) t h =
      let (none_here, none_later) = append-eq-nil (publish_one s token ef t).0 _ h in
      let later = publish_each-settled efs (publish_one s token ef t).1 none_later in
      elim (settle-Settles ef t ef.id (key_of ef.id)).done [
        | inl d ↦ later ∙ ap (stacked tokened efs) d.1
        | inr d ↦ absurd (omega (arith, d.0, ap length none_here))
      ]

  publish_each-counts :
      (efs : List OutboxEffect) (t : History)
      → (length (settled s (publish_each s token efs t).1) ≤ length (settled s t) + length efs)
        × (length (settled s t) + length efs
            ≤ length (settled s (publish_each s token efs t).1)
              + length (publish_each s token efs t).0)
  unfolding publish_each publish_one settled
  publish_each-counts [] t = (omega arith, omega arith)
  publish_each-counts (ef ∷ efs) t =
      let one = publish_one s token ef t in
      let (upper, lower) = publish_each-counts efs one.1 in
      let both = length-append one.0 (publish_each s token efs one.1).0 in
      elim (settle-Settles ef t ef.id (key_of ef.id)).done [
        | inl d ↦ (
          omega (arith, upper, lower, ap length d.1, both),
          omega (arith, upper, lower, ap length d.1, both),
        )
        | inr d ↦ (
          omega (arith, upper, lower, ap length d.1, both, d.0),
          omega (arith, upper, lower, ap length d.1, both, d.0),
        )
      ]

-- The token of a pass, and what the outbox answers to its claim.
abbrev pub token_of : Service → History → String
token_of s t = s.claimant <> ("-" <> s.new_id t)

abbrev pub claim_of : Service → ℤ → History → Result (List OutboxEffect)
claim_of s n t = s.claim_pending (id_call ∷ t) n (token_of s t) 120000000000

module _ (s : Service) (n : ℤ) (t : History) (efs : List OutboxEffect) where
  batch :
      s.has_outbox ≡ true
      → s.has_sender ≡ true
      → is_positive n ≡ true
      → claim_of s n t ≡ ok efs
      → publish_batch s n t
        ≡ publish_each s (token_of s t) efs (claim_call n (token_of s t) ∷ id_call ∷ t)
  unfolding publish_batch
  batch o e p c = rw (o, e, p, c) refl

  -- `PublishBatch` sends each effect that it has claimed exactly once, in the order of the claim and under
  -- its own key. It settles at most as many effects as it has claimed, and those that it does not
  -- settle are at most as many as the errors that it reports.
  pub publish_batch-sent :
      s.has_outbox ≡ true
      → s.has_sender ≡ true
      → is_positive n ≡ true
      → claim_of s n t ≡ ok efs
      → (sent (publish_batch s n t).1 ≡ stacked (keyed s (token_of s t)) efs (sent t))
        × (length (settled s (publish_batch s n t).1) ≤ length (settled s t) + length efs)
        × (length (settled s t) + length efs
            ≤ length (settled s (publish_batch s n t).1) + length (publish_batch s n t).0)
  unfolding settled sent
  publish_batch-sent o e p c =
      let start : History = claim_call n (token_of s t) ∷ id_call ∷ t in
      let counts = publish_each-counts s (token_of s t) efs start in
      rw (batch o e p c) (publish_each-sent s (token_of s t) efs start, counts.0, counts.1)

  -- When `PublishBatch` reports no error, every effect that it has claimed has been settled exactly once, in
  -- order and under the token of this pass, and the outbox has accepted each settlement.
  pub publish_batch-settled :
      s.has_outbox ≡ true
      → s.has_sender ≡ true
      → is_positive n ≡ true
      → claim_of s n t ≡ ok efs
      → (publish_batch s n t).0 ≡ []
      → settled s (publish_batch s n t).1 ≡ stacked (tokened s (token_of s t)) efs (settled s t)
  unfolding settled
  publish_batch-settled o e p c h =
      let b = batch o e p c in
      let start : History = claim_call n (token_of s t) ∷ id_call ∷ t in
      ap (λ (q : Pass). settled s q.1) b
      ∙ publish_each-settled s (token_of s t) efs start (sym (ap (λ (q : Pass). q.0) b) ∙ h)
