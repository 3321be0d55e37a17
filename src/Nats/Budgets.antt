-- ===== src/Nats/Budgets.antt =====
-- The limit of a fetch of internal/adapters/nats/jetstream.go is shared out, and kept by the answers.
use kafka_simulate_rule.Prelude.{
  true, is_positive, sym, pos, negsuc, ◌∙◌, refl, some, subst, none, Option, ap, inr, inl,
  Bool-cases, append-nil, ◌≤◌, String, ℤ, ◌++◌, length, zero, arith, ◌/◌, suc, ◌*◌, [], ltb, ◌∷◌,
  ◌%◌, ◌≡◌, if◌then◌else◌, List, ◌+◌, ◌<◌, ℕ,
}
use kafka_simulate_rule.Nats.{
  validate_fetch_request, matching_consumer_keys, budget_of, requests_from, fetch_selected,
  fetch_valid, fetch_shards, select_fetch_consumers, ConsumerKey, Consumer, found_or, budgets,
  budgets_from, ShardFetchResult, collect_fetch_results, deliveries_of, errors_of,
}
use Prim.Native.Nat.{min}
use native.Mathlib.Nat.{mod-lt, div-add-mod}
use kafka_simulate_rule.Domain.Errors.{message, GoError}

abbrev pub sum_of : List ℕ → ℕ
sum_of [] = 0
sum_of (x ∷ xs) = x + sum_of xs

one_more : (i r : ℕ) → (if ltb i r then 1 else 0) + min i r ≡ min (suc i) r
one_more i r = ground arith

sum_of-budgets_from :
    (m n i k : ℕ)
    → sum_of (budgets_from m n i k) + min i (m % n) ≡ k * (m / n) + min (i + k) (m % n)
unfolding budgets_from
sum_of-budgets_from m n i zero = omega arith
sum_of-budgets_from m n i (suc k) =
    let ih = sum_of-budgets_from m n (suc i) k in
    let step = one_more i (m % n) in grind (arith, ih, step)

sum_of-budgets : (m n : ℕ) → 0 < n → sum_of (budgets m n) ≡ m
unfolding budgets
sum_of-budgets m n l =
    let all = sum_of-budgets_from m n 0 n in
    let below = mod-lt m l in let whole = div-add-mod m n in grind (arith, all, below, whole)

sum_of-append : (xs ys : List ℕ) → sum_of (xs ++ ys) ≡ sum_of xs + sum_of ys
sum_of-append [] ys = omega arith
sum_of-append (x ∷ xs) ys = let ih = sum_of-append xs ys in omega (arith, ih)

length-append : {A : Type 0} → (xs ys : List A) → length (xs ++ ys) ≡ length xs + length ys
length-append [] ys = omega arith
length-append (x ∷ xs) ys = let ih = length-append xs ys in omega (arith, ih)

-- The answers in the order in which they come: each is of one of the requests that are out, and
-- has at most the messages that the request asks for.
pub data Arrives {D : Type 0} : List ℕ → List (ShardFetchResult D) → Type 0 where
  settled : Arrives [] []
  arrives :
      {out : List ℕ} {r : ShardFetchResult D} {rs : List (ShardFetchResult D)} (front back : List ℕ)
      (budget : ℕ)
      → out ≡ front ++ budget ∷ back
      → length r.deliveries ≤ budget
      → Arrives (front ++ back) rs
      → Arrives out (r ∷ rs)

out-sum_of :
    {out : List ℕ} (front back : List ℕ) (budget : ℕ)
    → out ≡ front ++ budget ∷ back
    → sum_of out ≡ budget + sum_of (front ++ back)
out-sum_of front back budget e =
    let whole = sum_of-append front (budget ∷ back) in
    let rest = sum_of-append front back in rw (e) (omega (arith, whole, rest))

module _ {D : Type 0} where
  deliveries_of-length :
      {out : List ℕ} {rs : List (ShardFetchResult D)}
      → Arrives out rs
      → length (deliveries_of rs) ≤ sum_of out
  deliveries_of-length settled = omega arith
  deliveries_of-length (arrives {r = r} {rs = rs} front back budget e l h) =
      let ih = deliveries_of-length h in
      let asked = out-sum_of front back budget e in
      let both = length-append r.deliveries (deliveries_of rs) in omega (arith, ih, asked, both, l)

  within_limit :
      (itoa : ℤ → String) (rs : List (ShardFetchResult D)) (m : ℕ)
      → length (deliveries_of rs) ≤ m
      → collect_fetch_results itoa rs m ≡ (deliveries_of rs, errors_of rs ++ [])
  unfolding collect_fetch_results
  within_limit itoa rs m l = elim (Bool-cases (ltb m (length (deliveries_of rs)))) [
    | inl e ↦ absurd (ground (arith, e, l))
    | inr e ↦ rw (e) (λ i. (deliveries_of rs, errors_of rs ++ []))
  ]

-- The amounts of the requests.
abbrev pub amounts : List (ConsumerKey × ℕ) → List ℕ
amounts [] = []
amounts ((k, n) ∷ rest) = n ∷ amounts rest

amounts-requests_from :
    (m n i : ℕ) (keys : List ConsumerKey)
    → amounts (requests_from m n i keys) ≡ budgets_from m n i (length keys)
unfolding requests_from budgets_from
amounts-requests_from m n i [] = refl
amounts-requests_from m n i (k ∷ keys) =
    ap (λ l. budget_of m n i ∷ l) (amounts-requests_from m n (suc i) keys)

-- The broker answers each request, with no more messages than it asks for.
abbrev pub Keeps : {D : Type 0} → (List (ConsumerKey × ℕ) → List (ShardFetchResult D)) → Type 0
Keeps ask = (requests : List (ConsumerKey × ℕ)) → Arrives (amounts requests) (ask requests)

-- The messages and the errors of the answers, as they come.
abbrev pub messages : {D : Type 0} → List (ShardFetchResult D) → List D
messages [] = []
messages (r ∷ rs) = r.deliveries ++ messages rs

abbrev pub failures : {D : Type 0} → List (ShardFetchResult D) → List GoError
failures [] = []
failures (r ∷ rs) = elim r.failure [ none ↦ failures rs | some e ↦ e ∷ failures rs ]

abbrev pub keys_of : List (ConsumerKey × ℕ) → List ConsumerKey
keys_of [] = []
keys_of ((k, n) ∷ rest) = k ∷ keys_of rest

-- The answer to one request for each key, which ask for the limit together: it has all messages and all
-- errors that come back.
pub record Asked {D : Type 0} (ask : List (ConsumerKey × ℕ) → List (ShardFetchResult D)) (m : ℕ)
    (keys : List ConsumerKey) (answer : List D × List GoError) : Type 0 where
  pub requests : List (ConsumerKey × ℕ)
  pub each_key : keys_of requests ≡ keys
  pub shared_out : sum_of (amounts requests) ≡ m
  pub all_messages : answer.0 ≡ messages (ask requests)
  pub all_failures : answer.1 ≡ failures (ask requests)
  pub limit : length answer.0 ≤ m

-- Without a key there is nothing to ask.
abbrev pub Answered :
    {D : Type 0}
    → (List (ConsumerKey × ℕ) → List (ShardFetchResult D))
    → ℕ
    → List ConsumerKey
    → List D × List GoError
    → Type 0
Answered ask m [] answer = answer ≡ ([], [])
Answered ask m (k ∷ keys) answer = Asked ask m (k ∷ keys) answer

-- One error and no message.
abbrev pub IsRefused : {D : Type 0} → List D × List GoError → Type 0
IsRefused answer = (e : GoError) × (answer ≡ ([], e ∷ []))

-- What a fetch answers to a context and a limit, `keys` being the keys that it selects.
abbrev pub FetchAnswer :
    {D : Type 0}
    → (List (ConsumerKey × ℕ) → List (ShardFetchResult D))
    → (ℕ → List ConsumerKey)
    → Option (Option GoError)
    → ℤ
    → List D × List GoError
    → Type 0
FetchAnswer ask keys ctx (negsuc n) answer = IsRefused answer
FetchAnswer ask keys ctx (pos zero) answer = IsRefused answer
FetchAnswer ask keys none (pos (suc n)) answer = IsRefused answer
FetchAnswer ask keys (some (some e)) (pos (suc n)) answer = answer ≡ ([], e ∷ [])
FetchAnswer ask keys (some none) (pos (suc n)) answer = Answered ask (suc n) (keys (suc n)) answer

found_or-failures :
    (o : Option GoError) {xs ys : List GoError}
    → xs ≡ ys
    → found_or o xs ≡ elim o [ none ↦ ys | some e ↦ e ∷ ys ]
found_or-failures none h = h
found_or-failures (some e) h = ap (λ l. e ∷ l) h

failures-errors_of : {D : Type 0} (rs : List (ShardFetchResult D)) → errors_of rs ≡ failures rs
failures-errors_of [] = refl
failures-errors_of (r ∷ rs) = found_or-failures r.failure (failures-errors_of rs)

messages-deliveries_of :
    {D : Type 0} (rs : List (ShardFetchResult D)) → deliveries_of rs ≡ messages rs
messages-deliveries_of [] = refl
messages-deliveries_of (r ∷ rs) = ap (λ l. r.deliveries ++ l) (messages-deliveries_of rs)

keys_of-requests_from :
    (m n i : ℕ) (keys : List ConsumerKey) → keys_of (requests_from m n i keys) ≡ keys
unfolding requests_from
keys_of-requests_from m n i [] = refl
keys_of-requests_from m n i (k ∷ keys) = ap (λ l. k ∷ l) (keys_of-requests_from m n (suc i) keys)

no_shards : (consumers : List (ConsumerKey × String)) → matching_consumer_keys consumers [] ≡ []
unfolding matching_consumer_keys
no_shards [] = refl
no_shards ((k, durable) ∷ consumers) = no_shards consumers

select_none : (c : Consumer) (m : ℕ) → (select_fetch_consumers c m []).0 ≡ []
unfolding select_fetch_consumers
select_none c m = rw (no_shards c.consumers) refl

module _ {D : Type 0} (itoa : ℤ → String) (ask : List (ConsumerKey × ℕ) → List (ShardFetchResult D))
    (keeps : Keeps ask) where
  fetch_selected-Answered :
      (m : ℕ) (keys : List ConsumerKey) → Answered ask m keys (fetch_selected itoa ask m keys)
  unfolding fetch_selected budgets
  fetch_selected-Answered m [] = refl
  fetch_selected-Answered m (k ∷ keys) =
      let n = suc (length keys) in
      let requests = requests_from m n 0 (k ∷ keys) in
      let amounts_are = amounts-requests_from m n 0 (k ∷ keys) in
      let arrived : Arrives (budgets m n) (ask requests) =
        subst (λ l. Arrives l (ask requests)) amounts_are (keeps requests) in
      let all = sum_of-budgets m n (omega arith) in
      let few = deliveries_of-length arrived in
      let kept : length (deliveries_of (ask requests)) ≤ m = omega (arith, all, few) in
      let whole = within_limit itoa (ask requests) m kept in
      record {
        requests = requests;
        each_key = keys_of-requests_from m n 0 (k ∷ keys);
        shared_out = ap sum_of amounts_are ∙ all;
        all_messages = ap (λ p. p.0) whole ∙ messages-deliveries_of (ask requests);
        all_failures =
            ap (λ p. p.1) whole
            ∙ append-nil (errors_of (ask requests))
            ∙ failures-errors_of (ask requests);
        limit = subst (λ (p : List D × List GoError). length p.0 ≤ m) (sym whole) kept;
      }

  fetch_valid-Answered :
      (c : Consumer) (m : ℕ) (shards : List ℕ)
      → Answered ask m
          (select_fetch_consumers c m shards).0
          (fetch_valid itoa ask none c m shards).0
  fetch_valid-Answered c m [] = rw (select_none c m) refl
  fetch_valid-Answered c m (s ∷ shards) =
      fetch_selected-Answered m (select_fetch_consumers c m (s ∷ shards)).0

valid_nil :
    (n : ℕ)
    → validate_fetch_request none (pos (suc n)) ≡ some (message "fetch shards: context is nil")
unfolding validate_fetch_request
valid_nil n = let p : is_positive (pos (suc n)) ≡ true = ground arith in rw p refl

valid_context : (n : ℕ) (o : Option GoError) → validate_fetch_request (some o) (pos (suc n)) ≡ o
unfolding validate_fetch_request
valid_context n o = let p : is_positive (pos (suc n)) ≡ true = ground arith in rw p refl

-- With a broker that answers each request with at most what it asks for, in whatever order: a fetch whose
-- limit is not positive or whose context is nil or done returns one error; any other asks each selected
-- consumer once, for the limit in all, and returns all messages and all errors of the answers, and
-- no more messages than the limit.
pub fetch_shards-limit :
    {D : Type 0}
    → (itoa : ℤ → String) (ask : List (ConsumerKey × ℕ) → List (ShardFetchResult D))
      (ctx : Option (Option GoError)) (c : Consumer) (m : ℤ) (shards : List ℕ)
    → Keeps ask
    → FetchAnswer ask
        (λ n. (select_fetch_consumers c n shards).0)
        ctx
        m
        (fetch_shards itoa ask ctx c m shards).0
unfolding fetch_shards
fetch_shards-limit itoa ask none c (negsuc n) shards keeps = (_, refl)
fetch_shards-limit itoa ask (some o) c (negsuc n) shards keeps = (_, refl)
fetch_shards-limit itoa ask none c (pos zero) shards keeps = (_, refl)
fetch_shards-limit itoa ask (some o) c (pos zero) shards keeps = (_, refl)
fetch_shards-limit itoa ask none c (pos (suc n)) shards keeps =
    (_, ap (λ v. (fetch_valid itoa ask v c (suc n) shards).0) (valid_nil n))
fetch_shards-limit itoa ask (some (some e)) c (pos (suc n)) shards keeps =
    ap (λ v. (fetch_valid itoa ask v c (suc n) shards).0) (valid_context n (some e))
fetch_shards-limit itoa ask (some none) c (pos (suc n)) shards keeps =
    subst
      (λ v.
        Answered ask (suc n) (select_fetch_consumers c (suc n) shards).0
          (fetch_valid itoa ask v c (suc n) shards).0)
      (sym (valid_context n none)) (fetch_valid-Answered itoa ask keeps c (suc n) shards)
