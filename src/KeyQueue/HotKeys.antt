-- ===== src/KeyQueue/HotKeys.antt =====
-- internal/runtime/keyqueue/queue.go: the keys with a long queue, and the statistics. A map of Go is a list of its
-- entries, in any order.
pub mod Laws
use kafka_simulate_rule.Prelude.{
  true, some, ◌++◌, str_eq, leb, ◌∷◌, none, ◌∷◌, if◌then◌else◌, Bool, Option, List, String, ℕ,
}
use kafka_simulate_rule.Domain.Event.{Time}
use kafka_simulate_rule.KeyQueue.{false, []}

pub record HotKeyNotice : Type 0 where
  pub key : String
  pub depth : ℕ

unfoldable pub lookup {ℓ} : {A : Type ℓ} → String → List (String × A) → Option A
lookup key [] = none
lookup key ((k, a) ∷ m) = if str_eq k key then some a else lookup key m

unfoldable pub delete {ℓ} : {A : Type ℓ} → String → List (String × A) → List (String × A)
delete key [] = []
delete key ((k, a) ∷ m) = if str_eq k key then delete key m else (k, a) ∷ delete key m

-- The state of the fold: `kq.hotKeys` and the notices.
abbrev pub HotState : Type 0
HotState = List (String × Time) × List HotKeyNotice

abbrev pub mark : String → ℕ → Time → Option Time → HotState → HotState
mark key depth now none s = ((key, now) ∷ s.0, s.1 ++ record { key = key; depth = depth } ∷ [])
mark key depth now (some since) s = s

-- One queue of the snapshot.
unfoldable pub visit_queue : ℕ → Time → String × ℕ → HotState → HotState
unfolding lookup delete
visit_queue threshold now (key, depth) s =
    if leb threshold depth then mark key depth now (lookup key s.0) s else (delete key s.0, s.1)

unfoldable pub visit_queues : ℕ → Time → List (String × ℕ) → HotState → HotState
unfolding visit_queue
visit_queues threshold now [] s = s
visit_queues threshold now (q ∷ qs) s =
    visit_queues threshold now qs (visit_queue threshold now q s)

abbrev pub is_some {ℓ} : {A : Type ℓ} → Option A → Bool
is_some none = false
is_some (some a) = true

-- `delete(kq.hotKeys, key)` for each key that the snapshot does not have.
unfoldable pub keep_existing : List (String × ℕ) → List (String × Time) → List (String × Time)
unfolding lookup
keep_existing queues [] = []
keep_existing queues ((key, since) ∷ hot) =
    let rest = keep_existing queues hot in
    if is_some (lookup key queues) then (key, since) ∷ rest else rest

-- The snapshot gives each key of the map the length of its channel.
unfoldable pub update_hot_key_state : ℕ → List (String × ℕ) → Time → List (String × Time) → HotState
unfolding visit_queues keep_existing
update_hot_key_state threshold queues now hot =
    let s = visit_queues threshold now queues (hot, []) in (keep_existing queues s.0, s.1)
