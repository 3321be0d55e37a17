-- ===== src/Domain/Execution/Laws.antt =====
-- An execution of internal/domain/types.go is settled once.
-- A call of one of the three methods.
use kafka_simulate_rule.Domain.Execution.{is_pending, quarantine, fail, Execution, complete}
use kafka_simulate_rule.Domain.Event.{Time}
use kafka_simulate_rule.Prelude.{refl, some, true, false, [], ◌≡◌, ◌∷◌, String, List}
use kafka_simulate_rule.Domain.Result.{err, ok, Result}

pub data Call : Type 0 where
  completing : Time → Call
  failing : Time → String → Call
  quarantining : Time → String → Call

unfoldable pub perform : Call → Execution → Result Execution
unfolding complete fail quarantine
perform (completing now) e = complete e now
perform (failing now m) e = fail e now m
perform (quarantining now m) e = quarantine e now m

-- Callers go on with the receiver as the call leaves it.
abbrev pub after : Result Execution → Execution → Execution
after (ok e') e = e'
after (err x) e = e

unfoldable pub run : List Call → Execution → Execution
unfolding perform
run [] e = e
run (c ∷ cs) e = run cs (after (perform c e) e)

-- Settled executions carry the time of their settlement.
abbrev pub IsSettled : Execution → Type 0
IsSettled e = (is_pending e.status ≡ false) × ((t : Time) × (e.completed_at ≡ some t))

perform-settled :
    (c : Call) (e : Execution) → is_pending e.status ≡ false → after (perform c e) e ≡ e
unfolding perform complete fail quarantine
perform-settled (completing now) e h = rw h
perform-settled (failing now m) e h = rw h
perform-settled (quarantining now m) e h = rw h

run-settled : (cs : List Call) (e : Execution) → is_pending e.status ≡ false → run cs e ≡ e
unfolding run
run-settled [] e h = refl
run-settled (c ∷ cs) e h = rw (perform-settled c e h, run-settled cs e h)

settles :
    (c : Call) (e : Execution) → is_pending e.status ≡ true → IsSettled (after (perform c e) e)
unfolding perform complete fail quarantine
settles (completing now) e h = rw h (refl, (now, refl))
settles (failing now m) e h = rw h (refl, (now, refl))
settles (quarantining now m) e h = rw h (refl, (now, refl))

-- The first call on a pending execution settles it, with a time of completion, and no later call of any
-- of the methods changes it.
pub run-first :
    (c : Call) (cs : List Call) (e : Execution)
    → is_pending e.status ≡ true
    → (run (c ∷ cs) e ≡ run (c ∷ []) e) × IsSettled (run (c ∷ cs) e)
unfolding run
run-first c cs e h =
    let s = settles c e h in rw (run-settled cs (after (perform c e) e) s.0) (refl, s)
