-- ===== src/Lifecycle/Completion.antt =====
-- internal/lifecycle/shutdown.go: a shutdown whose steps all return comes to its end.
use mathlib.Core.List.{append_assoc, append-nil}
use cal_spread_backend.Base.{
  ℕ, ◌-◌, ◌≡◌, refl, false, some, List, [], ◌∷◌, ◌++◌, String, length, arith, Option-cases, inl,
  inr,
}
use cal_spread_backend.Lifecycle.{
  Step, Result, Sequence, Coordinator, new_coordinator, empty_result, run, record_step, run_step,
  run_steps, report, finish,
}
use cal_spread_backend.Lifecycle.Results.{completed_of, failures_of}

record_all : List Step → Result → Result
record_all [] r = r
record_all (s ∷ steps) r = record_all steps (record_step s r)

record_all-lists :
    (steps : List Step) (r : Result)
    → record_all steps r ≡ record r {
      completed = r.completed ++ completed_of steps;
      failed = r.failed ++ failures_of steps;
    }
unfolding record_all record_step completed_of failures_of
record_all-lists [] r = ground (arith, append-nil r.completed, append-nil r.failed)
record_all-lists (s ∷ steps) r = elim (Option-cases s.error) [
  | inl e ↦ ground (
    arith,
    record_all-lists steps (record_step s r),
    append_assoc r.completed (s.name ∷ []) (completed_of steps),
  )
  | inr (text, e) ↦ ground (
    arith,
    record_all-lists steps (record_step s r),
    append_assoc r.failed (record { step = s.name; err = text } ∷ []) (failures_of steps),
  )
]

run_steps-record_all :
    (left : List Step) (q : Sequence) (c : Coordinator)
    → c.running ≡ some q
    → q.left ≡ left
    → run_steps (length left) c
      ≡ record c { running = some (record q { progress = record_all left q.progress; left = [] }) }
unfolding run_steps run_step record_all
run_steps-record_all [] q c e l = ground arith
run_steps-record_all (s ∷ left) q c e l =
    let next : Sequence = record q { progress = record_step s q.progress; left = left } in
    ground (arith, run_steps-record_all left next (record c { running = some next }) refl refl)

-- A shutdown goes through all of its steps, the failed ones included: after as many runs as there are
-- steps the first call can return, and it returns the names of the steps that ran well and the
-- failures of the others, each in order.
pub run_steps-finish :
    (steps : List Step) (timeout start now : ℕ) (signal : String)
    → (finish now
        (run_steps (length steps) (run signal start (new_coordinator steps timeout)))).result
      ≡ some (record {
        signal = signal;
        completed = completed_of steps;
        failed = failures_of steps;
        timed_out = false;
        duration = now - start;
      })
unfolding finish run new_coordinator report
run_steps-finish steps timeout start now signal =
    let q : Sequence = record {
      signal = signal;
      start = start;
      progress = empty_result signal;
      left = steps;
    } in
    let c : Coordinator = run signal start (new_coordinator steps timeout) in
    ground (
      arith,
      run_steps-record_all steps q c refl refl,
      record_all-lists steps (empty_result signal),
    )
