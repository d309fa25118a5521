-- ===== src/Lifecycle/Tests.antt =====
-- Runs of the shutdown of internal/lifecycle/shutdown.go.
use cal_spread_backend.Base.{◌-◌, ◌≡◌, refl, false, true, some, none, List, [], ◌∷◌}
use cal_spread_backend.Lifecycle.{
  Step, Result, Coordinator, new_coordinator, run, run_step, run_steps, record_step, report, finish,
  time_out,
}
use cal_spread_backend.Lifecycle.Results.{
  Honest, stay, then_move, called, stepped, expired, Reaches-Honest, completed_of, failures_of,
}
use cal_spread_backend.Lifecycle.Completion.{run_steps-finish}

abbrev steps : List Step
steps =
    record { name = "http"; error = none }
    ∷ record { name = "flush"; error = some "no database" }
    ∷ record { name = "pool"; error = none }
    ∷ []

-- The limit passes while the second step runs.
abbrev late : Coordinator
late = time_out 12005 (run_step (run "SIGTERM" 5 (new_coordinator steps 0)))

late_result : Result
late_result = record {
  signal = "SIGTERM";
  completed = "http" ∷ [];
  failed = [];
  timed_out = true;
  duration = 12000;
}

late-late_result : late.result ≡ some late_result
unfolding late_result time_out run_step run new_coordinator report record_step
late-late_result = refl

Reaches-Honest_example : Honest steps (new_coordinator steps 0).timeout late_result
Reaches-Honest_example =
    Reaches-Honest steps 0 late late_result
      (then_move (then_move (then_move stay (called "SIGTERM" 5)) stepped) (expired 12005))
      late-late_result

run_steps-finish_example :
    (finish 40 (run_steps 3 (run "SIGINT" 10 (new_coordinator steps 0)))).result
    ≡ some (record {
      signal = "SIGINT";
      completed = completed_of steps;
      failed = failures_of steps;
      timed_out = false;
      duration = 40 - 10;
    })
run_steps-finish_example = run_steps-finish steps 0 10 40 "SIGINT"
