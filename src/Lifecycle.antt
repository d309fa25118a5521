-- ===== src/Lifecycle.antt =====
-- internal/lifecycle/shutdown.go: the coordinator of a graceful shutdown. What a step's function
-- returns (a panic is an error too) is given by its text; the goroutine that runs the steps, the
-- timer and the repeated calls interleave in any order. Times are milliseconds.
pub mod Results
pub mod Completion
pub mod Tests
use cal_spread_backend.Base.{
  ℕ, zero, suc, ◌+◌, ◌-◌, Bool, true, false, Option, none, some, List, [], ◌∷◌, ◌++◌, String, mem,
  leb, if◌then◌else◌,
}
use cal_spread_backend.Httpx.Ratelimit.{String-discrete}

abbrev default_timeout : ℕ
default_timeout = 12000

-- A step with the error that its run ends in, if it does.
pub record Step : Type 0 where
  pub name : String
  pub error : Option String

pub record Failure : Type 0 where
  pub step : String
  pub err : String

pub record Result : Type 0 where
  pub signal : String
  pub completed : List String
  pub failed : List Failure
  pub timed_out : Bool
  pub duration : ℕ

unfoldable pub exit_code : Result → ℕ
exit_code r = if r.timed_out then 1 else 0

-- The goroutine has recorded some steps in `progress`, and `left` are still to be run.
pub record Sequence : Type 0 where
  pub signal : String
  pub start : ℕ
  pub progress : Result
  pub left : List Step

-- `done` is nil before the first call of `Run`, and `result` is what that call has returned.
pub record Coordinator : Type 0 where
  pub steps : List Step
  pub timeout : ℕ
  pub running : Option Sequence
  pub result : Option Result

unfoldable pub new_coordinator : List Step → ℕ → Coordinator
new_coordinator steps timeout = record {
  steps = steps;
  timeout = elim timeout [ zero ↦ default_timeout | suc n ↦ suc n ];
  running = none;
  result = none;
}

abbrev pub in_progress : Coordinator → Bool
in_progress c = elim c.running [ none ↦ false | some s ↦ true ]

abbrev pub empty_result : String → Result
empty_result signal = record {
  signal = signal;
  completed = [];
  failed = [];
  timed_out = false;
  duration = 0;
}

-- A call of `Run`. A repeated one waits for the first one's result.
unfoldable pub run : String → ℕ → Coordinator → Coordinator
run signal now c = elim c.running [
  | some s ↦ c
  | none ↦ record c {
    running =
        some
          (record { signal = signal; start = now; progress = empty_result signal; left = c.steps });
  }
]

unfoldable pub record_step : Step → Result → Result
record_step s r = elim s.error [
  | none ↦ record r { completed = r.completed ++ s.name ∷ [] }
  | some e ↦ record r { failed = r.failed ++ record { step = s.name; err = e } ∷ [] }
]

-- The goroutine runs its next step.
unfoldable pub run_step : Coordinator → Coordinator
run_step c = elim c.running [
  | none ↦ c
  | some q ↦ elim q.left [
    | [] ↦ c
    | s ∷ left ↦ record c {
      running = some (record q { progress = record_step s q.progress; left = left });
    }
  ]
]

-- The first call returns: what it copies of the progress.
unfoldable pub report : Bool → ℕ → Sequence → Result
report timed_out now q = record q.progress {
  signal = q.signal;
  timed_out = timed_out;
  duration = now - q.start;
}

-- The steps are through, or the timer fires, while the first call still waits.
unfoldable pub finish : ℕ → Coordinator → Coordinator
finish now c = elim c.result [
  | some r ↦ c
  | none ↦ elim c.running [
    | none ↦ c
    | some q ↦ elim q.left [ [] ↦ record c { result = some (report false now q) } | s ∷ left ↦ c ]
  ]
]

unfoldable pub time_out : ℕ → Coordinator → Coordinator
time_out now c = elim c.result [
  | some r ↦ c
  | none ↦ elim c.running [
    | none ↦ c
    | some q ↦
        if leb (q.start + c.timeout) now then record c { result = some (report true now q) } else c
  ]
]

abbrev pub failed_steps : List Failure → List String
failed_steps [] = []
failed_steps (f ∷ fs) = f.step ∷ failed_steps fs

-- The names of the steps that are in neither list, for the message of a timeout.
unfoldable pub stuck_from : List String → List Step → List String
stuck_from seen [] = []
stuck_from seen (s ∷ steps) =
    if mem String-discrete s.name seen
    then stuck_from seen steps
    else s.name ∷ stuck_from seen steps

unfoldable pub stuck : Coordinator → Result → List String
stuck c r = stuck_from (r.completed ++ failed_steps r.failed) c.steps

-- The goroutine runs some steps, one after another.
unfoldable pub run_steps : ℕ → Coordinator → Coordinator
run_steps zero c = c
run_steps (suc n) c = run_steps n (run_step c)
