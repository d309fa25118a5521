-- ===== src/Lifecycle/Results.antt =====
-- internal/lifecycle/shutdown.go: what a shutdown returns, and that it returns.
use mathlib.Core.List.{append_assoc, append-nil}
use cal_spread_backend.Base.{
  ℕ, ◌+◌, ◌≤◌, ◌≡◌, ◌⊎◌, refl, subst, Bool, true, false, none, some, List, [], ◌∷◌, ◌++◌, String,
  leb, arith, Option-cases, Bool-cases, inl, inr,
}
use cal_spread_backend.Lifecycle.{
  Step, Failure, Result, exit_code, Sequence, Coordinator, new_coordinator, run, record_step,
  run_step, report, finish, time_out,
}

-- The names of the steps that ran well, and the failures of the others, in order.
unfoldable pub completed_of : List Step → List String
completed_of [] = []
completed_of (s ∷ steps) = elim s.error [
  | none ↦ s.name ∷ completed_of steps
  | some e ↦ completed_of steps
]

unfoldable pub failures_of : List Step → List Failure
failures_of [] = []
failures_of (s ∷ steps) = elim s.error [
  | none ↦ failures_of steps
  | some e ↦ record { step = s.name; err = e } ∷ failures_of steps
]

pub completed_of-append :
    (xs ys : List Step) → completed_of (xs ++ ys) ≡ completed_of xs ++ completed_of ys
unfolding completed_of
completed_of-append [] ys = refl
completed_of-append (x ∷ xs) ys = ground (arith, completed_of-append xs ys)

pub failures_of-append :
    (xs ys : List Step) → failures_of (xs ++ ys) ≡ failures_of xs ++ failures_of ys
unfolding failures_of
failures_of-append [] ys = refl
failures_of-append (x ∷ xs) ys = ground (arith, failures_of-append xs ys)

-- What is recorded of the steps that have been run, `front` of them.
pub record Recorded (front : List Step) (r : Result) : Type 0 where
  pub completed : r.completed ≡ completed_of front
  pub failed : r.failed ≡ failures_of front

-- A result that was returned: it tells of a front part of the steps, of all of them unless it timed
-- out, and a timeout comes no earlier than the limit and alone makes the exit code 1.
pub record Honest (steps : List Step) (timeout : ℕ) (r : Result) : Type 0 where
  pub front : List Step
  pub back : List Step
  pub split : steps ≡ front ++ back
  pub told : Recorded front r
  pub all_told : r.timed_out ≡ false → back ≡ []
  pub late : r.timed_out ≡ true → timeout ≤ r.duration
  pub code : (exit_code r ≡ 1) × (r.timed_out ≡ true) ⊎ (exit_code r ≡ 0) × (r.timed_out ≡ false)

pub record Progress (steps : List Step) (q : Sequence) : Type 0 where
  pub front : List Step
  pub split : steps ≡ front ++ q.left
  pub told : Recorded front q.progress

pub record Kept (steps : List Step) (timeout : ℕ) (c : Coordinator) : Type 0 where
  pub steps_same : c.steps ≡ steps
  pub timeout_same : c.timeout ≡ timeout
  pub sequence : (q : Sequence) → c.running ≡ some q → Progress steps q
  pub honest : (r : Result) → c.result ≡ some r → Honest steps timeout r

pub data Move : Coordinator → Coordinator → Type 0 where
  called : {c : Coordinator} (signal : String) (now : ℕ) → Move c (run signal now c)
  stepped : {c : Coordinator} → Move c (run_step c)
  finished : {c : Coordinator} (now : ℕ) → Move c (finish now c)
  expired : {c : Coordinator} (now : ℕ) → Move c (time_out now c)

pub data Reaches : Coordinator → Coordinator → Type 0 where
  stay : {c : Coordinator} → Reaches c c
  then_move : {c d e : Coordinator} → Reaches c d → Move d e → Reaches c e

record_step-Recorded :
    (s : Step) (front : List Step) (r : Result)
    → Recorded front r
    → Recorded (front ++ s ∷ []) (record_step s r)
unfolding record_step completed_of failures_of
record_step-Recorded s front r h = record {
  completed =
      ground
        (arith, h.completed, completed_of-append front (s ∷ []), append-nil (completed_of front));
  failed =
      ground (arith, h.failed, failures_of-append front (s ∷ []), append-nil (failures_of front));
}

module _ (steps : List Step) (timeout : ℕ) where
  -- Every operation keeps the steps and the limit; the other two fields follow from what it does.
  run-Kept :
      (signal : String) (now : ℕ) (c : Coordinator)
      → Kept steps timeout c
      → Kept steps timeout (run signal now c)
  unfolding run completed_of failures_of
  run-Kept signal now c h = elim (Option-cases c.running) [
    | inr (p, e) ↦ subst (Kept steps timeout) (ground arith) h
    | inl e ↦ record {
      steps_same = ground (arith, h.steps_same);
      timeout_same = ground (arith, h.timeout_same);
      sequence = λ q f. record {
        front = [];
        split = ground (arith, h.steps_same);
        told = record { completed = ground arith; failed = ground arith };
      };
      honest = λ r f. h.honest r (ground arith);
    }
  ]

  run_step-Kept : (c : Coordinator) → Kept steps timeout c → Kept steps timeout (run_step c)
  unfolding run_step
  run_step-Kept c h = elim (Option-cases c.running) [
    | inl e ↦ subst (Kept steps timeout) (ground arith) h
    | inr (p, e) ↦ step p p.left e refl
  ]
    where
      step :
          (p : Sequence) (left : List Step)
          → c.running ≡ some p
          → p.left ≡ left
          → Kept steps timeout (run_step c)
      step p [] e l = subst (Kept steps timeout) (ground arith) h
      step p (s ∷ left) e l =
          let before = h.sequence p e in
          record {
            steps_same = ground (arith, h.steps_same);
            timeout_same = ground (arith, h.timeout_same);
            sequence = λ q f. record {
              front = before.front ++ s ∷ [];
              split = ground (arith, before.split, append_assoc before.front (s ∷ []) left);
              told =
                  subst (Recorded (before.front ++ s ∷ [])) (ground arith)
                    (record_step-Recorded s before.front p.progress before.told);
            };
            honest = λ r f. h.honest r (ground arith);
          }

  report-Honest :
      (t : Bool) (now : ℕ) (q : Sequence)
      → Progress steps q
      → (t ≡ false → q.left ≡ [])
      → (t ≡ true → q.start + timeout ≤ now)
      → Honest steps timeout (report t now q)
  unfolding report exit_code
  report-Honest t now q p all late = record {
    front = p.front;
    back = q.left;
    split = p.split;
    told = record { completed = p.told.completed; failed = p.told.failed };
    all_told = all;
    late = λ e. omega (arith, late e);
    code = ground arith;
  }

  finish-Kept :
      (now : ℕ) (c : Coordinator) → Kept steps timeout c → Kept steps timeout (finish now c)
  unfolding finish
  finish-Kept now c h = elim (Option-cases c.result) [
    | inr (r, e) ↦ subst (Kept steps timeout) (ground arith) h
    | inl n ↦ elim (Option-cases c.running) [
      | inl e ↦ subst (Kept steps timeout) (ground arith) h
      | inr (p, e) ↦ step p p.left n e refl
    ]
  ]
    where
      step :
          (p : Sequence) (left : List Step)
          → c.result ≡ none
          → c.running ≡ some p
          → p.left ≡ left
          → Kept steps timeout (finish now c)
      step p (s ∷ left) n e l = subst (Kept steps timeout) (ground arith) h
      step p [] n e l = record {
        steps_same = ground (arith, h.steps_same);
        timeout_same = ground (arith, h.timeout_same);
        sequence = λ q f. h.sequence q (ground arith);
        honest = λ r f.
            subst (Honest steps timeout) (ground arith)
              (report-Honest false now p (h.sequence p e) (λ x. l) (λ x. ground arith));
      }

  time_out-Kept :
      (now : ℕ) (c : Coordinator) → Kept steps timeout c → Kept steps timeout (time_out now c)
  unfolding time_out
  time_out-Kept now c h = elim (Option-cases c.result) [
    | inr (r, e) ↦ subst (Kept steps timeout) (ground arith) h
    | inl n ↦ elim (Option-cases c.running) [
      | inl e ↦ subst (Kept steps timeout) (ground arith) h
      | inr (p, e) ↦ elim (Bool-cases (leb (p.start + c.timeout) now)) [
        | inr early ↦ subst (Kept steps timeout) (ground arith) h
        | inl late ↦ record {
          steps_same = ground (arith, h.steps_same);
          timeout_same = ground (arith, h.timeout_same);
          sequence = λ q f. h.sequence q (ground arith);
          honest = λ r f. subst (Honest steps timeout) (ground arith) (
              report-Honest true now p (h.sequence p e) (λ x. ground arith)
                (λ x. ground (arith, late, h.timeout_same)));
        }
      ]
    ]
  ]

  Reaches-Kept : {c d : Coordinator} → Reaches c d → Kept steps timeout c → Kept steps timeout d
  Reaches-Kept stay h = h
  Reaches-Kept (then_move ms (called {c = c} signal now)) h =
      run-Kept signal now c (Reaches-Kept ms h)
  Reaches-Kept (then_move ms (stepped {c = c})) h = run_step-Kept c (Reaches-Kept ms h)
  Reaches-Kept (then_move ms (finished {c = c} now)) h = finish-Kept now c (Reaches-Kept ms h)
  Reaches-Kept (then_move ms (expired {c = c} now)) h = time_out-Kept now c (Reaches-Kept ms h)

-- Whatever calls come and however the steps, the timer and the calls interleave, a result tells of a
-- front part of the steps in order, each by its name or by its failure. Unless the shutdown timed out
-- it tells of all of them; a timeout comes no earlier than the limit, and alone makes the exit code 1.
pub Reaches-Honest :
    (steps : List Step) (timeout : ℕ) (c : Coordinator) (r : Result)
    → Reaches (new_coordinator steps timeout) c
    → c.result ≡ some r
    → Honest steps (new_coordinator steps timeout).timeout r
unfolding new_coordinator
Reaches-Honest steps timeout c r ms e =
    let limit = (new_coordinator steps timeout).timeout in
    let start : Kept steps limit (new_coordinator steps timeout) = record {
      steps_same = refl;
      timeout_same = refl;
      sequence = λ q f. absurd (ground arith);
      honest = λ q f. absurd (ground arith);
    } in
    (Reaches-Kept steps limit ms start).honest r e
