-- ===== src/Spike/Engine/Machine.antt =====
-- internal/spike/engine.go and actions.go at work: the goroutine that receives candidates, the
-- methods that `opMu` keeps apart, and between their locked stretches the ticks, the clock and the
-- connection. Each step is one locked stretch, or the receipt of a candidate. The reconciler, which
-- also loads the day's records, makes no step here.
pub mod Steps
pub mod Safety
use cal_spread_backend.Base.{◌≡◌, Bool, Option, none, some, String, List, ◌∷◌}
use cal_spread_backend.Base.Float.{Float64}
use cal_spread_backend.Spike.Types.{Trade}
use cal_spread_backend.Spike.Quote.{Tick}
use cal_spread_backend.Spike.Engine.{Engine, Env, Candidate}
use cal_spread_backend.Spike.Engine.Marks.{
  on_connection, on_runtime_ready, invalidate, on_second, stop_start,
}
use cal_spread_backend.Spike.Engine.Evaluate.{Whole, on_ticks}
use cal_spread_backend.Spike.Engine.Trades.{
  may_enter, enter_done, close_start, close_done, closing, set_paper_done,
}

-- What is between its two locked stretches: nothing, an entry with the result of its tests, or the
-- closing of a trade.
pub data Flight (Num : Type 0) : Type 0 where
  idle : Flight Num
  entering : Candidate Num → Bool → Flight Num
  exiting : Trade Num → Flight Num

pub record Machine (Num : Type 0) : Type 0 where
  pub engine : Engine Num
  pub received : Option (Candidate Num)
  pub flight : Flight Num

module _ (fl : Float64) where
  open fl use {Num}

  -- The stretches of the methods that do not take `opMu`.
  pub data Quiet : Engine Num → Engine Num → Type 0 where
    ticks :
        {e : Engine Num} (whole : Whole fl) (env : Env) (ts : List (Tick Num))
        → Quiet e (on_ticks fl whole env ts e)
    second : {e : Engine Num} (env : Env) → Quiet e (on_second fl env e)
    connection : {e : Engine Num} (env : Env) (b : Bool) → Quiet e (on_connection fl env b e)
    ready : {e : Engine Num} (env : Env) → Quiet e (on_runtime_ready fl env e)
    dropped : {e : Engine Num} → Quiet e (invalidate fl e)
    stopped : {e : Engine Num} (env : Env) → Quiet e (stop_start fl env e)

  pub data Step : Machine Num → Machine Num → Type 0 where
    quiet :
        {e e' : Engine Num} {r : Option (Candidate Num)} {f : Flight Num}
        → Quiet e e'
        → Step
            (record { engine = e; received = r; flight = f })
            (record { engine = e'; received = r; flight = f })
    receive :
        {e : Engine Num} {f : Flight Num} (c : Candidate Num) (cs : List (Candidate Num))
        → e.candidates ≡ c ∷ cs
        → Step
            (record { engine = e; received = none; flight = f })
            (record { engine = record e { candidates = cs }; received = some c; flight = f })
    enter_begin :
        {e : Engine Num} (env : Env) (c : Candidate Num)
        → Step
            (record { engine = e; received = some c; flight = idle })
            (record { engine = e; received = some c; flight = entering c (may_enter fl env c e) })
    enter_end :
        {e : Engine Num} {r : Option (Candidate Num)} {b : Bool} (env : Env) (c : Candidate Num)
        (error : Option String)
        → Step
            (record { engine = e; received = r; flight = entering c b })
            (record { engine = enter_done fl env c b error e; received = none; flight = idle })
    close_begin :
        {e : Engine Num} {r : Option (Candidate Num)} (env : Env) (id : String) (t : Trade Num)
        → close_start fl env id e ≡ closing t
        → Step
            (record { engine = e; received = r; flight = idle })
            (record { engine = e; received = r; flight = exiting t })
    close_failed :
        {e : Engine Num} {r : Option (Candidate Num)} {t : Trade Num}
        → Step
            (record { engine = e; received = r; flight = exiting t })
            (record { engine = e; received = r; flight = idle })
    close_end :
        {e : Engine Num} {r : Option (Candidate Num)} {t : Trade Num}
        → Step
            (record { engine = e; received = r; flight = exiting t })
            (record { engine = close_done fl t e; received = r; flight = idle })
    switched :
        {e : Engine Num} {r : Option (Candidate Num)} (b : Bool)
        → Step
            (record { engine = e; received = r; flight = idle })
            (record { engine = set_paper_done fl b e; received = r; flight = idle })

  -- The machines that some steps lead to.
  pub data Reaches : Machine Num → Machine Num → Type 0 where
    here : {m : Machine Num} → Reaches m m
    then_step : {m₁ m₂ m₃ : Machine Num} → Reaches m₁ m₂ → Step m₂ m₃ → Reaches m₁ m₃
