-- ===== src/Kv/Tests.antt =====
-- Runs of the cache of internal/kv/kv.go.
use cal_spread_backend.Base.{ℕ, ◌≡◌, refl, true, none, List, [], ◌∷◌, arith}
use cal_spread_backend.Base.Maps.{get}
use cal_spread_backend.Httpx.Ratelimit.{String-discrete}
use cal_spread_backend.Kv.{Cache, Tables, lost, refused}
use cal_spread_backend.Kv.Visible.{
  entry, Rooted, Command, sets, hsets, hdels, expires, command, all_well, old_fields, old_expiry,
}
use cal_spread_backend.Kv.Commands.{commands}
use cal_spread_backend.Kv.Reference.{redis, redis_all, living, view, AllFit, commands-redis_all}
use cal_spread_backend.Kv.Resending.{command-command}

abbrev empty_cache : Cache
empty_cache = record { enabled = true; tables = record { keys = []; rows = [] } }

-- A hash is written and gets a lifetime, one of its fields goes, and then it expires.
abbrev day : List (ℕ × Command)
day =
    (10, hsets "frames" (("1", "a") ∷ ("2", "b") ∷ []))
    ∷ (20, expires "frames" 20 100)
    ∷ (30, hdels "frames" ("1" ∷ []))
    ∷ (130, sets "other" "x" 5)
    ∷ []

empty_cache-Rooted : Rooted empty_cache.tables
unfolding cal_spread_backend.Kv.fields_of
empty_cache-Rooted k h = refl

day-AllFit : AllFit day "frames" none
unfolding redis living
day-AllFit = (λ p. refl, (λ p. omega arith, (λ p. ground arith, (tt, tt))))

commands-redis_all_example :
    entry 130 "frames" (commands day empty_cache).tables ≡ view (redis_all day "frames" none)
unfolding entry get
commands-redis_all_example =
    commands-redis_all 0 day "frames" empty_cache none refl empty_cache-Rooted (omega arith) refl
      day-AllFit

-- The commit is carried out, but its answer is lost.
command-command_example :
    (get String-discrete "1" (
        old_fields (
          entry 9 "frames"
            (command all_well 9
              (hsets "frames" (("1", "a") ∷ []))
              (command
                (true, true, true, true, lost)
                5
                (hsets "frames" (("1", "a") ∷ []))
                empty_cache).0).0.tables))
      ≡ get String-discrete "1" (
          old_fields (
            entry 9 "frames"
              (command all_well 9 (hsets "frames" (("1", "a") ∷ [])) empty_cache).0.tables)))
    × (old_expiry (
          entry 9 "frames"
            (command all_well 9
              (hsets "frames" (("1", "a") ∷ []))
              (command
                (true, true, true, true, lost)
                5
                (hsets "frames" (("1", "a") ∷ []))
                empty_cache).0).0.tables)
        ≡ old_expiry (
            entry 9 "frames"
              (command all_well 9 (hsets "frames" (("1", "a") ∷ [])) empty_cache).0.tables))
command-command_example =
    command-command (true, true, true, true, lost) 5 9 (hsets "frames" (("1", "a") ∷ [])) "frames"
      "1" empty_cache refl empty_cache-Rooted (omega arith) tt
