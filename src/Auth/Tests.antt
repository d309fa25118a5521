-- ===== src/Auth/Tests.antt =====
-- Runs of the sessions of internal/auth/auth.go.
use text.Mathlib.Text.{◌==◌ as str_eq}
use cal_spread_backend.Base.{◌≡◌, refl, true, List, [], ◌∷◌, arith, if◌then◌else◌}
use cal_spread_backend.Base.Maps.{get}
use cal_spread_backend.Httpx.Ratelimit.{String-discrete}
use cal_spread_backend.Auth.{
  role_none, role_full, role_trade, save_admin_session, new_sessions, mint, role_of_token,
  check_passcode, passcode_forbidden, passcode_not_configured, read_passcode,
}
use cal_spread_backend.Auth.Lifetime.{
  Call, mints, asks, restores, serve_all, granted, role_at, serve_all-role_at,
}

abbrev calls : List Call
calls =
    mints "a" role_full 1000
    ∷ restores (record { token = "b"; role = role_trade; expiry_ms = 5000 } ∷ []) 2000
    ∷ asks "b" 6000
    ∷ []

serve_all-role_at_example : (role_of_token "b" 6001 (serve_all calls (new_sessions true))).1 ≡ (
    if str_eq "b" ""
    then role_none
    else role_at 6001 (granted true "b" calls (get String-discrete "b" [])))
serve_all-role_at_example =
    serve_all-role_at "b" calls 0 6001 (new_sessions true) (omega arith) (omega arith)

saved :
    (mint "a" role_full 1000 (new_sessions true)).persisted
    ≡ save_admin_session "a" role_full 86401000 ∷ []
unfolding mint
saved = refl

-- An empty header is read as an empty passcode, which is refused; without a secret nothing is let in.
empty_header : read_passcode (λ vs. "") ("" ∷ []) ("q" ∷ []) ≡ ("", true)
unfolding read_passcode
empty_header = refl

refused : check_passcode (λ s. s) str_eq "secret" "" true ≡ passcode_forbidden
unfolding check_passcode
refused = refl

not_configured : check_passcode (λ s. s) str_eq "" "secret" true ≡ passcode_not_configured
unfolding check_passcode
not_configured = refl
