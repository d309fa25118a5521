-- ===== src/Auth.antt =====
-- internal/auth/auth.go: the sessions of the administrators. A token is given when a session is
-- issued, since it is random; the calls to the table of persisted sessions are a list, in order; and
-- the text functions of Go's library and the comparison of digests are given. Times are epoch
-- milliseconds.
pub mod Lifetime
pub mod Tests
use text.Mathlib.Text.{◌==◌ as str_eq}
use cal_spread_backend.Base.{
  ℕ, ◌+◌, Bool, true, false, ◌||◌, not, Option, none, some, List, [], ◌∷◌, ◌++◌, String, ltb,
  length, if◌then◌else◌,
}
use cal_spread_backend.Base.Maps.{Map, get, put, delete}
use cal_spread_backend.Httpx.Ratelimit.{String-discrete}

pub data Role : Type 0 where
  role_none : Role
  role_full : Role
  role_trade : Role

-- 24 hours.
abbrev pub session_ttl : ℕ
session_ttl = 86400000

pub record Session : Type 0 where
  pub expiry_ms : ℕ
  pub role : Role

pub record StoredSession : Type 0 where
  pub token : String
  pub role : Role
  pub expiry_ms : ℕ

pub data StoreCall : Type 0 where
  save_admin_session : String → Role → ℕ → StoreCall
  delete_admin_session : String → StoreCall

pub record Sessions : Type 0 where
  pub m : Map String Session
  pub has_store : Bool
  pub persisted : List StoreCall

abbrev pub new_sessions : Bool → Sessions
new_sessions has_store = record { m = []; has_store = has_store; persisted = [] }

abbrev persist : StoreCall → Sessions → Sessions
persist call s = if s.has_store then record s { persisted = s.persisted ++ call ∷ [] } else s

unfoldable pub mint : String → Role → ℕ → Sessions → Sessions
mint token role now s =
    let expiry = now + session_ttl in
    persist (save_admin_session token role expiry)
      (record s { m = put String-discrete token (record { expiry_ms = expiry; role = role }) s.m })

-- `Role`: an unknown or expired token is dropped from the memory, a known one from the store too.
unfoldable pub role_of_token : String → ℕ → Sessions → Sessions × Role
role_of_token token now s =
    if str_eq token "" then (s, role_none) else elim (get String-discrete token s.m) [
      | none ↦ (record s { m = delete String-discrete token s.m }, role_none)
      | some sess ↦
          if ltb sess.expiry_ms now
          then (
            persist (delete_admin_session token)
                (record s { m = delete String-discrete token s.m }),
            role_none,
          )
          else (s, sess.role)
    ]

unfoldable pub add_rows : List StoredSession → Map String Session → Map String Session
add_rows [] m = m
add_rows (r ∷ rows) m =
    add_rows rows
      (put String-discrete r.token (record { expiry_ms = r.expiry_ms; role = r.role }) m)

-- `Restore`, with what the store answers, and the number that it reports.
unfoldable pub restore : Option (List StoredSession) → Sessions → Sessions × Option ℕ
restore loaded s = if not s.has_store then (s, some 0) else elim loaded [
  | none ↦ (s, none)
  | some rows ↦ (record s { m = add_rows rows s.m }, some (length rows))
]

-- Whether the guarded handler runs; otherwise the answer is 403.
abbrev pub require_admin : Role → Bool
require_admin role_none = false
require_admin role_full = true
require_admin role_trade = true

abbrev pub require_full : Role → Bool
require_full role_full = true
require_full role_none = false
require_full role_trade = false

pub data PasscodeResult : Type 0 where
  passcode_ok : PasscodeResult
  passcode_forbidden : PasscodeResult
  passcode_not_configured : PasscodeResult

-- `trim` is strings.TrimSpace, `same_digest` compares the digests of two texts.
unfoldable pub check_passcode :
    (String → String) → (String → String → Bool) → String → String → Bool → PasscodeResult
check_passcode trim same_digest configured provided supplied =
    let secret = trim configured in
    if str_eq secret ""
    then passcode_not_configured
    else if not supplied || str_eq provided ""
    then passcode_forbidden
    else if same_digest secret provided
    then passcode_ok
    else passcode_forbidden

-- `join` is strings.Join with a comma and a space.
unfoldable pub read_passcode : (List String → String) → List String → List String → String × Bool
read_passcode join (v ∷ header) query = (join (v ∷ header), true)
read_passcode join [] (q ∷ []) = (q, true)
read_passcode join [] _ = ("", false)
