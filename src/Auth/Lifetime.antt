-- ===== src/Auth/Lifetime.antt =====
-- internal/auth/auth.go: how long a session lasts.
use text.Mathlib.Text.{◌==◌ as str_eq}
use cal_spread_backend.Base.{
  ℕ, ◌+◌, ◌≤◌, ◌≡◌, refl, sym, ap, ◌∙◌, Bool, Option, none, some, List, [], ◌∷◌, String, ltb,
  if◌then◌else◌, ite, arith, Option-cases, inl, inr,
}
use cal_spread_backend.Base.Maps.{Map, get, put, get-put, get-delete}
use cal_spread_backend.Httpx.Ratelimit.{String-discrete}
use cal_spread_backend.Auth.{
  Role, role_none, Session, StoredSession, Sessions, session_ttl, mint, role_of_token, add_rows,
  restore,
}

-- A call, with its time.
pub data Call : Type 0 where
  mints : String → Role → ℕ → Call
  asks : String → ℕ → Call
  restores : List StoredSession → ℕ → Call

abbrev pub time_of : Call → ℕ
time_of (mints token role now) = now
time_of (asks token now) = now
time_of (restores rows now) = now

unfoldable pub serve : Call → Sessions → Sessions
serve (mints token role now) s = mint token role now s
serve (asks token now) s = (role_of_token token now s).0
serve (restores rows now) s = (restore (some rows) s).0

unfoldable pub serve_all : List Call → Sessions → Sessions
serve_all [] s = s
serve_all (c ∷ cs) s = serve_all cs (serve c s)

abbrev pub InOrder : ℕ → List Call → Type 0
InOrder clock [] = Unit
InOrder clock (c ∷ cs) = (clock ≤ time_of c) × InOrder (time_of c) cs

abbrev pub last_time : ℕ → List Call → ℕ
last_time clock [] = clock
last_time clock (c ∷ cs) = last_time (time_of c) cs

-- The session that a token was last given; asking for its role changes nothing.
unfoldable pub last_row : String → List StoredSession → Option Session → Option Session
last_row token [] old = old
last_row token (r ∷ rows) old = last_row token rows (
    ite (String-discrete r.token token) (some (record { expiry_ms = r.expiry_ms; role = r.role }))
      old)

unfoldable pub granted : Bool → String → List Call → Option Session → Option Session
granted has_store token [] old = old
granted has_store token (mints t role now ∷ cs) old = granted has_store token cs (
    ite (String-discrete t token) (some (record { expiry_ms = now + session_ttl; role = role }))
      old)
granted has_store token (asks t now ∷ cs) old = granted has_store token cs old
granted has_store token (restores rows now ∷ cs) old =
    granted has_store token cs (if has_store then last_row token rows old else old)

-- The role that a session gives at a time.
abbrev pub role_at : ℕ → Option Session → Role
role_at now none = role_none
role_at now (some s) = if ltb s.expiry_ms now then role_none else s.role

-- Two sessions that no question from now on can tell apart.
Agree : ℕ → Option Session → Option Session → Type 0
Agree clock a b = (later : ℕ) → clock ≤ later → role_at later a ≡ role_at later b

get-add_rows :
    (token : String) (rows : List StoredSession) (m : Map String Session)
    → get String-discrete token (add_rows rows m)
      ≡ last_row token rows (get String-discrete token m)
unfolding add_rows last_row
get-add_rows token [] m = refl
get-add_rows token (r ∷ rows) m =
    let new : Session = record { expiry_ms = r.expiry_ms; role = r.role } in
    get-add_rows token rows (put String-discrete r.token new m)
    ∙ ap (last_row token rows) (get-put String-discrete r.token token new m)

last_row-Agree :
    (clock : ℕ) (token : String) (rows : List StoredSession) (a b : Option Session)
    → Agree clock a b
    → Agree clock (last_row token rows a) (last_row token rows b)
unfolding last_row Agree
last_row-Agree clock token [] a b h = h
last_row-Agree clock token (r ∷ rows) a b h =
    last_row-Agree clock token rows _ _ (λ later le. ground (arith, h later le))

-- Dropping an expired session cannot be noticed.
asks-Agree :
    (clock now : ℕ) (t token : String) (s : Sessions) (b : Option Session)
    → clock ≤ now
    → Agree clock (get String-discrete token s.m) b
    → Agree now (get String-discrete token (role_of_token t now s).0.m) b
unfolding role_of_token Agree
asks-Agree clock now t token s b o h later le = elim (Option-cases (get String-discrete t s.m)) [
  | inl n ↦ ground (arith, n, get-delete String-discrete t token s.m, h later (omega arith))
  | inr (sess, e) ↦ ground (arith, e, get-delete String-discrete t token s.m, h later (omega arith))
]

serve-has_store : (c : Call) (s : Sessions) → (serve c s).has_store ≡ s.has_store
unfolding serve mint role_of_token restore
serve-has_store (mints token role now) s = ground arith
serve-has_store (asks token now) s = ground arith
serve-has_store (restores rows now) s = ground arith

module _ (token : String) where
  -- One call, on the session that the token was last given.
  grant : Bool → Call → Option Session → Option Session
  grant has_store c old = granted has_store token (c ∷ []) old

  serve-Agree :
      (c : Call) (clock : ℕ) (s : Sessions) (b : Option Session)
      → clock ≤ time_of c
      → Agree clock (get String-discrete token s.m) b
      → Agree (time_of c) (get String-discrete token (serve c s).m) (grant s.has_store c b)
  unfolding serve grant granted mint restore Agree
  serve-Agree (mints t role now) clock s b o h later le = ground (
    arith,
    h later (omega arith),
    get-put String-discrete t token (record { expiry_ms = now + session_ttl; role = role }) s.m,
  )
  serve-Agree (asks t now) clock s b o h later le = asks-Agree clock now t token s b o h later le
  serve-Agree (restores rows now) clock s b o h later le = ground (
    arith,
    h later (omega arith),
    get-add_rows token rows s.m,
    last_row-Agree clock token rows (get String-discrete token s.m) b h later (omega arith),
  )

  granted-grant :
      (has_store : Bool) (c : Call) (cs : List Call) (old : Option Session)
      → granted has_store token (c ∷ cs) old ≡ granted has_store token cs (grant has_store c old)
  unfolding granted grant
  granted-grant has_store (mints t role now) cs old = refl
  granted-grant has_store (asks t now) cs old = refl
  granted-grant has_store (restores rows now) cs old = refl

  serve_all-Agree :
      (cs : List Call) (clock : ℕ) (s : Sessions) (b : Option Session)
      → InOrder clock cs
      → Agree clock (get String-discrete token s.m) b
      → Agree
          (last_time clock cs)
          (get String-discrete token (serve_all cs s).m)
          (granted s.has_store token cs b)
  unfolding serve_all granted Agree
  serve_all-Agree [] clock s b o h later le = h later le
  serve_all-Agree (c ∷ cs) clock s b o h later le =
      serve_all-Agree cs (time_of c) (serve c s) (grant s.has_store c b) o.1
        (serve-Agree c clock s b o.0 h) later le
      ∙ ap (λ (x : Bool). role_at later (granted x token cs (grant s.has_store c b)))
          (serve-has_store c s)
      ∙ ap (role_at later) (sym (granted-grant s.has_store c cs b))

  -- After any calls in the order of time, a token has the role of the session that it was last given,
  -- up to 24 hours after that was issued, or up to the expiry that was restored, and none later: what
  -- is dropped from the memory on the way is never missed. An empty token has no role.
  pub serve_all-role_at :
      (cs : List Call) (clock later : ℕ) (s : Sessions)
      → InOrder clock cs
      → last_time clock cs ≤ later
      → (role_of_token token later (serve_all cs s)).1 ≡ (
          if str_eq token ""
          then role_none
          else role_at later (granted s.has_store token cs (get String-discrete token s.m)))
  unfolding role_of_token Agree
  serve_all-role_at cs clock later s o le =
      let start : Agree clock (get String-discrete token s.m) (get String-discrete token s.m) =
        λ t l. refl in
      let same = serve_all-Agree cs clock s (get String-discrete token s.m) o start later le in
      elim (Option-cases (get String-discrete token (serve_all cs s).m)) [
        | inl n ↦ ground (arith, n, same)
        | inr (x, e) ↦ ground (arith, e, same)
      ]
