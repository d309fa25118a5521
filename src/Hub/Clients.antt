-- ===== src/Hub/Clients.antt =====
-- internal/hub/hub.go: what the browsers receive.
use mathlib.Core.List.{append_assoc, append-nil}
use cal_spread_backend.Base.{
  ℕ, ◌≤◌, ◌≡◌, inl, inr, refl, sym, ◌∙◌, subst, Option, none, some, List, [], ◌∷◌, ◌++◌, ltb,
  length, length-append, is_some, if◌then◌else◌, ite, arith, ℕ_discrete, Option-cases, Bool-cases,
}
use cal_spread_backend.Base.Keys.{Unique, put-Unique, delete-Unique}
use cal_spread_backend.Base.Maps.{Map, get, keys, get-put, get-delete}
use cal_spread_backend.Hub.{
  Frame, Client, Hub, send_locked, send_each, send_all_locked, write_frame,
}

-- A frame that is sent to every browser, or a browser's writer taking one.
pub data Traffic (Num : Type 0) : Type 0 where
  sends : Frame Num → Traffic Num
  takes : ℕ → Traffic Num

module _ {Num : Type 0} where
  -- What a browser has been given: the frames that were written, then those that wait.
  abbrev pub given : Client Num → List (Frame Num)
  given c = c.written ++ c.frames

  abbrev pushed : ℕ → Frame Num → Option (Client Num) → Option (Client Num)
  pushed cap f none = none
  pushed cap f (some c) =
      if ltb (length c.frames) cap then some (record c { frames = c.frames ++ f ∷ [] }) else none

  abbrev taken : Option (Client Num) → Option (Client Num)
  taken none = none
  taken (some c) = elim c.frames [
    | [] ↦ some c
    | f ∷ fs ↦ some (record c { frames = fs; written = c.written ++ f ∷ [] })
  ]

  get-send_locked :
      (id j : ℕ) (f : Frame Num) (h : Hub Num)
      → get ℕ_discrete j (send_locked id f h).clients
        ≡ ite
            (ℕ_discrete id j)
            (pushed h.client_queue f (get ℕ_discrete j h.clients))
            (get ℕ_discrete j h.clients)
  unfolding send_locked
  get-send_locked id j f h = elim (Option-cases (get ℕ_discrete id h.clients)) [
    | inl e ↦ ground (arith, e)
    | inr (c, e) ↦ ground (
      arith,
      e,
      get-put ℕ_discrete id j (record c { frames = c.frames ++ f ∷ [] }) h.clients,
      get-delete ℕ_discrete id j h.clients,
    )
  ]

  send_locked-Unique :
      (id : ℕ) (f : Frame Num) (h : Hub Num)
      → Unique ℕ_discrete h.clients
      → Unique ℕ_discrete (send_locked id f h).clients
  unfolding send_locked
  send_locked-Unique id f h u = elim (Option-cases (get ℕ_discrete id h.clients)) [
    | inl e ↦ subst (Unique ℕ_discrete) (ground (arith, e)) u
    | inr (c, e) ↦ elim (Bool-cases (ltb (length c.frames) h.client_queue)) [
      | inl l ↦
          subst (Unique ℕ_discrete) (ground (arith, e, l))
            (put-Unique ℕ_discrete id (record c { frames = c.frames ++ f ∷ [] }) h.clients u)
      | inr l ↦
          subst (Unique ℕ_discrete) (ground (arith, e, l)) (delete-Unique ℕ_discrete id h.clients u)
    ]
  ]

  send_locked-client_queue :
      (id : ℕ) (f : Frame Num) (h : Hub Num) → (send_locked id f h).client_queue ≡ h.client_queue
  unfolding send_locked
  send_locked-client_queue id f h = ground arith

  send_each-client_queue :
      (ids : List ℕ) (f : Frame Num) (h : Hub Num)
      → (send_each ids f h).client_queue ≡ h.client_queue
  unfolding send_each
  send_each-client_queue [] f h = refl
  send_each-client_queue (id ∷ ids) f h =
      send_each-client_queue ids f (send_locked id f h) ∙ send_locked-client_queue id f h

  send_each-Unique :
      (ids : List ℕ) (f : Frame Num) (h : Hub Num)
      → Unique ℕ_discrete h.clients
      → Unique ℕ_discrete (send_each ids f h).clients
  unfolding send_each
  send_each-Unique [] f h u = u
  send_each-Unique (id ∷ ids) f h u =
      send_each-Unique ids f (send_locked id f h) (send_locked-Unique id f h u)

  get-send_each :
      (m : Map ℕ (Client Num)) (j : ℕ) (f : Frame Num) (h : Hub Num)
      → Unique ℕ_discrete m
      → get ℕ_discrete j (send_each (keys m) f h).clients ≡ (
          if is_some (get ℕ_discrete j m)
          then pushed h.client_queue f (get ℕ_discrete j h.clients)
          else get ℕ_discrete j h.clients)
  unfolding send_each get
  get-send_each [] j f h u = refl
  get-send_each ((id, c) ∷ m) j f h u = ground (
    arith,
    get-send_each m j f (send_locked id f h) u.1,
    get-send_locked id j f h,
    send_locked-client_queue id f h,
  )

  get-write_frame :
      (id j : ℕ) (h : Hub Num)
      → get ℕ_discrete j (write_frame id h).clients
        ≡ ite (ℕ_discrete id j) (taken (get ℕ_discrete j h.clients)) (get ℕ_discrete j h.clients)
  unfolding write_frame
  get-write_frame id j h = elim (Option-cases (get ℕ_discrete id h.clients)) [
    | inl e ↦ ground (arith, e)
    | inr (c, e) ↦ step c c.frames e refl
  ]
    where
      step :
          (c : Client Num) (fs : List (Frame Num))
          → get ℕ_discrete id h.clients ≡ some c
          → c.frames ≡ fs
          → get ℕ_discrete j (write_frame id h).clients
            ≡ ite
                (ℕ_discrete id j)
                (taken (get ℕ_discrete j h.clients))
                (get ℕ_discrete j h.clients)
      step c [] e l = ground arith
      step c (f ∷ fs) e l = ground (
        arith,
        get-put ℕ_discrete id j (record c { frames = fs; written = c.written ++ f ∷ [] }) h.clients,
      )

  write_frame-Unique :
      (id : ℕ) (h : Hub Num)
      → Unique ℕ_discrete h.clients
      → Unique ℕ_discrete (write_frame id h).clients
  unfolding write_frame
  write_frame-Unique id h u = elim (Option-cases (get ℕ_discrete id h.clients)) [
    | inl e ↦ subst (Unique ℕ_discrete) (ground (arith, e)) u
    | inr (c, e) ↦ step c c.frames e refl
  ]
    where
      step :
          (c : Client Num) (fs : List (Frame Num))
          → get ℕ_discrete id h.clients ≡ some c
          → c.frames ≡ fs
          → Unique ℕ_discrete (write_frame id h).clients
      step c [] e l = subst (Unique ℕ_discrete) (ground (arith, e, l)) u
      step c (f ∷ fs) e l = subst (Unique ℕ_discrete) (ground (arith, e, l)) (
          put-Unique ℕ_discrete id (record c { frames = fs; written = c.written ++ f ∷ [] })
            h.clients u)

  write_frame-client_queue :
      (id : ℕ) (h : Hub Num) → (write_frame id h).client_queue ≡ h.client_queue
  unfolding write_frame
  write_frame-client_queue id h = ground arith

  unfoldable pub flow : List (Traffic Num) → Hub Num → Hub Num
  flow [] h = h
  flow (sends f ∷ ts) h = flow ts (send_all_locked f h)
  flow (takes id ∷ ts) h = flow ts (write_frame id h)

  abbrev pub frames_sent : List (Traffic Num) → List (Frame Num)
  frames_sent [] = []
  frames_sent (sends f ∷ ts) = f ∷ frames_sent ts
  frames_sent (takes id ∷ ts) = frames_sent ts

  -- A browser that was told everything in `history`, with at most as many frames waiting as allowed.
  record Fed (cap : ℕ) (history : List (Frame Num)) (o : Option (Client Num)) : Type 0 where
    all : (c : Client Num) → o ≡ some c → given c ≡ history
    few : (c : Client Num) → o ≡ some c → length c.frames ≤ cap

  pushed-Fed :
      (cap : ℕ) (f : Frame Num) (history : List (Frame Num)) (o : Option (Client Num))
      → Fed cap history o
      → Fed cap (history ++ f ∷ []) (pushed cap f o)
  pushed-Fed cap f history none h = record {
    all = λ c e. absurd (ground arith);
    few = λ c e. absurd (ground arith);
  }
  pushed-Fed cap f history (some d) h = record {
    all = λ c e. ground (arith, h.all d refl, append_assoc d.written d.frames (f ∷ []));
    few = λ c e. ground (arith, length-append d.frames (f ∷ []));
  }

  taken-Fed :
      (cap : ℕ) (history : List (Frame Num)) (o : Option (Client Num))
      → Fed cap history o
      → Fed cap history (taken o)
  taken-Fed cap history none h = h
  taken-Fed cap history (some d) h = step d.frames refl
    where
      step : (fs : List (Frame Num)) → d.frames ≡ fs → Fed cap history (taken (some d))
      step [] l = subst (Fed cap history) (ground arith) h
      step (f ∷ fs) l = record {
        all = λ c e. ground (arith, h.all d refl, append_assoc d.written (f ∷ []) fs);
        few = λ c e. ground (arith, h.few d refl);
      }

  send_all-Fed :
      (j : ℕ) (f : Frame Num) (history : List (Frame Num)) (h : Hub Num)
      → Unique ℕ_discrete h.clients
      → Fed h.client_queue history (get ℕ_discrete j h.clients)
      → Fed h.client_queue (history ++ f ∷ []) (get ℕ_discrete j (send_all_locked f h).clients)
  send_all-Fed j f history h u k =
      subst (Fed h.client_queue (history ++ f ∷ []))
        (ground (arith, get-send_each h.clients j f h u))
        (pushed-Fed h.client_queue f history (get ℕ_discrete j h.clients) k)

  write_frame-Fed :
      (j id : ℕ) (history : List (Frame Num)) (h : Hub Num)
      → Fed h.client_queue history (get ℕ_discrete j h.clients)
      → Fed h.client_queue history (get ℕ_discrete j (write_frame id h).clients)
  write_frame-Fed j id history h k = elim (ℕ_discrete id j) [
    | yes e ↦
        subst (Fed h.client_queue history) (ground (arith, get-write_frame id j h))
          (taken-Fed h.client_queue history (get ℕ_discrete j h.clients) k)
    | no e ↦ subst (Fed h.client_queue history) (ground (arith, get-write_frame id j h)) k
  ]

  flow-Fed :
      (ts : List (Traffic Num)) (j : ℕ) (history : List (Frame Num)) (h : Hub Num)
      → Unique ℕ_discrete h.clients
      → Fed h.client_queue history (get ℕ_discrete j h.clients)
      → Fed h.client_queue (history ++ frames_sent ts) (get ℕ_discrete j (flow ts h).clients)
  unfolding flow
  flow-Fed [] j history h u k =
      subst (λ l. Fed h.client_queue l (get ℕ_discrete j h.clients)) (sym (append-nil history)) k
  flow-Fed (sends f ∷ ts) j history h u k =
      let next = send_all_locked f h in
      let same : next.client_queue ≡ h.client_queue = send_each-client_queue (keys h.clients) f h in
      let there : Fed next.client_queue (history ++ f ∷ []) (get ℕ_discrete j next.clients) =
        subst (λ (n : ℕ). Fed n (history ++ f ∷ []) (get ℕ_discrete j next.clients)) (sym same)
          (send_all-Fed j f history h u k) in
      let rest =
        flow-Fed ts j (history ++ f ∷ []) next (send_each-Unique (keys h.clients) f h u) there in
      subst
        (λ (n : ℕ). Fed n (history ++ f ∷ frames_sent ts) (get ℕ_discrete j (flow ts next).clients))
        same
        (subst (λ l. Fed next.client_queue l (get ℕ_discrete j (flow ts next).clients))
          (append_assoc history (f ∷ []) (frames_sent ts)) rest)
  flow-Fed (takes id ∷ ts) j history h u k =
      let next = write_frame id h in
      let same : next.client_queue ≡ h.client_queue = write_frame-client_queue id h in
      let there : Fed next.client_queue history (get ℕ_discrete j next.clients) =
        subst (λ (n : ℕ). Fed n history (get ℕ_discrete j next.clients)) (sym same)
          (write_frame-Fed j id history h k) in
      let rest = flow-Fed ts j history next (write_frame-Unique id h u) there in
      subst (λ (n : ℕ). Fed n (history ++ frames_sent ts) (get ℕ_discrete j (flow ts next).clients))
        same rest

  -- However the frames to every browser and the browsers' writers interleave, a browser that is still
  -- attached has been given every frame that was sent, in order and once, after what it had before,
  -- and at most as many frames wait for it as its queue may hold: a browser that falls further behind
  -- is dropped rather than given the frames with a gap.
  pub flow-given :
      (ts : List (Traffic Num)) (j : ℕ) (c d : Client Num) (h : Hub Num)
      → Unique ℕ_discrete h.clients
      → get ℕ_discrete j h.clients ≡ some c
      → length c.frames ≤ h.client_queue
      → get ℕ_discrete j (flow ts h).clients ≡ some d
      → (given d ≡ given c ++ frames_sent ts) × (length d.frames ≤ h.client_queue)
  flow-given ts j c d h u e l f =
      let k =
        flow-Fed ts j (given c) h u
          (record { all = λ b p. ground arith; few = λ b p. ground arith }) in
      (k.all d f, k.few d f)
