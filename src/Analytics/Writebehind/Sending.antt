-- ===== src/Analytics/Writebehind/Sending.antt =====
-- internal/analytics/writebehind.go with internal/kv/kv.go: what a flush leaves in the cache. `show` is
-- strconv.FormatInt, which writes different numbers differently.
use cal_spread_backend.Base.{
  ◌≤◌, ◌<◌, ◌+◌, subst, Bool-cases, inl, inr, Bool, ℕ, ◌*◌, ◌≡◌, refl, sym, ap, ◌∙◌, true, false,
  not, ◌&&◌, Option, none, some, List, [], ◌∷◌, ◌++◌, String, ltb, is_empty, mem, if◌then◌else◌,
  arith, map, All, ℕ_discrete,
}
use cal_spread_backend.Base.Filter.{append-All}
use cal_spread_backend.Base.Keys.{Unique}
use cal_spread_backend.Base.Maps.{Map, get, put, delete, get-put, get-delete}
use cal_spread_backend.Httpx.Ratelimit.{String-discrete}
use cal_spread_backend.Kv.{Cache}
use cal_spread_backend.Kv.Visible.{
  Entry, entry, Rooted, Command, sets, hsets, hdels, expires, put_all, delete_all, old_fields,
  shown,
}
use cal_spread_backend.Kv.Refinement.{delete_all-nil}
use cal_spread_backend.Kv.Commands.{
  commands, shown_all, last_time, InOrder, expire_by, entry-expire_by, commands-shown_all,
}
use cal_spread_backend.Analytics.Writebehind.{
  PendingHash, CacheOp, hset_op, hdel_op, expire_op, set_op, field_pairs, hash_write_ops,
}
use cal_spread_backend.Analytics.Writebehind.Requeue.{field_write}
use cal_spread_backend.Analytics.Writebehind.Disjoint.{IsDisjoint}

-- A lifetime in seconds, in nanoseconds.
abbrev pub nanoseconds : ℕ → ℕ
nanoseconds s = s * 1000000000

abbrev pub ops_of : List (ℕ × ℕ × CacheOp) → List CacheOp
ops_of [] = []
ops_of ((at, now, op) ∷ timed) = op ∷ ops_of timed

-- EXPIRE counts from a reading that is not before `start`, and no command comes after `final`.
abbrev pub Timely : ℕ → ℕ → List (ℕ × ℕ × CacheOp) → Type 0
Timely start final [] = Unit
Timely start final ((at, now, op) ∷ timed) = (start ≤ at) × (now ≤ final) × Timely start final timed

module _ (show : ℕ → String) where
  abbrev pub shown_pairs : List (ℕ × String) → Map String String
  shown_pairs [] = []
  shown_pairs ((f, v) ∷ m) = (show f, v) ∷ shown_pairs m

  -- The call of the cache for a command, with the clock's reading from which EXPIRE counts.
  unfoldable pub sent : ℕ → CacheOp → Command
  sent at (hset_op key fields) = hsets key (shown_pairs fields)
  sent at (hdel_op key fields) = hdels key (map show fields)
  sent at (expire_op key ttl) = expires key at (nanoseconds ttl)
  sent at (set_op key value ttl) = sets key value (nanoseconds ttl)

  -- The commands of a flush, each with its two readings of the clock, and the second with its call.
  unfoldable pub sent_all : List (ℕ × ℕ × CacheOp) → List (ℕ × Command)
  sent_all [] = []
  sent_all ((at, now, op) ∷ timed) = (now, sent at op) ∷ sent_all timed

  module _ (show_injective : (a b : ℕ) → show a ≡ show b → a ≡ b) where
    get-put_all :
        {V : Type 0} (marshal : V → String) (f : ℕ) (entries : Map ℕ V) (m : Map String String)
        → Unique ℕ_discrete entries
        → get String-discrete (show f) (put_all (shown_pairs (field_pairs marshal entries)) m)
          ≡ elim (get ℕ_discrete f entries) [
            | none ↦ get String-discrete (show f) m
            | some v ↦ some (marshal v)
          ]
    unfolding put_all get
    get-put_all marshal f [] m u = refl
    get-put_all marshal f ((g, v) ∷ entries) m u = ground (
      arith,
      get-put_all marshal f entries (put String-discrete (show g) (marshal v) m) u.1,
      get-put String-discrete (show g) (show f) (marshal v) m,
      show_injective g f,
      u.0,
    )

    get-delete_all :
        (f : ℕ) (fs : List ℕ) (m : Map String String)
        → get String-discrete (show f) (delete_all (map show fs) m)
          ≡ (if mem ℕ_discrete f fs then none else get String-discrete (show f) m)
    unfolding delete_all mem
    get-delete_all f [] m = refl
    get-delete_all f (g ∷ fs) m = ground (
      arith,
      get-delete_all f fs (delete String-discrete (show g) m),
      get-delete String-discrete (show g) (show f) m,
      show_injective g f,
    )

  -- A command of one hash, whose lifetime, if it gives one, is longer than the time from `start` to `final`.
  abbrev OfHash : ℕ → ℕ → String → CacheOp → Type 0
  OfHash start final key (hset_op k fields) = k ≡ key
  OfHash start final key (hdel_op k fields) = k ≡ key
  OfHash start final key (expire_op k ttl) = (k ≡ key) × (final < start + nanoseconds ttl)
  OfHash start final key (set_op k value ttl) = ⊥

  op_fields : CacheOp → Map String String → Map String String
  op_fields (hset_op k fields) m = put_all (shown_pairs fields) m
  op_fields (hdel_op k fields) m = delete_all (map show fields) m
  op_fields (expire_op k ttl) m = m
  op_fields (set_op k value ttl) m = m

  ops_fields : List CacheOp → Map String String → Map String String
  ops_fields [] m = m
  ops_fields (op ∷ ops) m = ops_fields ops (op_fields op m)

  -- A command on a key that lasts leaves one that lasts or drops it.
  shown-lasts :
      (start at now final : ℕ) (key : String) (op : CacheOp) (e : Option Entry)
      → start ≤ at
      → now ≤ final
      → OfHash start final key op
      → expire_by final e ≡ e
      → expire_by final (shown now (sent at op) key e) ≡ shown now (sent at op) key e
  unfolding sent shown
  shown-lasts start at now final key (hset_op k fields) e s n o l = ground arith
  shown-lasts start at now final key (hdel_op k fields) e s n o l = ground arith
  shown-lasts start at now final key (expire_op k ttl) e s n o l = ground (arith, o.1)
  shown-lasts start at now final key (set_op k value ttl) e s n o l = absurd o

  shown-op_fields :
      (start at now final : ℕ) (key : String) (op : CacheOp) (e : Option Entry)
      → start ≤ at
      → now ≤ final
      → OfHash start final key op
      → old_fields (shown now (sent at op) key e) ≡ op_fields op (old_fields e)
  unfolding sent shown op_fields put_all delete_all
  shown-op_fields start at now final key (hset_op k fields) e s n o = ground arith
  shown-op_fields start at now final key (hdel_op k fields) e s n o =
      ground (arith, delete_all-nil (map show fields))
  shown-op_fields start at now final key (expire_op k ttl) e s n o = ground (arith, o.1, o.0)
  shown-op_fields start at now final key (set_op k value ttl) e s n o = absurd o

  lasts-now :
      (now final : ℕ) (e : Option Entry) → now ≤ final → expire_by final e ≡ e → expire_by now e ≡ e
  lasts-now now final none n l = refl
  lasts-now now final (some e) n l = ground arith

  shown_all-ops_fields :
      (start final : ℕ) (key : String) (timed : List (ℕ × ℕ × CacheOp)) (e : Option Entry)
      → Timely start final timed
      → All (OfHash start final key) (ops_of timed)
      → expire_by final e ≡ e
      → (old_fields (shown_all (sent_all timed) key e) ≡ ops_fields (ops_of timed) (old_fields e))
        × (expire_by final (shown_all (sent_all timed) key e) ≡ shown_all (sent_all timed) key e)
  unfolding shown_all sent_all ops_fields
  shown_all-ops_fields start final key [] e t o l = (refl, l)
  shown_all-ops_fields start final key ((at, now, op) ∷ timed) e t o l =
      let next = shown now (sent at op) key e in
      let live = lasts-now now final e t.1 l in
      let rest =
        shown_all-ops_fields start final key timed next t.2 o.1
          (shown-lasts start at now final key op e t.0 t.1 o.0 l) in
      let fields = shown-op_fields start at now final key op e t.0 t.1 o.0 in
      (
        ap (λ x. old_fields (shown_all (sent_all timed) key (shown now (sent at op) key x))) live
            ∙ rest.0
            ∙ ap (ops_fields (ops_of timed)) fields,
        subst
            (λ x.
              expire_by final (shown_all (sent_all timed) key (shown now (sent at op) key x))
              ≡ shown_all (sent_all timed) key (shown now (sent at op) key x))
            (sym live) rest.1,
      )

  last_time-Timely :
      (start clock final : ℕ) (timed : List (ℕ × ℕ × CacheOp))
      → clock ≤ final
      → Timely start final timed
      → last_time clock (sent_all timed) ≤ final
  unfolding sent_all
  last_time-Timely start clock final [] c t = c
  last_time-Timely start clock final ((at, now, op) ∷ timed) c t =
      last_time-Timely start now final timed t.1 t.2

  ops_fields-hash_write_ops :
      {V : Type 0} (marshal : V → String) (key : String) (entries : Map ℕ V) (stale : List ℕ)
      (ttl : ℕ) (m : Map String String)
      → ops_fields (hash_write_ops marshal key entries stale ttl) m
        ≡ delete_all (map show stale) (put_all (shown_pairs (field_pairs marshal entries)) m)
  unfolding hash_write_ops ops_fields op_fields delete_all put_all
  ops_fields-hash_write_ops marshal key entries stale ttl m = ground arith

  hash_write_ops-OfHash :
      {V : Type 0} (marshal : V → String) (start final : ℕ) (key : String) (entries : Map ℕ V)
      (stale : List ℕ) (ttl : ℕ)
      → (0 < ttl → final < start + nanoseconds ttl)
      → All (OfHash start final key) (hash_write_ops marshal key entries stale ttl)
  unfolding hash_write_ops
  hash_write_ops-OfHash marshal start final key entries stale ttl long =
      let P : CacheOp → Type 0 = OfHash start final key in
      let set_part : List CacheOp =
        if is_empty entries then [] else hset_op key (field_pairs marshal entries) ∷ [] in
      let del_part : List CacheOp = if is_empty stale then [] else hdel_op key stale ∷ [] in
      let expire_part : List CacheOp = expire_op key ttl ∷ [] in
      let of_set : All P set_part =
        elim (is_empty entries)
          as (λ b. All P (if b then [] else hset_op key (field_pairs marshal entries) ∷ [])) [
            | true ↦ tt
            | false ↦ (refl, tt)
          ] in
      let of_del : All P del_part =
        elim (is_empty stale) as (λ b. All P (if b then [] else hdel_op key stale ∷ [])) [
          | true ↦ tt
          | false ↦ (refl, tt)
        ] in
      let both : All P (set_part ++ del_part) = append-All P set_part del_part of_set of_del in
      let ops : Bool → List CacheOp =
        λ b. if b then (set_part ++ del_part) ++ expire_part else set_part ++ del_part in
      elim (Bool-cases (not (is_empty (set_part ++ del_part)) && ltb 0 ttl)) [
        | inl sends ↦
            subst (λ b. All P (ops b)) (sym sends)
              (append-All P (set_part ++ del_part) expire_part both
                ((refl, long (ground (arith, sends))), tt))
        | inr lacks ↦ subst (λ b. All P (ops b)) (sym lacks) both
      ]

  -- When the cache carries out the commands of a hash one after another, each at its own time, and is read
  -- at the time `final`, every field of the hash has the value that was to be written, is gone if it was to
  -- be deleted, and is else what it was at the start; if the hash that was there at the start lasts until
  -- `final`, and so does a lifetime that is sent, counted from the start. The cache is enabled, its rows all
  -- belong to keys, and the writes have one entry for each field, none of them deleted at once.
  pub sent_all-field_write :
      {V : Type 0} (marshal : V → String) (start final ttl : ℕ) (key : String) (f : ℕ)
      (p : PendingHash V) (timed : List (ℕ × ℕ × CacheOp)) (c : Cache)
      → ((a b : ℕ) → show a ≡ show b → a ≡ b)
      → c.enabled ≡ true
      → Rooted c.tables
      → Unique ℕ_discrete p.entries
      → IsDisjoint p
      → ops_of timed ≡ hash_write_ops marshal key p.entries p.stale ttl
      → InOrder start (sent_all timed)
      → start ≤ final
      → Timely start final timed
      → expire_by final (entry start key c.tables) ≡ entry start key c.tables
      → (0 < ttl → final < start + nanoseconds ttl)
      → get String-discrete
          (show f)
          (old_fields (entry final key (commands (sent_all timed) c).tables))
        ≡ elim (field_write f p) [
          | none ↦ get String-discrete (show f) (old_fields (entry start key c.tables))
          | some w ↦ elim w [ none ↦ none | some v ↦ some (marshal v) ]
        ]
  sent_all-field_write marshal start final ttl key f p timed c inj on r u d ops order ahead times
        lasts long =
      let before = entry start key c.tables in
      let after = commands-shown_all start (sent_all timed) key c on r order in
      let of_hash =
        subst (All (OfHash start final key)) (sym ops)
          (hash_write_ops-OfHash marshal start final key p.entries p.stale ttl long) in
      let fields = shown_all-ops_fields start final key timed before times of_hash lasts in
      let read =
        entry-expire_by (last_time start (sent_all timed)) final key
          (commands (sent_all timed) c).tables
          (last_time-Timely start start final timed ahead times) in
      let seen : entry final key (commands (sent_all timed) c).tables
          ≡ shown_all (sent_all timed) key before =
        read ∙ ap (expire_by final) after ∙ fields.1 in
      let wrote : old_fields (shown_all (sent_all timed) key before)
          ≡ ops_fields (hash_write_ops marshal key p.entries p.stale ttl) (old_fields before) =
        fields.0 ∙ ap (λ x. ops_fields x (old_fields before)) ops in
      let shape = ops_fields-hash_write_ops marshal key p.entries p.stale ttl (old_fields before) in
      let puts = get-put_all inj marshal f p.entries (old_fields before) u in
      let dels =
        get-delete_all inj f p.stale
          (put_all (shown_pairs (field_pairs marshal p.entries)) (old_fields before)) in
      ground (arith, seen, wrote, shape, puts, dels, d.apart f)
