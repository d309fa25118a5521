-- ===== src/Kv/Resending.antt =====
-- internal/kv/kv.go: a command that is sent again, as a flush that failed does it.
use cal_spread_backend.Base.{
  ℕ, ◌≤◌, ◌≡◌, refl, ap, ◌∙◌, sym, subst, ◌⊎◌, inl, inr, true, Option, none, some, List, [], ◌∷◌,
  String, ite, mem, arith,
}
use cal_spread_backend.Base.Maps.{Map, get, put, delete, get-put, get-delete}
use cal_spread_backend.Base.Keys.{delete_absent}
use cal_spread_backend.Httpx.Ratelimit.{String-discrete}
use cal_spread_backend.Kv.{
  Cache, accepted, refused, lost, statements, in_tx, execute, set_plain, hset, hdel, expire, del,
  purge,
}
use cal_spread_backend.Kv.Visible.{
  Entry, entry, Rooted, Command, sets, hsets, hdels, expires, dels, purges, shown, put_all,
  delete_all, old_expiry, old_fields, Answers, command, all_well,
}
use cal_spread_backend.Kv.Commands.{
  expire_by, entry-expire_by, apply_command, command-apply_command, apply_command-Rooted,
  entry-apply_command,
}

-- The value that the last pair of the field has.
unfoldable last_of : String → Map String String → Option String
last_of f [] = none
last_of f ((g, v) ∷ fs) = elim (last_of f fs) [
  | some w ↦ some w
  | none ↦ ite (String-discrete g f) (some v) none
]

get-put_all :
    (f : String) (fs m : Map String String)
    → get String-discrete f (put_all fs m)
      ≡ elim (last_of f fs) [ some v ↦ some v | none ↦ get String-discrete f m ]
unfolding put_all last_of
get-put_all f [] m = refl
get-put_all f ((g, v) ∷ fs) m =
    ground (arith, get-put_all f fs (put String-discrete g v m), get-put String-discrete g f v m)

get-put_all_twice :
    (f : String) (fs m : Map String String)
    → get String-discrete f (put_all fs (put_all fs m)) ≡ get String-discrete f (put_all fs m)
get-put_all_twice f fs m = ground (arith, get-put_all f fs (put_all fs m), get-put_all f fs m)

get-delete_all_absent :
    (f : String) (fs : List String) (m : Map String String)
    → get String-discrete f m ≡ none
    → get String-discrete f (delete_all fs m) ≡ none
unfolding delete_all
get-delete_all_absent f [] m h = h
get-delete_all_absent f (g ∷ fs) m h =
    get-delete_all_absent f fs (delete String-discrete g m)
      (ground (arith, h, get-delete String-discrete g f m))

get-delete_all :
    (f : String) (fs : List String) (m : Map String String)
    → mem String-discrete f fs ≡ true
    → get String-discrete f (delete_all fs m) ≡ none
unfolding delete_all mem
get-delete_all f [] m h = absurd (ground (arith, h))
get-delete_all f (g ∷ fs) m h = elim (String-discrete g f) [
  | yes same ↦
      get-delete_all_absent f fs (delete String-discrete g m)
        (ground (arith, same, get-delete String-discrete g f m))
  | no other ↦ get-delete_all f fs (delete String-discrete g m) (ground (arith, other, h))
]

delete_all-absent :
    (fs : List String) (m : Map String String)
    → ((f : String) → mem String-discrete f fs ≡ true → get String-discrete f m ≡ none)
    → delete_all fs m ≡ m
unfolding delete_all mem
delete_all-absent [] m h = refl
delete_all-absent (g ∷ fs) m h =
    let gone : delete String-discrete g m ≡ m =
      delete_absent String-discrete g m (h g (ground arith)) in
    ap (delete_all fs) gone ∙ delete_all-absent fs m (λ f e. h f (ground (arith, e)))

delete_all_twice :
    (fs : List String) (m : Map String String) → delete_all fs (delete_all fs m) ≡ delete_all fs m
delete_all_twice fs m = delete_all-absent fs (delete_all fs m) (λ f. get-delete_all f fs m)

-- What a client sees of a field and of the lifetime is the same.
abbrev Agrees : String → Option Entry → Option Entry → Type 0
Agrees f a b =
    (get String-discrete f (old_fields a) ≡ get String-discrete f (old_fields b))
    × (old_expiry a ≡ old_expiry b)

-- The commands that a flush writes values with.
abbrev pub IsWrite : Command → Type 0
IsWrite (sets k v ttl) = Unit
IsWrite (hsets k fields) = Unit
IsWrite (hdels k fields) = Unit
IsWrite (expires k at ttl) = ⊥
IsWrite (dels ks) = ⊥
IsWrite purges = ⊥

shown_twice :
    (f : String) (earlier now : ℕ) (cmd : Command) (j : String) (e : Option Entry)
    → IsWrite cmd
    → Agrees f
        (shown now cmd j (expire_by now (shown earlier cmd j e)))
        (shown now cmd j (expire_by now e))
unfolding shown
shown_twice f earlier now (sets k v ttl) j e w = (ground arith, ground arith)
shown_twice f earlier now (hsets k fields) j none w =
    (ground (arith, get-put_all_twice f fields []), ground arith)
shown_twice f earlier now (hsets k fields) j (some e) w =
    (ground (arith, get-put_all_twice f fields e.fields), ground arith)
shown_twice f earlier now (hdels k fields) j none w = (ground arith, ground arith)
shown_twice f earlier now (hdels k fields) j (some e) w = (
  ground (arith, delete_all_twice fields e.fields),
  ground (arith, delete_all_twice fields e.fields),
)
shown_twice f earlier now (expires k at ttl) j e w = absurd w
shown_twice f earlier now (dels ks) j e w = absurd w
shown_twice f earlier now purges j e w = absurd w

-- Whatever the driver answers, a command has had its whole effect or none.
command-whole :
    (a : Answers) (now : ℕ) (cmd : Command) (c : Cache)
    → ((command a now cmd c).0 ≡ c) ⊎ ((command a now cmd c).0 ≡ (command all_well now cmd c).0)
unfolding command set_plain hset hdel expire del purge in_tx statements execute
command-whole (b, p, q, r, accepted) now (sets k v ttl) c = ground arith
command-whole (b, p, q, r, refused) now (sets k v ttl) c = ground arith
command-whole (b, p, q, r, lost) now (sets k v ttl) c = ground arith
command-whole (b, p, q, r, accepted) now (hsets k fields) c = ground arith
command-whole (b, p, q, r, refused) now (hsets k fields) c = ground arith
command-whole (b, p, q, r, lost) now (hsets k fields) c = ground arith
command-whole (b, p, q, r, accepted) now (hdels k fields) c = ground arith
command-whole (b, p, q, r, refused) now (hdels k fields) c = ground arith
command-whole (b, p, q, r, lost) now (hdels k fields) c = ground arith
command-whole (b, p, q, r, accepted) now (expires k at ttl) c = ground arith
command-whole (b, p, q, r, refused) now (expires k at ttl) c = ground arith
command-whole (b, p, q, r, lost) now (expires k at ttl) c = ground arith
command-whole (b, p, q, r, accepted) now (dels ks) c = ground arith
command-whole (b, p, q, r, refused) now (dels ks) c = ground arith
command-whole (b, p, q, r, lost) now (dels ks) c = ground arith
command-whole (b, p, q, r, accepted) now purges c = ground arith
command-whole (b, p, q, r, refused) now purges c = ground arith
command-whole (b, p, q, r, lost) now purges c = ground arith

entry-command :
    (now : ℕ) (cmd : Command) (j : String) (c : Cache)
    → c.enabled ≡ true
    → Rooted c.tables
    → entry now j (command all_well now cmd c).0.tables ≡ shown now cmd j (entry now j c.tables)
entry-command now cmd j c on r =
    ap (λ (d : Cache). entry now j d.tables) (command-apply_command now cmd c on)
    ∙ entry-apply_command now cmd j c.tables r

-- When the same value is set, or the same fields are set or deleted, a second time, then whatever the
-- driver answered the first time, an error with the whole effect or with none included, every field and
-- the lifetime of every key are as if the command had been sent only the second time; for an enabled cache
-- whose rows all belong to keys, when every call of the driver succeeds the second time.
pub command-command :
    (a : Answers) (earlier now : ℕ) (cmd : Command) (j f : String) (c : Cache)
    → c.enabled ≡ true
    → Rooted c.tables
    → earlier ≤ now
    → IsWrite cmd
    → Agrees f
        (entry now j (command all_well now cmd (command a earlier cmd c).0).0.tables)
        (entry now j (command all_well now cmd c).0.tables)
command-command a earlier now cmd j f c on r order w =
    let same : Cache → Type 0 = λ d.
      Agrees f (entry now j (command all_well now cmd d).0.tables)
        (entry now j (command all_well now cmd c).0.tables) in
    elim (command-whole a earlier cmd c) [
      | inl none_done ↦ subst same (sym none_done) (refl, refl)
      | inr whole ↦
          let next : Cache = record c { tables = apply_command earlier cmd c.tables } in
          let first : (command a earlier cmd c).0 ≡ next =
            whole ∙ command-apply_command earlier cmd c on in
          let twice =
            entry-command now cmd j next on (apply_command-Rooted earlier cmd c.tables r) in
          let once = entry-command now cmd j c on r in
          let met = entry-expire_by earlier now j next.tables order in
          let shows = entry-apply_command earlier cmd j c.tables r in
          let before = entry-expire_by earlier now j c.tables order in
          let agree = shown_twice f earlier now cmd j (entry earlier j c.tables) w in
          subst same (sym first) (
            ground (arith, twice, once, met, shows, before, agree.0),
            ground (arith, twice, once, met, shows, before, agree.1),
          )
    ]
