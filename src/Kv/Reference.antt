-- ===== src/Kv/Reference.antt =====
-- internal/kv/kv.go against Redis. The keys of Redis are described here by themselves: a string and a
-- hash are different values, a command for the one refuses the other, EXPIRE with a time that is not
-- positive deletes the key, and a key is gone once its time has come.
use cal_spread_backend.Base.{
  ℕ, ◌+◌, ◌<◌, ◌≡◌, refl, ap, ◌∙◌, true, Option, none, some, List, [], ◌∷◌, String, Bool, false,
  if◌then◌else◌, ite, is_empty, mem, ltb, arith,
}
use cal_spread_backend.Base.Maps.{Map}
use cal_spread_backend.Httpx.Ratelimit.{String-discrete}
use cal_spread_backend.Kv.{Cache, plain_field, expiry}
use cal_spread_backend.Kv.Visible.{
  Entry, entry, Rooted, Command, sets, hsets, hdels, expires, dels, purges, shown, put_all,
  delete_all,
}
use cal_spread_backend.Kv.Commands.{
  expire_by, commands, shown_all, last_time, InOrder, commands-shown_all,
}

pub data Value : Type 0 where
  text : String → Value
  hash : Map String String → Value

-- A key of Redis: its value, and when it goes.
pub record Key : Type 0 where
  pub value : Value
  pub until : Option ℕ

-- A key whose time has come is gone.
unfoldable pub living : ℕ → Option Key → Option Key
living now none = none
living now (some k) = elim k.until [ none ↦ some k | some t ↦ if ltb now t then some k else none ]

-- SET with EX, or without it for no lifetime.
abbrev lifetime : ℕ → ℕ → Option ℕ
lifetime now ttl = if ltb 0 ttl then some (now + ttl) else none

-- HSET and HDEL leave a string alone: they answer WRONGTYPE.
abbrev with_fields : Map String String → Option Key → Option Key
with_fields fields none = some (record { value = hash (put_all fields []); until = none })
with_fields fields (some k) = elim k.value [
  | text v ↦ some k
  | hash m ↦ some (record k { value = hash (put_all fields m) })
]

abbrev without_fields : List String → Option Key → Option Key
without_fields fs none = none
without_fields fs (some k) = elim k.value [
  | text v ↦ some k
  | hash m ↦
      if is_empty (delete_all fs m)
      then none
      else some (record k { value = hash (delete_all fs m) })
]

abbrev with_lifetime : ℕ → ℕ → Option Key → Option Key
with_lifetime at ttl none = none
with_lifetime at ttl (some k) =
    if ltb 0 ttl then some (record k { until = some (at + ttl) }) else none

-- What a command of Redis does to the key `j`.
unfoldable pub redis : ℕ → Command → String → Option Key → Option Key
redis now (sets k v ttl) j old =
    ite (String-discrete k j) (some (record { value = text v; until = lifetime now ttl })) old
redis now (hsets k fields) j old =
    if is_empty fields then old else ite (String-discrete k j) (with_fields fields old) old
redis now (hdels k fields) j old =
    if is_empty fields then old else ite (String-discrete k j) (without_fields fields old) old
redis now (expires k at ttl) j old =
    ite (String-discrete k j) (living now (with_lifetime at ttl old)) old
redis now (dels ks) j old = if mem String-discrete j ks then none else old
redis now purges j old = old

unfoldable pub redis_all : List (ℕ × Command) → String → Option Key → Option Key
redis_all [] j e = e
redis_all ((now, cmd) ∷ cs) j e = redis_all cs j (redis now cmd j (living now e))

-- A key as its fields: a string stands under the empty field name.
abbrev pub fields_in : Value → Map String String
fields_in (text v) = (plain_field, v) ∷ []
fields_in (hash m) = m

abbrev pub view : Option Key → Option Entry
view none = none
view (some k) = some (record { expires_at = k.until; fields = fields_in k.value })

abbrev is_text : Option Key → Bool
is_text none = false
is_text (some k) = elim k.value [ text v ↦ true | hash m ↦ false ]

-- The command, if it is for the key `j`, neither uses a string as a hash nor gives a lifetime of zero.
abbrev pub Fits : Command → String → Option Key → Type 0
Fits (sets k v ttl) j old = Unit
Fits (hsets k fields) j old = k ≡ j → is_text old ≡ false
Fits (hdels k fields) j old = k ≡ j → is_text old ≡ false
Fits (expires k at ttl) j old = k ≡ j → 0 < ttl
Fits (dels ks) j old = Unit
Fits purges j old = Unit

abbrev pub AllFit : List (ℕ × Command) → String → Option Key → Type 0
AllFit [] j e = Unit
AllFit ((now, cmd) ∷ cs) j e =
    Fits cmd j (living now e) × AllFit cs j (redis now cmd j (living now e))

view-living : (now : ℕ) (e : Option Key) → expire_by now (view e) ≡ view (living now e)
unfolding living
view-living now none = refl
view-living now (some k) = ground arith

lifetime-expiry : (now ttl : ℕ) → expiry now ttl ≡ lifetime now ttl
lifetime-expiry now ttl = ground arith

shown-redis :
    (now : ℕ) (cmd : Command) (j : String) (e : Option Key)
    → Fits cmd j e
    → shown now cmd j (view e) ≡ view (redis now cmd j e)
unfolding shown redis living
shown-redis now (sets k v ttl) j e f = ground (arith, lifetime-expiry now ttl)
shown-redis now (hsets k fields) j e f = ground (arith, f)
shown-redis now (hdels k fields) j e f = ground (arith, f)
shown-redis now (expires k at ttl) j e f = ground (arith, f, lifetime-expiry at ttl)
shown-redis now (dels ks) j e f = ground arith
shown-redis now purges j e f = refl

shown_all-redis_all :
    (cs : List (ℕ × Command)) (j : String) (e : Option Key)
    → AllFit cs j e
    → shown_all cs j (view e) ≡ view (redis_all cs j e)
unfolding shown_all redis_all
shown_all-redis_all [] j e f = refl
shown_all-redis_all ((now, cmd) ∷ cs) j e f =
    ap (λ x. shown_all cs j (shown now cmd j x)) (view-living now e)
    ∙ ap (shown_all cs j) (shown-redis now cmd j (living now e) f.0)
    ∙ shown_all-redis_all cs j (redis now cmd j (living now e)) f.1

-- After any sequence of commands in the order of time, a key is in the tables what it is in Redis, if
-- it was so before, no command for it uses a string as a hash, and EXPIRE gives it no lifetime of zero;
-- for an enabled cache whose rows all belong to keys, when every call of the driver succeeds.
pub commands-redis_all :
    (clock : ℕ) (cs : List (ℕ × Command)) (j : String) (c : Cache) (e : Option Key)
    → c.enabled ≡ true
    → Rooted c.tables
    → InOrder clock cs
    → entry clock j c.tables ≡ view e
    → AllFit cs j e
    → entry (last_time clock cs) j (commands cs c).tables ≡ view (redis_all cs j e)
commands-redis_all clock cs j c e on r o before f =
    commands-shown_all clock cs j c on r o
    ∙ ap (shown_all cs j) before
    ∙ shown_all-redis_all cs j e f
