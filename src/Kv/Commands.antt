-- ===== src/Kv/Commands.antt =====
-- internal/kv/kv.go: what the commands do, one by one and in sequence, to what a client sees.
use cal_spread_backend.Base.{
  ℕ, ◌≤◌, ◌≡◌, refl, ap, ◌∙◌, true, Option, none, some, List, [], ◌∷◌, String, if◌then◌else◌,
  is_empty, arith,
}
use cal_spread_backend.Base.Maps.{get, put, delete, keys, get-put}
use cal_spread_backend.Httpx.Ratelimit.{String-discrete}
use cal_spread_backend.Kv.{
  Tables, Cache, plain_field, drop_rows, has_expired, delete_key, expiry, statements, in_tx,
  execute, set_plain, hset, hdel, renew, expire, delete_keys, del, purge_keys, purge, live_fields,
  get_plain,
}
use cal_spread_backend.Kv.Visible.{
  Entry, unexpired, entry, Rooted, Command, sets, hsets, hdels, expires, dels, purges, shown,
  command, all_well,
}
use cal_spread_backend.Kv.Visible.{fields_of-upsert, fields_of-drop_rows}
use cal_spread_backend.Kv.Refinement.{
  entry-delete_keys, delete_keys-Rooted, entry-hset, hset_tables-Rooted, entry-purge_keys,
  purge_keys-Rooted, entry-set, set_tables-Rooted, entry-hdel, hdel_tables-Rooted, renew-Rooted,
  entry-renew, hset_tables, set_tables, hdel_tables,
}

-- What a command does to the tables when every call succeeds.
pub apply_command : ℕ → Command → Tables → Tables
apply_command now (sets k v ttl) t = set_tables now k v ttl t
apply_command now (hsets k fields) t = if is_empty fields then t else hset_tables now k fields t
apply_command now (hdels k fields) t = if is_empty fields then t else hdel_tables k fields t
apply_command now (expires k set_at ttl) t = renew now k (expiry set_at ttl) t
apply_command now (dels ks) t = delete_keys ks t
apply_command now purges t = purge_keys now (keys t.keys) t

pub command-apply_command :
    (now : ℕ) (cmd : Command) (c : Cache)
    → c.enabled ≡ true
    → (command all_well now cmd c).0 ≡ record c { tables = apply_command now cmd c.tables }
unfolding command apply_command set_plain hset hdel expire del purge in_tx statements execute
    set_tables hset_tables hdel_tables
command-apply_command now (sets k v ttl) c e = ground arith
command-apply_command now (hsets k fields) c e = ground arith
command-apply_command now (hdels k fields) c e = ground arith
command-apply_command now (expires k set_at ttl) c e = ground arith
command-apply_command now (dels ks) c e = ground arith
command-apply_command now purges c e = ground arith

pub apply_command-Rooted :
    (now : ℕ) (cmd : Command) (t : Tables) → Rooted t → Rooted (apply_command now cmd t)
unfolding apply_command
apply_command-Rooted now (sets k v ttl) t r = set_tables-Rooted now k v ttl t r
apply_command-Rooted now (hsets k fields) t r =
    λ j e. ground (arith, r j, hset_tables-Rooted now k fields t r j)
apply_command-Rooted now (hdels k fields) t r =
    λ j e. ground (arith, r j, hdel_tables-Rooted k fields t r j)
apply_command-Rooted now (expires k set_at ttl) t r = renew-Rooted now k (expiry set_at ttl) t r
apply_command-Rooted now (dels ks) t r = delete_keys-Rooted ks t r
apply_command-Rooted now purges t r = purge_keys-Rooted now (keys t.keys) t r

pub entry-apply_command :
    (now : ℕ) (cmd : Command) (j : String) (t : Tables)
    → Rooted t
    → entry now j (apply_command now cmd t) ≡ shown now cmd j (entry now j t)
unfolding apply_command shown
entry-apply_command now (sets k v ttl) j t r = entry-set now j k v ttl t
entry-apply_command now (hsets k fields) j t r = ground (arith, entry-hset now j k fields t r)
entry-apply_command now (hdels k fields) j t r = ground (arith, entry-hdel now j k fields t)
entry-apply_command now (expires k set_at ttl) j t r = entry-renew now j k (expiry set_at ttl) t
entry-apply_command now (dels ks) j t r = entry-delete_keys now j ks t
entry-apply_command now purges j t r = entry-purge_keys now j (keys t.keys) t

-- As time goes by, keys expire and nothing else happens to them.
abbrev pub expire_by : ℕ → Option Entry → Option Entry
expire_by now none = none
expire_by now (some e) = unexpired now e

pub entry-expire_by :
    (clock now : ℕ) (j : String) (t : Tables)
    → clock ≤ now
    → entry now j t ≡ expire_by now (entry clock j t)
unfolding entry
entry-expire_by clock now j t h = ground arith

-- Commands in sequence, each with its time.
unfoldable pub commands : List (ℕ × Command) → Cache → Cache
commands [] c = c
commands ((now, cmd) ∷ cs) c = commands cs (command all_well now cmd c).0

unfoldable pub shown_all : List (ℕ × Command) → String → Option Entry → Option Entry
shown_all [] j e = e
shown_all ((now, cmd) ∷ cs) j e = shown_all cs j (shown now cmd j (expire_by now e))

abbrev pub last_time : ℕ → List (ℕ × Command) → ℕ
last_time clock [] = clock
last_time clock ((now, cmd) ∷ cs) = last_time now cs

abbrev pub InOrder : ℕ → List (ℕ × Command) → Type 0
InOrder clock [] = Unit
InOrder clock ((now, cmd) ∷ cs) = (clock ≤ now) × InOrder now cs

-- After any sequence of commands in the order of time, what a client sees of any key is what the
-- commands do to it one by one, for an enabled cache whose rows all belong to keys.
pub commands-shown_all :
    (clock : ℕ) (cs : List (ℕ × Command)) (j : String) (c : Cache)
    → c.enabled ≡ true
    → Rooted c.tables
    → InOrder clock cs
    → entry (last_time clock cs) j (commands cs c).tables ≡ shown_all cs j (entry clock j c.tables)
unfolding commands shown_all
commands-shown_all clock [] j c e r o = refl
commands-shown_all clock ((now, cmd) ∷ cs) j c e r o =
    let next : Cache = record c { tables = apply_command now cmd c.tables } in
    ap (λ (d : Cache). entry (last_time now cs) j (commands cs d).tables)
      (command-apply_command now cmd c e)
    ∙ commands-shown_all now cs j next e (apply_command-Rooted now cmd c.tables r) o.1
    ∙ ap (shown_all cs j) (
        entry-apply_command now cmd j c.tables r
        ∙ ap (shown now cmd j) (entry-expire_by clock now j c.tables o.0))

-- A value that was set is read back until its lifetime is over, and not after; without a lifetime it
-- is read back for ever.
get_plain-set_plain :
    (now later ttl : ℕ) (k v : String) (c : Cache)
    → c.enabled ≡ true
    → get_plain true later k (set_plain all_well now k v ttl c).0
      ≡ some (if has_expired later (expiry now ttl) then none else some v)
unfolding get_plain live_fields set_plain in_tx statements delete_key get put
get_plain-set_plain now later ttl k v c e = ground (
  arith,
  get-put String-discrete k k (expiry now ttl) (delete String-discrete k c.tables.keys),
  fields_of-upsert k k plain_field v (drop_rows k c.tables.rows),
  fields_of-drop_rows k k c.tables.rows,
)
