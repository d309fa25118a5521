-- ===== src/Kv.antt =====
-- internal/kv/kv.go: the cache in two tables of the database, with the statements that it sends. A
-- key is given with its prefix, times are nanoseconds, and a lifetime of zero stands for every one
-- that is not positive. What the driver answers to each call is given: a failed statement of a
-- transaction rolls it back, and a commit or a statement by itself may have been carried out
-- although its answer is an error.
pub mod Visible
pub mod Refinement
pub mod Commands
pub mod Reference
pub mod Resending
pub mod Tests
use cal_spread_backend.Base.{
  ℕ, zero, suc, ◌+◌, Bool, true, false, Option, none, some, List, [], ◌∷◌, String, leb, ltb, not,
  ◌&&◌, if◌then◌else◌, ite, is_empty, is_some, length,
}
use cal_spread_backend.Base.Maps.{Map, get, put, delete, keys}
use cal_spread_backend.Httpx.Ratelimit.{String-discrete}

-- The table kv_fields: a row's key and field with its value.
abbrev pub Rows : Type 0
Rows = List ((String × String) × String)

-- The table kv_keys: for each key when it expires.
pub record Tables : Type 0 where
  pub keys : Map String (Option ℕ)
  pub rows : Rows

pub record Cache : Type 0 where
  pub enabled : Bool
  pub tables : Tables

pub data Outcome : Type 0 where
  done : Outcome
  failed : Outcome
  disabled : Outcome

-- What the driver answers to a commit or to a statement by itself: `lost` is one that was carried out
-- and answered with an error.
pub data Reply : Type 0 where
  accepted : Reply
  refused : Reply
  lost : Reply

abbrev pub plain_field : String
plain_field = ""

-- `select field, value from kv_fields where key = k`.
unfoldable pub fields_of : String → Rows → Map String String
fields_of k [] = []
fields_of k (((j, f), v) ∷ rows) =
    ite (String-discrete j k) ((f, v) ∷ fields_of k rows) (fields_of k rows)

-- `insert into kv_fields ... on conflict (key, field) do update`.
unfoldable pub upsert : String → String → String → Rows → Rows
upsert k f v [] = ((k, f), v) ∷ []
upsert k f v (((j, i), w) ∷ rows) =
    let others = ((j, i), w) ∷ upsert k f v rows in
    ite (String-discrete j k) (ite (String-discrete i f) (((k, f), v) ∷ rows) others) others

-- `delete from kv_fields where key = k and field = f`.
unfoldable pub delete_row : String → String → Rows → Rows
delete_row k f [] = []
delete_row k f (((j, i), w) ∷ rows) =
    let others = ((j, i), w) ∷ delete_row k f rows in
    ite (String-discrete j k) (ite (String-discrete i f) (delete_row k f rows) others) others

unfoldable pub delete_rows : String → List String → Rows → Rows
delete_rows k [] rows = rows
delete_rows k (f ∷ fs) rows = delete_rows k fs (delete_row k f rows)

-- The cascade of `delete from kv_keys where key = k`.
unfoldable pub drop_rows : String → Rows → Rows
drop_rows k [] = []
drop_rows k (((j, i), w) ∷ rows) =
    ite (String-discrete j k) (drop_rows k rows) (((j, i), w) ∷ drop_rows k rows)

-- `expires_at is not null and expires_at <= now`.
abbrev pub has_expired : ℕ → Option ℕ → Bool
has_expired now none = false
has_expired now (some t) = leb t now

unfoldable pub delete_key : String → Tables → Tables
delete_key k t = record { keys = delete String-discrete k t.keys; rows = drop_rows k t.rows }

-- `delete from kv_keys where key = k and expires_at is not null and expires_at <= now`.
unfoldable pub delete_expired : ℕ → String → Tables → Tables
delete_expired now k t = elim (get String-discrete k t.keys) [
  | none ↦ t
  | some e ↦ if has_expired now e then delete_key k t else t
]

-- `insert into kv_keys (key) values (k) on conflict (key) do nothing`.
unfoldable pub insert_key : String → Tables → Tables
insert_key k t =
    if is_some (get String-discrete k t.keys)
    then t
    else record t { keys = put String-discrete k none t.keys }

-- `delete from kv_keys where key = k and not exists (select 1 from kv_fields where key = k)`.
unfoldable pub drop_if_empty : String → Tables → Tables
drop_if_empty k t = if is_empty (fields_of k t.rows) then delete_key k t else t

abbrev pub expiry : ℕ → ℕ → Option ℕ
expiry now zero = none
expiry now (suc ttl) = some (now + suc ttl)

-- A transaction: its begin, its statements and its commit, with whether the driver carries out each.
unfoldable pub statements : List (Bool × (Tables → Tables)) → Tables → Option Tables
statements [] t = some t
statements ((ok, f) ∷ fs) t = elim ok [ false ↦ none | true ↦ statements fs (f t) ]

abbrev pub was_accepted : Reply → Bool
was_accepted accepted = true
was_accepted refused = false
was_accepted lost = false

-- The tables after a commit or a statement by itself, and whether it was an error.
abbrev pub reply : Reply → Tables → Cache → Cache × Outcome
reply accepted t c = (record c { tables = t }, done)
reply refused t c = (c, failed)
reply lost t c = (record c { tables = t }, failed)

unfoldable pub in_tx : Bool → List (Bool × (Tables → Tables)) → Reply → Cache → Cache × Outcome
in_tx begun fs committed c = elim begun [
  | false ↦ (c, failed)
  | true ↦ elim (statements fs c.tables) [ none ↦ (c, failed) | some t ↦ reply committed t c ]
]

-- A statement by itself.
unfoldable pub execute : Reply → (Tables → Tables) → Cache → Cache × Outcome
execute ok f c = reply ok (f c.tables) c

unfoldable pub write_all : String → Map String String → Rows → Rows
write_all k [] rows = rows
write_all k ((f, v) ∷ fields) rows = write_all k fields (upsert k f v rows)

-- `Set`, with the driver's answers.
unfoldable pub set_plain :
    Bool × Bool × Bool × Bool × Reply → ℕ → String → String → ℕ → Cache → Cache × Outcome
set_plain (begun, deleted, keyed, written, committed) now k value ttl c =
    if c.enabled
    then in_tx begun
        ((deleted, delete_key k)
          ∷ (keyed, λ t. record t { keys = put String-discrete k (expiry now ttl) t.keys })
          ∷ (written, λ t. record t { rows = upsert k plain_field value t.rows })
          ∷ [])
        committed c
    else (c, disabled)

-- `HSet`. The batch counts as one statement: its first error is returned.
unfoldable pub hset :
    Bool × Bool × Bool × Bool × Reply → ℕ → String → Map String String → Cache → Cache × Outcome
hset (begun, deleted, keyed, written, committed) now k fields c =
    if not c.enabled
    then (c, disabled)
    else if is_empty fields
    then (c, done)
    else in_tx begun
        ((deleted, delete_expired now k)
          ∷ (keyed, insert_key k)
          ∷ (written, λ t. record t { rows = write_all k fields t.rows })
          ∷ [])
        committed c

unfoldable pub hdel : Bool × Bool × Bool × Reply → String → List String → Cache → Cache × Outcome
hdel (begun, removed, dropped, committed) k fields c =
    if not c.enabled
    then (c, disabled)
    else if is_empty fields
    then (c, done)
    else in_tx begun
        ((removed, λ t. record t { rows = delete_rows k fields t.rows })
          ∷ (dropped, drop_if_empty k)
          ∷ [])
        committed c

-- `update kv_keys set expires_at = e where key = k and (expires_at is null or expires_at > now)`.
unfoldable pub renew : ℕ → String → Option ℕ → Tables → Tables
renew now k e t = elim (get String-discrete k t.keys) [
  | none ↦ t
  | some old ↦ if has_expired now old then t else record t { keys = put String-discrete k e t.keys }
]

-- `Expire`, which reads the clock for the new expiry and then for the old one.
unfoldable pub expire : Reply → ℕ → ℕ → String → ℕ → Cache → Cache × Outcome
expire ok set_at now k ttl c =
    if c.enabled then execute ok (renew now k (expiry set_at ttl)) c else (c, disabled)

-- What `Expire` reports: whether a row was updated.
unfoldable pub expire_existed : Reply → ℕ → String → Cache → Bool
expire_existed ok now k c =
    if c.enabled && was_accepted ok
    then elim (get String-discrete k c.tables.keys) [
      | none ↦ false
      | some old ↦ not (has_expired now old)
    ]
    else false

unfoldable pub delete_keys : List String → Tables → Tables
delete_keys [] t = t
delete_keys (k ∷ ks) t = delete_keys ks (delete_key k t)

unfoldable pub del : Reply → List String → Cache → Cache × Outcome
del ok ks c = if c.enabled then execute ok (delete_keys ks) c else (c, disabled)

-- `delete from kv_keys where expires_at is not null and expires_at <= now`, row by row.
unfoldable pub purge_keys : ℕ → List String → Tables → Tables
purge_keys now [] t = t
purge_keys now (k ∷ ks) t = purge_keys now ks (delete_expired now k t)

unfoldable pub count_expired : ℕ → Map String (Option ℕ) → ℕ
count_expired now [] = 0
count_expired now ((k, e) ∷ keys) =
    if has_expired now e then suc (count_expired now keys) else count_expired now keys

-- `Purge`. A disabled cache has nothing to purge.
unfoldable pub purge : Reply → ℕ → Cache → Cache × Outcome
purge ok now c = if c.enabled then execute ok (λ t. purge_keys now (keys t.keys) t) c else (c, done)

-- What `Purge` reports: how many keys it deletes.
unfoldable pub purge_count : Reply → ℕ → Cache → ℕ
purge_count ok now c = if c.enabled && was_accepted ok then count_expired now c.tables.keys else 0

-- The fields of a key that exists and has not expired.
unfoldable pub live_fields : ℕ → String → Tables → Map String String
live_fields now k t = elim (get String-discrete k t.keys) [
  | none ↦ []
  | some e ↦ if has_expired now e then [] else fields_of k t.rows
]

-- `HGetAll`; an error of the driver is `none`.
unfoldable pub hget_all : Bool → ℕ → String → Cache → Option (Map String String)
hget_all ok now k c =
    if not c.enabled then some [] else if ok then some (live_fields now k c.tables) else none

-- `Get`.
unfoldable pub get_plain : Bool → ℕ → String → Cache → Option (Option String)
get_plain ok now k c =
    if not c.enabled
    then some none
    else if ok
    then some (get String-discrete plain_field (live_fields now k c.tables))
    else none
