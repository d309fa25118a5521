-- ===== src/Kv/Visible.antt =====
-- internal/kv/kv.go: what a client sees of the keys, and the commands with the driver's answers.
use cal_spread_backend.Base.{
  ℕ, ◌≡◌, Bool, true, Option, none, some, List, [], ◌∷◌, String, if◌then◌else◌, ite, is_empty, mem,
  arith,
}
use cal_spread_backend.Base.Maps.{Map, get, put, delete}
use cal_spread_backend.Httpx.Ratelimit.{String-discrete}
use cal_spread_backend.Kv.{
  Rows, Tables, Cache, Outcome, Reply, accepted, plain_field, fields_of, upsert, delete_row,
  delete_rows, drop_rows, has_expired, expiry, write_all, set_plain, hset, hdel, expire, del, purge,
}

-- What a client sees of a key.
pub record Entry : Type 0 where
  pub expires_at : Option ℕ
  pub fields : Map String String

abbrev pub unexpired : ℕ → Entry → Option Entry
unexpired now e = if has_expired now e.expires_at then none else some e

unfoldable pub entry : ℕ → String → Tables → Option Entry
entry now k t = elim (get String-discrete k t.keys) [
  | none ↦ none
  | some e ↦ unexpired now (record { expires_at = e; fields = fields_of k t.rows })
]

-- Every row belongs to a key: the foreign key of kv_fields.
abbrev pub Rooted : Tables → Type 0
Rooted t = (k : String) → get String-discrete k t.keys ≡ none → fields_of k t.rows ≡ []

pub fields_of-upsert :
    (j k f v : String) (rows : Rows)
    → fields_of j (upsert k f v rows)
      ≡ ite (String-discrete k j) (put String-discrete f v (fields_of j rows)) (fields_of j rows)
unfolding fields_of upsert put
fields_of-upsert j k f v [] = ground arith
fields_of-upsert j k f v (((i, g), w) ∷ rows) = ground (arith, fields_of-upsert j k f v rows)

pub fields_of-delete_row :
    (j k f : String) (rows : Rows)
    → fields_of j (delete_row k f rows)
      ≡ ite (String-discrete k j) (delete String-discrete f (fields_of j rows)) (fields_of j rows)
unfolding fields_of delete_row delete
fields_of-delete_row j k f [] = ground arith
fields_of-delete_row j k f (((i, g), w) ∷ rows) = ground (arith, fields_of-delete_row j k f rows)

pub fields_of-drop_rows :
    (j k : String) (rows : Rows)
    → fields_of j (drop_rows k rows) ≡ ite (String-discrete k j) [] (fields_of j rows)
unfolding fields_of drop_rows
fields_of-drop_rows j k [] = ground arith
fields_of-drop_rows j k (((i, g), w) ∷ rows) = ground (arith, fields_of-drop_rows j k rows)

unfoldable pub put_all : Map String String → Map String String → Map String String
put_all [] m = m
put_all ((f, v) ∷ fs) m = put_all fs (put String-discrete f v m)

unfoldable pub delete_all : List String → Map String String → Map String String
delete_all [] m = m
delete_all (f ∷ fs) m = delete_all fs (delete String-discrete f m)

pub fields_of-write_all :
    (j k : String) (fs : Map String String) (rows : Rows)
    → fields_of j (write_all k fs rows)
      ≡ ite (String-discrete k j) (put_all fs (fields_of j rows)) (fields_of j rows)
unfolding write_all put_all
fields_of-write_all j k [] rows = ground arith
fields_of-write_all j k ((f, v) ∷ fs) rows =
    ground (arith, fields_of-write_all j k fs (upsert k f v rows), fields_of-upsert j k f v rows)

pub fields_of-delete_rows :
    (j k : String) (fs : List String) (rows : Rows)
    → fields_of j (delete_rows k fs rows)
      ≡ ite (String-discrete k j) (delete_all fs (fields_of j rows)) (fields_of j rows)
unfolding delete_rows delete_all
fields_of-delete_rows j k [] rows = ground arith
fields_of-delete_rows j k (f ∷ fs) rows =
    ground
      (arith, fields_of-delete_rows j k fs (delete_row k f rows), fields_of-delete_row j k f rows)

-- The commands, each with its arguments.
pub data Command : Type 0 where
  sets : String → String → ℕ → Command
  hsets : String → Map String String → Command
  hdels : String → List String → Command
  expires : String → ℕ → ℕ → Command
  dels : List String → Command
  purges : Command

abbrev pub old_expiry : Option Entry → Option ℕ
old_expiry none = none
old_expiry (some e) = e.expires_at

abbrev pub old_fields : Option Entry → Map String String
old_fields none = []
old_fields (some e) = e.fields

-- What the commands do to what a client sees of the key `j`.
unfoldable pub shown : ℕ → Command → String → Option Entry → Option Entry
shown now (sets k v ttl) j old =
    ite (String-discrete k j)
      (some (record { expires_at = expiry now ttl; fields = (plain_field, v) ∷ [] })) old
shown now (hsets k fields) j old =
    if is_empty fields
    then old
    else ite (String-discrete k j)
        (some (record { expires_at = old_expiry old; fields = put_all fields (old_fields old) }))
        old
shown now (hdels k fields) j old =
    if is_empty fields
    then old
    else ite (String-discrete k j)
        (elim old [
          | none ↦ none
          | some e ↦
              if is_empty (delete_all fields e.fields)
              then none
              else some (record e { fields = delete_all fields e.fields })
        ])
        old
shown now (expires k set_at ttl) j old =
    ite (String-discrete k j)
      (elim old [
        | none ↦ none
        | some e ↦ unexpired now (record e { expires_at = expiry set_at ttl })
      ])
      old
shown now (dels ks) j old = if mem String-discrete j ks then none else old
shown now purges j old = old

-- What the driver answers to the begin, to up to three statements, and to the commit or to the
-- statement by itself.
abbrev pub Answers : Type 0
Answers = Bool × Bool × Bool × Bool × Reply

unfoldable pub command : Answers → ℕ → Command → Cache → Cache × Outcome
command a now (sets k v ttl) c = set_plain a now k v ttl c
command a now (hsets k fields) c = hset a now k fields c
command (b, p, q, r, d) now (hdels k fields) c = hdel (b, p, q, d) k fields c
command (b, p, q, r, d) now (expires k set_at ttl) c = expire d set_at now k ttl c
command (b, p, q, r, d) now (dels ks) c = del d ks c
command (b, p, q, r, d) now purges c = purge d now c

abbrev pub all_well : Answers
all_well = (true, true, true, true, accepted)
