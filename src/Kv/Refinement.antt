-- ===== src/Kv/Refinement.antt =====
-- internal/kv/kv.go: what each statement and each command does to what a client sees of a key.
use cal_spread_backend.Base.{
  ℕ, ◌≡◌, refl, ◌∙◌, inl, inr, true, false, Option, none, some, List, [], ◌∷◌, String,
  if◌then◌else◌, ite, is_empty, mem, arith, Option-cases,
}
use cal_spread_backend.Base.Maps.{Map, get, put, delete, get-put, get-delete}
use cal_spread_backend.Httpx.Ratelimit.{String-discrete}
use cal_spread_backend.Kv.{
  Tables, plain_field, upsert, delete_rows, drop_rows, has_expired, delete_key, delete_expired,
  insert_key, drop_if_empty, expiry, write_all, renew, delete_keys, purge_keys,
}
use cal_spread_backend.Kv.Visible.{
  unexpired, entry, Rooted, put_all, delete_all, old_expiry, old_fields, fields_of-upsert,
  fields_of-drop_rows, fields_of-write_all, fields_of-delete_rows,
}

-- The tables and what a client sees of a key, after each statement.
entry-delete_key :
    (now : ℕ) (j k : String) (t : Tables)
    → entry now j (delete_key k t) ≡ ite (String-discrete k j) none (entry now j t)
unfolding entry delete_key
entry-delete_key now j k t =
    ground (arith, get-delete String-discrete k j t.keys, fields_of-drop_rows j k t.rows)

delete_key-Rooted : (k : String) (t : Tables) → Rooted t → Rooted (delete_key k t)
unfolding delete_key
delete_key-Rooted k t r j e =
    ground (arith, get-delete String-discrete k j t.keys, fields_of-drop_rows j k t.rows, r j)

pub entry-delete_keys :
    (now : ℕ) (j : String) (ks : List String) (t : Tables)
    → entry now j (delete_keys ks t) ≡ (if mem String-discrete j ks then none else entry now j t)
unfolding delete_keys mem
entry-delete_keys now j [] t = refl
entry-delete_keys now j (k ∷ ks) t =
    ground (arith, entry-delete_keys now j ks (delete_key k t), entry-delete_key now j k t)

pub delete_keys-Rooted : (ks : List String) (t : Tables) → Rooted t → Rooted (delete_keys ks t)
unfolding delete_keys
delete_keys-Rooted [] t r = r
delete_keys-Rooted (k ∷ ks) t r = delete_keys-Rooted ks (delete_key k t) (delete_key-Rooted k t r)

expired-entry :
    (now : ℕ) (k : String) (e : Option ℕ) (t : Tables)
    → get String-discrete k t.keys ≡ some e
    → has_expired now e ≡ true
    → entry now k t ≡ none
unfolding entry
expired-entry now k e t found old = ground arith

-- An expired key can be deleted without any client noticing.
entry-delete_if_expired :
    (now : ℕ) (j k : String) (e : Option ℕ) (t : Tables)
    → get String-discrete k t.keys ≡ some e
    → entry now j (if has_expired now e then delete_key k t else t) ≡ entry now j t
entry-delete_if_expired now j k e t found =
    ground (arith, expired-entry now k e t found, entry-delete_key now j k t)

entry-delete_expired :
    (now : ℕ) (j k : String) (t : Tables) → entry now j (delete_expired now k t) ≡ entry now j t
unfolding delete_expired
entry-delete_expired now j k t = elim (Option-cases (get String-discrete k t.keys)) [
  | inl absent ↦ ground arith
  | inr (e, found) ↦ ground (arith, found, entry-delete_if_expired now j k e t found)
]

delete_expired-Rooted :
    (now : ℕ) (k : String) (t : Tables) → Rooted t → Rooted (delete_expired now k t)
unfolding delete_expired
delete_expired-Rooted now k t r j e = ground (arith, r j, delete_key-Rooted k t r j)

-- A key that is in the table after the expired ones are gone is live.
delete_expired-live :
    (now : ℕ) (k : String) (e : Option ℕ) (t : Tables)
    → get String-discrete k (delete_expired now k t).keys ≡ some e
    → has_expired now e ≡ false
unfolding delete_expired delete_key
delete_expired-live now k e t h = ground (arith, get-delete String-discrete k k t.keys)

-- The fields that a hash gets.
unfoldable pub hset_tables : ℕ → String → Map String String → Tables → Tables
hset_tables now k fields t =
    let live = insert_key k (delete_expired now k t) in
    record live { rows = write_all k fields live.rows }

entry-insert_key :
    (now : ℕ) (j k : String) (fields : Map String String) (t : Tables)
    → Rooted t
    → ((e : Option ℕ) → get String-discrete k t.keys ≡ some e → has_expired now e ≡ false)
    → entry now j (record (insert_key k t) { rows = write_all k fields (insert_key k t).rows })
      ≡ ite
          (String-discrete k j)
          (some (record {
            expires_at = old_expiry (entry now k t);
            fields = put_all fields (old_fields (entry now k t));
          }))
          (entry now j t)
unfolding entry insert_key
entry-insert_key now j k fields t r live = elim (Option-cases (get String-discrete k t.keys)) [
  | inl absent ↦ ground (
    arith,
    absent,
    r k,
    fields_of-write_all j k fields t.rows,
    get-put String-discrete k j none t.keys,
  )
  | inr (e, found) ↦ ground (arith, found, live e, fields_of-write_all j k fields t.rows)
]

insert_key-Rooted :
    (k : String) (fields : Map String String) (t : Tables)
    → Rooted t
    → Rooted (record (insert_key k t) { rows = write_all k fields (insert_key k t).rows })
unfolding insert_key
insert_key-Rooted k fields t r j e = ground (
  arith,
  r j,
  r k,
  fields_of-write_all j k fields t.rows,
  get-put String-discrete k j none t.keys,
)

pub entry-hset :
    (now : ℕ) (j k : String) (fields : Map String String) (t : Tables)
    → Rooted t
    → entry now j (hset_tables now k fields t)
      ≡ ite
          (String-discrete k j)
          (some (record {
            expires_at = old_expiry (entry now j t);
            fields = put_all fields (old_fields (entry now j t));
          }))
          (entry now j t)
unfolding hset_tables
entry-hset now j k fields t r = ground (
  arith,
  entry-insert_key now j k fields (delete_expired now k t) (delete_expired-Rooted now k t r)
      (λ e. delete_expired-live now k e t),
  entry-delete_expired now j k t,
)

pub hset_tables-Rooted :
    (now : ℕ) (k : String) (fields : Map String String) (t : Tables)
    → Rooted t
    → Rooted (hset_tables now k fields t)
unfolding hset_tables
hset_tables-Rooted now k fields t r =
    insert_key-Rooted k fields (delete_expired now k t) (delete_expired-Rooted now k t r)

pub entry-purge_keys :
    (now : ℕ) (j : String) (ks : List String) (t : Tables)
    → entry now j (purge_keys now ks t) ≡ entry now j t
unfolding purge_keys
entry-purge_keys now j [] t = refl
entry-purge_keys now j (k ∷ ks) t =
    entry-purge_keys now j ks (delete_expired now k t) ∙ entry-delete_expired now j k t

pub purge_keys-Rooted :
    (now : ℕ) (ks : List String) (t : Tables) → Rooted t → Rooted (purge_keys now ks t)
unfolding purge_keys
purge_keys-Rooted now [] t r = r
purge_keys-Rooted now (k ∷ ks) t r =
    purge_keys-Rooted now ks (delete_expired now k t) (delete_expired-Rooted now k t r)

unfoldable pub set_tables : ℕ → String → String → ℕ → Tables → Tables
set_tables now k value ttl t =
    let bare = delete_key k t in
    record {
      keys = put String-discrete k (expiry now ttl) bare.keys;
      rows = upsert k plain_field value bare.rows;
    }

pub entry-set :
    (now : ℕ) (j k value : String) (ttl : ℕ) (t : Tables)
    → entry now j (set_tables now k value ttl t)
      ≡ ite
          (String-discrete k j)
          (some (record { expires_at = expiry now ttl; fields = (plain_field, value) ∷ [] }))
          (entry now j t)
unfolding entry set_tables delete_key put
entry-set now j k value ttl t = ground (
  arith,
  get-put String-discrete k j (expiry now ttl) (delete String-discrete k t.keys),
  get-delete String-discrete k j t.keys,
  fields_of-upsert j k plain_field value (drop_rows k t.rows),
  fields_of-drop_rows j k t.rows,
)

pub set_tables-Rooted :
    (now : ℕ) (k value : String) (ttl : ℕ) (t : Tables)
    → Rooted t
    → Rooted (set_tables now k value ttl t)
unfolding set_tables delete_key
set_tables-Rooted now k value ttl t r j e = ground (
  arith,
  r j,
  get-put String-discrete k j (expiry now ttl) (delete String-discrete k t.keys),
  get-delete String-discrete k j t.keys,
  fields_of-upsert j k plain_field value (drop_rows k t.rows),
  fields_of-drop_rows j k t.rows,
)

pub delete_all-nil : (fs : List String) → delete_all fs [] ≡ []
unfolding delete_all delete
delete_all-nil [] = refl
delete_all-nil (f ∷ fs) = delete_all-nil fs

unfoldable pub hdel_tables : String → List String → Tables → Tables
hdel_tables k fields t = drop_if_empty k (record t { rows = delete_rows k fields t.rows })

pub entry-hdel :
    (now : ℕ) (j k : String) (fields : List String) (t : Tables)
    → entry now j (hdel_tables k fields t)
      ≡ ite
          (String-discrete k j)
          (elim (entry now j t) [
            | none ↦ none
            | some e ↦
                if is_empty (delete_all fields e.fields)
                then none
                else some (record e { fields = delete_all fields e.fields })
          ])
          (entry now j t)
unfolding entry hdel_tables drop_if_empty delete_key
entry-hdel now j k fields t = ground (
  arith,
  get-delete String-discrete k j t.keys,
  fields_of-delete_rows j k fields t.rows,
  fields_of-delete_rows k k fields t.rows,
  fields_of-drop_rows j k (delete_rows k fields t.rows),
)

pub hdel_tables-Rooted :
    (k : String) (fields : List String) (t : Tables) → Rooted t → Rooted (hdel_tables k fields t)
unfolding hdel_tables drop_if_empty delete_key
hdel_tables-Rooted k fields t r j e = ground (
  arith,
  r j,
  get-delete String-discrete k j t.keys,
  fields_of-delete_rows j k fields t.rows,
  fields_of-drop_rows j k (delete_rows k fields t.rows),
  delete_all-nil fields,
)

pub renew-Rooted :
    (now : ℕ) (k : String) (x : Option ℕ) (t : Tables) → Rooted t → Rooted (renew now k x t)
unfolding renew
renew-Rooted now k x t r j e = ground (arith, r j, get-put String-discrete k j x t.keys)

pub entry-renew :
    (now : ℕ) (j k : String) (x : Option ℕ) (t : Tables)
    → entry now j (renew now k x t)
      ≡ ite
          (String-discrete k j)
          (elim (entry now j t) [
            | none ↦ none
            | some e ↦ unexpired now (record e { expires_at = x })
          ])
          (entry now j t)
unfolding entry renew
entry-renew now j k x t = ground (arith, get-put String-discrete k j x t.keys)
