-- ===== src/Protocol/Access/Lookup.antt =====
-- `key_grant` behind each change of the grants.
use rustsync.Base.{ℕ, ◌≡◌, Bytes, some, arith, ◌&&◌}
use rustsync.Base.{◌==◌, bytes_ord, if◌then◌else◌, Option-cases, inl, inr}
use rustsync.Base.Map.{
  BTreeMap, get, insert, adjust, map_values, get-insert, get-adjust, get-map_values,
}
use rustsync.Protocol.Access.State.{KeyVersion, KeyGrant, grants_of, key_version_ord}
use rustsync.Protocol.Access.State.{key_version_cmp_iff}
use rustsync.Protocol.Access.Apply.{entry_or_default}
use mathlib.Core.Option

abbrev pub Grants : Type 0
Grants = BTreeMap KeyVersion (BTreeMap Bytes KeyGrant)

abbrev pub version : Bytes → ℕ → KeyVersion
version key_id generation = record { key_id = key_id; generation = generation }

module _ (all : Grants) (key_id : Bytes) (generation : ℕ) (j : Bytes) where
  pub grants_of-map_values :
      (id : Bytes) (f : KeyGrant → KeyGrant)
      → grants_of (map_values (adjust id f) all) key_id generation j ≡ (
          if j == id
          then Option.map f (grants_of all key_id generation j)
          else grants_of all key_id generation j)
  grants_of-map_values id f = elim (Option-cases (get (version key_id generation) all)) [
    | inl (m, e) ↦ ground (
      arith,
      e,
      get-map_values (version key_id generation) (adjust id f) all,
      get-adjust j id f m,
    )
    | inr e ↦ ground (arith, e, get-map_values (version key_id generation) (adjust id f) all)
  ]

  pub grants_of-insert :
      (w : KeyVersion) (id : Bytes) (g : KeyGrant)
      → grants_of (insert w (insert id g (entry_or_default (get w all))) all) key_id generation j
        ≡ (if (version key_id generation == w) && (j == id)
            then some g
            else grants_of all key_id generation j)
  unfolding get
  grants_of-insert w id g = ground (
    arith,
    get-insert (version key_id generation) w (insert id g (entry_or_default (get w all))) all,
    get-insert j id g (entry_or_default (get w all)),
    key_version_cmp_iff (version key_id generation) w,
  )

  pub grants_of-adjust :
      (w : KeyVersion) (id : Bytes) (f : KeyGrant → KeyGrant)
      → grants_of (adjust w (adjust id f) all) key_id generation j ≡ (
          if (version key_id generation == w) && (j == id)
          then Option.map f (grants_of all key_id generation j)
          else grants_of all key_id generation j)
  grants_of-adjust w id f = elim (Option-cases (get (version key_id generation) all)) [
    | inl (m, e) ↦
        ground (
          arith,
          e,
          get-adjust (version key_id generation) w (adjust id f) all,
          get-adjust j id f m,
        )
    | inr e ↦ ground (arith, e, get-adjust (version key_id generation) w (adjust id f) all)
  ]
