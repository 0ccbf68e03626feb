-- ===== src/Protocol/Access/Validation.antt =====
-- `AccessState::validate` of `crates/rustsync-protocol/src/access/state.rs`.
use rustsync.Base.{ℕ, not, ◌||◌, if◌then◌else◌, ◌==◌, ltb}
use rustsync.Base.{bytes_ord}
use rustsync.Base.{[], ◌∷◌, Bytes, is_empty, nat_ord}
use rustsync.Base.Map.{BTreeMap, get, contains_key}
use rustsync.Base.Exec.{ok, reject, ok_or}
use rustsync.Base.Chain.{◌>>=◌, ◌>>◌}
use rustsync.Protocol.Error.{ProtocolResult, invalid_state}
use rustsync.Protocol.Error.{cannot_remove_last_owner, active_record_inactive}
use rustsync.Protocol.Error.{
  revision_zero_with_events, device_key_mismatch, device_without_membership,
}
use rustsync.Protocol.Error.{membership_key_mismatch, bad_join_revision, membership_without_record}
use rustsync.Protocol.Error.{active_with_removal_metadata, removed_with_active_record}
use rustsync.Protocol.Error.{no_removal_revision, future_removal_revision, generation_zero}
use rustsync.Protocol.Error.{grant_index_mismatch, bad_grant_revision}
use rustsync.Protocol.Device
use rustsync.Protocol.Device.{Crypto, DeviceRecord, status_eq}
use rustsync.Protocol.Access.State.{
  MembershipStatus, Membership, KeyVersion, key_version_ord, KeyGrant, AccessState, is_some,
  active_owner_count, active, removed,
}

-- A loop over the entries of a map that stops at the first error
unfoldable pub for_each {ℓ κ} :
    {K : Type ℓ} {V : Type κ}
    → (K → V → ProtocolResult (Unit {0}))
    → BTreeMap K V
    → ProtocolResult (Unit {0})
for_each body [] = ok tt
for_each body ((k, v) ∷ m) = let rest = for_each body m in body k v >> rest

-- The body of the loop of `validate` over the devices
unfoldable pub check_device :
    Crypto → AccessState → Bytes → DeviceRecord → ProtocolResult (Unit {0})
check_device c s id d = do
  reject (not (id == d.device_id)) (invalid_state device_key_mismatch) (ok tt)
  Device.validate c d
  reject (not (contains_key id s.memberships)) (invalid_state device_without_membership) (ok tt)

-- The match on the status in that loop
unfoldable pub check_status :
    ℕ → Membership → DeviceRecord → MembershipStatus → ProtocolResult (Unit {0})
check_status revision m d active =
    reject (not (status_eq d.status Device.active)) (invalid_state active_record_inactive) (
      reject
        (is_some m.removed_at_revision || is_some m.removed_at || is_some m.removed_by_device_id)
        (invalid_state active_with_removal_metadata) (ok tt))
check_status revision m d removed = do
  reject (status_eq d.status Device.active) (invalid_state removed_with_active_record) (ok tt)
  removed_revision ← ok_or m.removed_at_revision (invalid_state no_removal_revision)
  reject (ltb revision removed_revision) (invalid_state future_removal_revision) (ok tt)

-- The body of the loop over the memberships
unfoldable pub check_membership : AccessState → Bytes → Membership → ProtocolResult (Unit {0})
unfolding check_status
check_membership s id m = do
  reject (not (id == m.device_id)) (invalid_state membership_key_mismatch) (ok tt)
  reject (m.joined_at_revision == 0 || ltb s.revision m.joined_at_revision)
      (invalid_state bad_join_revision) (ok tt)
  d ← ok_or (get id s.devices) (invalid_state membership_without_record)
  check_status s.revision m d m.status

-- The inner loop over the grants of one key version
unfoldable pub check_grant : ℕ → KeyVersion → Bytes → KeyGrant → ProtocolResult (Unit {0})
check_grant revision version id g = do
  reject
      (not (id == g.device_id)
        || not (version.key_id == g.key_id)
        || not (version.generation == g.generation))
      (invalid_state grant_index_mismatch) (ok tt)
  reject (g.granted_at_revision == 0 || ltb revision g.granted_at_revision)
      (invalid_state bad_grant_revision) (ok tt)

unfoldable pub check_version : ℕ → KeyVersion → BTreeMap Bytes KeyGrant → ProtocolResult (Unit {0})
unfolding check_grant
check_version revision version grants = do
  reject (version.generation == 0) (invalid_state generation_zero) (ok tt)
  for_each (check_grant revision version) grants

-- `AccessState::validate`
unfoldable pub validate : Crypto → AccessState → ProtocolResult (Unit {0})
unfolding check_device check_membership check_version active_owner_count for_each
validate c s =
    if s.revision == 0
    then reject
        (not (is_empty s.memberships) || not (is_empty s.devices) || is_some s.last_event_id)
        (invalid_state revision_zero_with_events) (ok tt)
    else do
      reject (active_owner_count s == 0) cannot_remove_last_owner (ok tt)
      for_each (check_device c s) s.devices
      for_each (check_membership s) s.memberships
      for_each (check_version s.revision) s.key_grants
