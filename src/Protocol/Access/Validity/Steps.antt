-- ===== src/Protocol/Access/Validity/Steps.antt =====
-- The parts of `AccessState::validate`, at a later revision and for changed maps.
use rustsync.Base.{ℕ, ◌≤◌, ◌≡◌, ◌≢◌, true, arith}
use rustsync.Base.{Bytes, nat_ord, bytes_ord}
use rustsync.Base.Map.{BTreeMap, Entries, Entries-mono, get}
use rustsync.Base.Map.{contains_key}
use rustsync.Protocol.Device.{Crypto, DeviceRecord}
use rustsync.Protocol.Access.State.{AccessState, Membership, KeyVersion, KeyGrant}
use rustsync.Protocol.Access.Validation.{check_device, check_membership, check_version, check_grant}
use rustsync.Protocol.Access.Validity.{Accepts, for_each_iff, IsReady}

check_membership_later :
    (s : AccessState) (n k : ℕ) (id : Bytes) (m : Membership)
    → n ≤ k
    → Accepts (check_membership (record s { revision = n }) id m)
    → Accepts (check_membership (record s { revision = k }) id m)
unfolding check_membership
check_membership_later s n k id m h a = ground arith

check_grant_later :
    (n k : ℕ) (v : KeyVersion) (id : Bytes) (g : KeyGrant)
    → n ≤ k
    → Accepts (check_grant n v id g)
    → Accepts (check_grant k v id g)
unfolding check_grant
check_grant_later n k v id g h a = ground arith

-- A version is accepted when its generation is not 0 and each of its grants is accepted.
pub check_version-of_Entries :
    (n : ℕ) (v : KeyVersion) (m : BTreeMap Bytes KeyGrant)
    → v.generation ≢ 0
    → Entries (λ id g. Accepts (check_grant n v id g)) m
    → Accepts (check_version n v m)
unfolding check_version
check_version-of_Entries n v m h a = ground (arith, (for_each_iff (check_grant n v) m).1 a)

pub check_version-generation :
    (n : ℕ) (v : KeyVersion) (m : BTreeMap Bytes KeyGrant)
    → Accepts (check_version n v m)
    → v.generation ≢ 0
unfolding check_version
check_version-generation n v m a = ground arith

pub check_version-Entries :
    (n : ℕ) (v : KeyVersion) (m : BTreeMap Bytes KeyGrant)
    → Accepts (check_version n v m)
    → Entries (λ id g. Accepts (check_grant n v id g)) m
unfolding check_version
check_version-Entries n v m a = (for_each_iff (check_grant n v) m).0 (ground arith)

check_version_later :
    (n k : ℕ) (v : KeyVersion) (m : BTreeMap Bytes KeyGrant)
    → n ≤ k
    → Accepts (check_version n v m)
    → Accepts (check_version k v m)
check_version_later n k v m h a =
    check_version-of_Entries k v m (check_version-generation n v m a)
      (Entries-mono _ _ m (λ id g. check_grant_later n k v id g h) (check_version-Entries n v m a))

-- What holds at one revision holds at every later one.
pub IsReady-later : (c : Crypto) (s : AccessState) (n k : ℕ) → n ≤ k → IsReady c n s → IsReady c k s
IsReady-later c s n k h r = record {
  owners = r.owners;
  devices = r.devices;
  memberships =
      Entries-mono _ _ s.memberships (λ id m. check_membership_later s n k id m h) r.memberships;
  grants = Entries-mono _ _ s.key_grants (λ v g. check_version_later n k v g h) r.grants;
  nodup = r.nodup;
}

-- A check of a device reads the keys of the memberships only.
pub check_device_mono :
    (c : Crypto) (s t : AccessState) (id : Bytes) (d : DeviceRecord)
    → (contains_key id s.memberships ≡ true → contains_key id t.memberships ≡ true)
    → Accepts (check_device c s id d)
    → Accepts (check_device c t id d)
unfolding check_device
check_device_mono c s t id d h a = ground (arith, h)

-- A check of a membership reads the revision and its own device only.
pub check_membership_same :
    (s t : AccessState) (id : Bytes) (m : Membership)
    → s.revision ≡ t.revision
    → get id t.devices ≡ get id s.devices
    → Accepts (check_membership s id m)
    → Accepts (check_membership t id m)
unfolding check_membership
check_membership_same s t id m r e a = ground (arith, e, r)
