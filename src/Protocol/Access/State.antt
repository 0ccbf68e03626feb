-- ===== src/Protocol/Access/State.antt =====
-- The state of `crates/rustsync-protocol/src/access/state.rs`, and its queries.
use rustsync.Base.{ℕ, suc, Bool, true, false, not, ◌&&◌, if◌then◌else◌, then_cmp}
use rustsync.Base.{bytes_ord, bytes_cmp_iff, Ord, Ordering, compare, bytes_cmp, ◌≡◌, ◌↔◌}
use rustsync.Base.{[], ◌∷◌, List, Bytes, Option, none, some, arith, nat_ord}
use rustsync.Base.Map.{BTreeMap, get, values}
use rustsync.Base.Exec.{ok, err, reject, ok_or}
use rustsync.Base.Chain.{◌>>=◌}
use rustsync.Protocol.Error.{ProtocolResult, invalid_state, device_not_active_member}
use rustsync.Protocol.Error.{permission_denied, device_not_authorized_for_key}
use rustsync.Protocol.Error.{active_without_record, active_record_inactive}
use rustsync.Protocol.Device
use rustsync.Protocol.Device.{Crypto, DeviceRecord, status_eq}
use rustsync.Protocol.Access.Role.{WorkspaceRole, role_eq, allows, WorkspacePermission}

pub data MembershipStatus : Type 0 where
  active removed : MembershipStatus

abbrev pub membership_status_eq : MembershipStatus → MembershipStatus → Bool
membership_status_eq active active = true
membership_status_eq removed removed = true
membership_status_eq _ _ = false

pub record Membership : Type 0 where
  pub device_id : Bytes
  pub role : WorkspaceRole
  pub status : MembershipStatus
  pub joined_by_device_id : Bytes
  pub joined_at : ℕ
  pub joined_at_revision : ℕ
  pub removed_by_device_id : Option Bytes
  pub removed_at : Option ℕ
  pub removed_at_revision : Option ℕ

pub record KeyVersion : Type 0 where
  pub key_id : Bytes
  pub generation : ℕ

-- The derived order: by key, then by generation
abbrev pub key_version_cmp : KeyVersion → KeyVersion → Ordering
key_version_cmp a b = then_cmp (bytes_cmp a.key_id b.key_id) (compare a.generation b.generation)

pub key_version_cmp_iff : (a b : KeyVersion) → (key_version_cmp a b ≡ Ordering.eq) ↔ (a ≡ b)
key_version_cmp_iff a b = (
  λ h. ground (arith, bytes_cmp_iff a.key_id b.key_id),
  λ h. ground (arith, bytes_cmp_iff a.key_id b.key_id),
)

instance abbrev pub key_version_ord : Ord KeyVersion
key_version_ord = record { cmp = key_version_cmp; cmp_iff = key_version_cmp_iff }

pub record KeyGrant : Type 0 where
  pub key_id : Bytes
  pub generation : ℕ
  pub device_id : Bytes
  pub granted_by_device_id : Bytes
  pub granted_at : ℕ
  pub granted_at_revision : ℕ
  pub revoked_by_device_id : Option Bytes
  pub revoked_at : Option ℕ
  pub revoked_at_revision : Option ℕ

pub record AccessState : Type 0 where
  pub workspace_id : Bytes
  pub revision : ℕ
  pub last_event_id : Option Bytes
  pub devices : BTreeMap Bytes DeviceRecord
  pub memberships : BTreeMap Bytes Membership
  pub key_grants : BTreeMap KeyVersion (BTreeMap Bytes KeyGrant)

abbrev pub empty : Bytes → AccessState
empty workspace_id = record {
  workspace_id = workspace_id;
  revision = 0;
  last_event_id = none;
  devices = [];
  memberships = [];
  key_grants = [];
}

abbrev pub is_none {ℓ} : {A : Type ℓ} → Option A → Bool
is_none none = true
is_none (some a) = false

abbrev pub is_some {ℓ} : {A : Type ℓ} → Option A → Bool
is_some none = false
is_some (some a) = true

unfoldable pub membership : AccessState → Bytes → Option Membership
membership s device_id = get device_id s.memberships

unfoldable pub device_record : AccessState → Bytes → Option DeviceRecord
device_record s device_id = get device_id s.devices

unfoldable pub active_membership : AccessState → Bytes → ProtocolResult Membership
unfolding membership
active_membership s device_id = do
  m ← ok_or (membership s device_id) (device_not_active_member device_id)
  reject (not (membership_status_eq m.status active)) (device_not_active_member device_id) (ok m)

unfoldable pub active_device_record : AccessState → Bytes → ProtocolResult DeviceRecord
unfolding active_membership device_record
active_device_record s device_id = do
  m ← active_membership s device_id
  d ← ok_or (device_record s device_id) (invalid_state active_without_record)
  reject (not (status_eq d.status Device.active)) (invalid_state active_record_inactive) (ok d)

unfoldable pub role : AccessState → Bytes → ProtocolResult WorkspaceRole
unfolding active_membership
role s device_id = do m ← active_membership s device_id; ok m.role

unfoldable pub require_permission :
    AccessState → Bytes → WorkspacePermission → ProtocolResult (Unit {0})
unfolding active_membership
require_permission s device_id permission = do
  m ← active_membership s device_id
  if allows m.role permission then ok tt else err (permission_denied device_id permission)

unfoldable pub is_active_member : AccessState → Bytes → Bool
unfolding active_membership
is_active_member s device_id = elim (active_membership s device_id) [ ok m ↦ true | err e ↦ false ]

-- `filter` over the values of a map
pub select {ℓ} : {A : Type ℓ} → (A → Bool) → List A → List A
select p [] = []
select p (x ∷ xs) = if p x then x ∷ select p xs else select p xs

unfoldable pub active_members : AccessState → List Membership
unfolding select
active_members s = select (λ m. membership_status_eq m.status active) (values s.memberships)

-- The test that `active_owner_count` counts by
abbrev pub is_active_owner : Membership → Bool
is_active_owner m = membership_status_eq m.status active && role_eq m.role WorkspaceRole.owner

-- `filter(..).count()` over the memberships
unfoldable pub count_owners : BTreeMap Bytes Membership → ℕ
count_owners [] = 0
count_owners ((k, m) ∷ rest) =
    if is_active_owner m then suc (count_owners rest) else count_owners rest

unfoldable pub active_owner_count : AccessState → ℕ
unfolding count_owners
active_owner_count s = count_owners s.memberships

abbrev pub grants_of :
    BTreeMap KeyVersion (BTreeMap Bytes KeyGrant) → Bytes → ℕ → Bytes → Option KeyGrant
grants_of all key_id generation device_id =
    elim (get (record { key_id = key_id; generation = generation }) all) [
      | none ↦ none
      | some grants ↦ get device_id grants
    ]

unfoldable pub key_grant : AccessState → Bytes → ℕ → Bytes → Option KeyGrant
key_grant s key_id generation device_id = grants_of s.key_grants key_id generation device_id

unfoldable pub has_active_key_grant : AccessState → Bytes → ℕ → Bytes → Bool
unfolding key_grant
has_active_key_grant s key_id generation device_id =
    elim (key_grant s key_id generation device_id) [
      | none ↦ false
      | some grant ↦ is_none grant.revoked_at_revision
    ]

unfoldable pub require_key_grant : AccessState → Bytes → ℕ → Bytes → ProtocolResult KeyGrant
unfolding key_grant
require_key_grant s key_id generation device_id = elim (key_grant s key_id generation device_id) [
  | none ↦ err (device_not_authorized_for_key key_id generation device_id)
  | some grant ↦
      if is_none grant.revoked_at_revision
      then ok grant
      else err (device_not_authorized_for_key key_id generation device_id)
]
