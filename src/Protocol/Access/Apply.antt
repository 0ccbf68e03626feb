-- ===== src/Protocol/Access/Apply.antt =====
-- `AccessState::apply_verified_event` of `crates/rustsync-protocol/src/access/state.rs` and the
-- changes that it is made of. Errors leave what was written before them in the state.
use rustsync.Base.{ℕ, not, ◌&&◌, ◌||◌, if◌then◌else◌, ◌==◌, bytes_ord, nat_ord, []}
use rustsync.Base.{Bytes, Option, none, some, is_empty, checked_add}
use rustsync.Base.Map.{BTreeMap, get, insert, adjust, map_values}
use rustsync.Base.Exec.{Exec, ok, reject, ok_or, reads, modify, ◌>>=◌, ◌>>◌}
use rustsync.Base.Chain
use rustsync.Protocol.Error.{ProtocolError, ProtocolResult, invalid_state, device_not_active_member}
use rustsync.Protocol.Error.{workspace_id_mismatch, revision_overflow, device_already_member}
use rustsync.Protocol.Error.{cannot_remove_last_owner, key_access_already_granted}
use rustsync.Protocol.Error.{key_access_not_granted, expected_revision_differs, not_empty}
use rustsync.Protocol.Error.{creator_not_owner}
use rustsync.Protocol.Device
use rustsync.Protocol.Device.{Crypto, DeviceRecord}
use rustsync.Protocol.Access.Role.{WorkspaceRole, owner, role_eq}
use rustsync.Protocol.Access.Event.{SignedAccessEvent, AccessEvent, required_permission}
use rustsync.Protocol.Access.Event.{workspace_created, device_joined, device_role_changed}
use rustsync.Protocol.Access.Event.{device_removed, restricted_key_granted, restricted_key_revoked}
use rustsync.Protocol.Access.Event
use rustsync.Protocol.Access.Validation
use rustsync.Protocol.Access.State.{AccessState, Membership, KeyVersion, KeyGrant, is_some, is_none}
use rustsync.Protocol.Access.State.{active, removed, active_membership, require_permission}
use rustsync.Protocol.Access.State.{active_owner_count, has_active_key_grant, key_grant, membership}
use rustsync.Protocol.Access.State.{key_version_ord}

abbrev Change : Type 0
Change = Exec ProtocolError AccessState (Unit {0})

unfoldable pub insert_membership : Membership → AccessState → AccessState
insert_membership m s = record s { memberships = insert m.device_id m s.memberships }

unfoldable pub insert_device_record : DeviceRecord → AccessState → AccessState
insert_device_record d s = record s { devices = insert d.device_id d s.devices }

-- A change of the record that `membership_mut` finds
unfoldable pub change_membership : Bytes → (Membership → Membership) → AccessState → AccessState
change_membership id f s = record s { memberships = adjust id f s.memberships }

abbrev pub entry_or_default : Option (BTreeMap Bytes KeyGrant) → BTreeMap Bytes KeyGrant
entry_or_default none = []
entry_or_default (some grants) = grants

abbrev pub version_of : KeyGrant → KeyVersion
version_of g = record { key_id = g.key_id; generation = g.generation }

unfoldable pub insert_key_grant : KeyGrant → AccessState → AccessState
insert_key_grant g s = record s {
  key_grants =
      insert (version_of g)
        (insert g.device_id g (entry_or_default (get (version_of g) s.key_grants))) s.key_grants;
}

abbrev pub revoke_grant : Bytes → ℕ → ℕ → KeyGrant → KeyGrant
revoke_grant by at revision g = record g {
  revoked_by_device_id = some by;
  revoked_at = some at;
  revoked_at_revision = some revision;
}

abbrev pub revoke_if_active : Bytes → ℕ → ℕ → KeyGrant → KeyGrant
revoke_if_active by at revision g =
    if is_none g.revoked_at_revision then revoke_grant by at revision g else g

-- The list of the affected versions, which the caller drops, is left out.
unfoldable pub revoke_all_for_device : Bytes → Bytes → ℕ → ℕ → AccessState → AccessState
revoke_all_for_device id by at revision s = record s {
  key_grants = map_values (adjust id (revoke_if_active by at revision)) s.key_grants;
}

unfoldable pub commit_event : Bytes → ℕ → AccessState → AccessState
commit_event event_id next s = record s { revision = next; last_event_id = some event_id }

-- `require_event_permission`
unfoldable pub require_event_permission :
    SignedAccessEvent → AccessState → ProtocolResult (Unit {0})
require_event_permission e s = elim (required_permission e.event) [
  | none ↦ ok tt
  | some permission ↦ require_permission s e.actor_device_id permission
]

-- A member who joins or creates at this event
abbrev pub new_membership : SignedAccessEvent → ℕ → Bytes → WorkspaceRole → Bytes → Membership
new_membership e next id role by = record {
  device_id = id;
  role = role;
  status = active;
  joined_by_device_id = by;
  joined_at = e.created_at;
  joined_at_revision = next;
  removed_by_device_id = none;
  removed_at = none;
  removed_at_revision = none;
}

-- `self.membership_mut(device_id)?` and a change of the record
unfoldable pub membership_mut : Bytes → (Membership → Membership) → Change
unfolding change_membership
membership_mut id f = do
  m ← reads λ s. ok_or (membership s id) (device_not_active_member id)
  modify (change_membership id f)

-- `if let Some(device) = self.devices.get_mut(device_id) { device.revoke() }`
unfoldable pub revoke_device : Bytes → AccessState → AccessState
revoke_device id s = record s { devices = adjust id Device.revoke s.devices }

-- A change of the record that `key_grant_mut` finds
unfoldable pub change_key_grant :
    Bytes → ℕ → Bytes → (KeyGrant → KeyGrant) → AccessState → AccessState
change_key_grant key_id generation id f s = record s {
  key_grants =
      adjust (record { key_id = key_id; generation = generation }) (adjust id f) s.key_grants;
}

module _ (e : SignedAccessEvent) (next : ℕ) where
  unfoldable pub create_workspace : DeviceRecord → Change
  unfolding insert_device_record insert_membership
  create_workspace creator = do
    reads λ s.
        reject (not (s.revision == 0) || not (is_empty s.memberships) || not (is_empty s.devices))
          (invalid_state not_empty)
          (reject (not (e.actor_device_id == creator.device_id)) (invalid_state creator_not_owner)
            (ok tt))
    modify (insert_device_record creator)
    modify (insert_membership (new_membership e next creator.device_id owner creator.device_id))

  unfoldable pub join_device : DeviceRecord → WorkspaceRole → Change
  unfolding insert_device_record insert_membership require_event_permission
  join_device device role = do
    reads (require_event_permission e)
    reads λ s.
        reject (is_some (membership s device.device_id)) (device_already_member device.device_id)
          (ok tt)
    modify (insert_device_record (Device.activate device))
    modify (insert_membership (new_membership e next device.device_id role e.actor_device_id))

  unfoldable pub change_role : Bytes → WorkspaceRole → Change
  unfolding membership_mut require_event_permission
  change_role id new_role = do
    reads (require_event_permission e)
    m ← reads λ s. active_membership s id
    reads λ s.
        reject (not (role_eq new_role owner) && role_eq m.role owner && active_owner_count s == 1)
          cannot_remove_last_owner (ok tt)
    membership_mut id (λ m. record m { role = new_role })

  abbrev pub remove_membership : Membership → Membership
  remove_membership m = record m {
    status = removed;
    removed_by_device_id = some e.actor_device_id;
    removed_at = some e.created_at;
    removed_at_revision = some next;
  }

  unfoldable pub remove_device : Bytes → Change
  unfolding membership_mut require_event_permission revoke_device revoke_all_for_device
  remove_device id = do
    reads (require_event_permission e)
    m ← reads λ s. active_membership s id
    reads λ s.
        reject (role_eq m.role owner && active_owner_count s == 1) cannot_remove_last_owner (ok tt)
    membership_mut id remove_membership
    modify (revoke_device id)
    modify (revoke_all_for_device id e.actor_device_id e.created_at next)

  unfoldable pub grant_key : Bytes → ℕ → Bytes → Change
  unfolding require_event_permission insert_key_grant
  grant_key key_id generation id = do
    reads (require_event_permission e)
    m ← reads λ s. active_membership s id
    reads λ s.
        reject (has_active_key_grant s key_id generation id)
          (key_access_already_granted key_id generation id) (ok tt)
    modify (
        insert_key_grant record {
          key_id = key_id;
          generation = generation;
          device_id = id;
          granted_by_device_id = e.actor_device_id;
          granted_at = e.created_at;
          granted_at_revision = next;
          revoked_by_device_id = none;
          revoked_at = none;
          revoked_at_revision = none;
        })

  unfoldable pub revoke_key : Bytes → ℕ → Bytes → Change
  unfolding require_event_permission change_key_grant
  revoke_key key_id generation id = do
    reads (require_event_permission e)
    grant ←
        reads λ s.
          ok_or (key_grant s key_id generation id) (key_access_not_granted key_id generation id)
    reads λ s.
        reject (is_some grant.revoked_at_revision) (key_access_not_granted key_id generation id)
          (ok tt)
    modify
        (change_key_grant key_id generation id (revoke_grant e.actor_device_id e.created_at next))

  -- The match of `apply_verified_event` on the event
  unfoldable pub apply_event : AccessEvent → Change
  unfolding create_workspace join_device change_role remove_device grant_key revoke_key
  apply_event (workspace_created creator) = create_workspace creator
  apply_event (device_joined id device role) = join_device device role
  apply_event (device_role_changed id new_role) = change_role id new_role
  apply_event (device_removed id) = remove_device id
  apply_event (restricted_key_granted key_id generation id) = grant_key key_id generation id
  apply_event (restricted_key_revoked key_id generation id) = revoke_key key_id generation id

-- The checks before the match, which give the next revision
unfoldable pub next_revision : Crypto → SignedAccessEvent → AccessState → ProtocolResult ℕ
next_revision c e s = Chain.◌>>=◌ (Event.validate c e) λ _.
    reject (not (s.workspace_id == e.workspace_id))
      (workspace_id_mismatch s.workspace_id e.workspace_id)
      (reject (not (s.revision == e.expected_revision)) (invalid_state expected_revision_differs)
        (ok_or (checked_add s.revision 1) revision_overflow))

unfoldable pub apply_verified_event : Crypto → SignedAccessEvent → Change
unfolding next_revision apply_event commit_event
apply_verified_event c e = do
  next ← reads (next_revision c e)
  apply_event e next e.event
  modify (commit_event e.event_id next)
  reads (Validation.validate c)
