-- ===== src/Protocol/Access/Event.antt =====
-- `crates/rustsync-protocol/src/access/event.rs`.
use rustsync.Base.{ℕ, not, ◌==◌, bytes_ord, nat_ord, [], Bytes}
use rustsync.Base.{bytes, is_empty, Option, none, some}
use rustsync.Base.Exec.{ok, err, reject}
use rustsync.Base.Chain.{◌>>◌}
use rustsync.Protocol.Error.{ProtocolResult, invalid_access_event, invalid_key_generation}
use rustsync.Protocol.Error.{signature_missing, owner_not_active, joined_not_pending}
use rustsync.Protocol.Error.{actor_mismatch, join_request_mismatch, join_device_mismatch}
use rustsync.Protocol.Error.{join_workspace_mismatch, not_a_join_event}
use rustsync.Protocol.Encoding.{push_bytes, push_str, push_u8, push_u64}
use rustsync.Protocol.Device
use rustsync.Protocol.Device.{Crypto, DeviceRecord, DeviceStatus, pending, active, revoked}
use rustsync.Protocol.Device.{status_eq, record_eq}
use rustsync.Protocol.Device.Join.{DeviceJoinRequest}
use rustsync.Protocol.Access.Role.{WorkspaceRole, owner, member, WorkspacePermission}
use rustsync.Protocol.Access.Role.{manage_devices, manage_roles, manage_keys}

pub data AccessEvent : Type 0 where
  workspace_created : (creator : DeviceRecord) → AccessEvent
  device_joined :
      (join_request_id : Bytes) (device : DeviceRecord) (role : WorkspaceRole) → AccessEvent
  device_role_changed : (device_id : Bytes) (new_role : WorkspaceRole) → AccessEvent
  device_removed : (device_id : Bytes) → AccessEvent
  restricted_key_granted restricted_key_revoked :
      (key_id : Bytes) (key_generation : ℕ) (device_id : Bytes) → AccessEvent

pub record SignedAccessEvent : Type 0 where
  pub event_id : Bytes
  pub workspace_id : Bytes
  pub expected_revision : ℕ
  pub actor_device_id : Bytes
  pub created_at : ℕ
  pub event : AccessEvent
  pub signature : Bytes

unfoldable pub required_permission : AccessEvent → Option WorkspacePermission
required_permission (workspace_created creator) = none
required_permission (device_joined id device role) = some manage_devices
required_permission (device_removed id) = some manage_devices
required_permission (device_role_changed id role) = some manage_roles
required_permission (restricted_key_granted key generation id) = some manage_keys
required_permission (restricted_key_revoked key generation id) = some manage_keys

module _ (c : Crypto) where
  -- `AccessEvent::validate`
  unfoldable pub validate_event : AccessEvent → ProtocolResult (Unit {0})
  validate_event (workspace_created creator) = do
    Device.validate c creator
    reject (not (status_eq creator.status active)) (invalid_access_event owner_not_active) (ok tt)
  validate_event (device_joined id device role) = do
    Device.validate c device
    reject (not (status_eq device.status pending)) (invalid_access_event joined_not_pending) (ok tt)
  validate_event (restricted_key_granted key generation id) =
      reject (generation == 0) (invalid_key_generation generation) (ok tt)
  validate_event (restricted_key_revoked key generation id) =
      reject (generation == 0) (invalid_key_generation generation) (ok tt)
  validate_event (device_role_changed id role) = ok tt
  validate_event (device_removed id) = ok tt

  -- `SignedAccessEvent::validate`
  unfoldable pub validate : SignedAccessEvent → ProtocolResult (Unit {0})
  unfolding validate_event
  validate e =
      reject (is_empty e.signature) (invalid_access_event signature_missing)
        (validate_event e.event)

abbrev pub new_unsigned : Bytes → Bytes → ℕ → Bytes → ℕ → AccessEvent → SignedAccessEvent
new_unsigned event_id workspace_id expected_revision actor created_at event = record {
  event_id = event_id;
  workspace_id = workspace_id;
  expected_revision = expected_revision;
  actor_device_id = actor;
  created_at = created_at;
  event = event;
  signature = [];
}

abbrev pub with_signature : SignedAccessEvent → Bytes → SignedAccessEvent
with_signature e signature = record e { signature = signature }

abbrev pub access_event_domain : Bytes
access_event_domain = bytes "rustsync/access-event"

abbrev pub status_tag : DeviceStatus → ℕ
status_tag pending = 1
status_tag active = 2
status_tag revoked = 3

abbrev pub role_tag : WorkspaceRole → ℕ
role_tag owner = 1
role_tag member = 2

unfoldable pub push_device_record : Bytes → DeviceRecord → Bytes
push_device_record out d =
    let out = push_str out d.device_id in
    let out = push_str out d.device_name in
    let out = push_bytes out d.signing_public_key in
    let out = push_bytes out d.exchange_public_key in
    let out = push_str out d.fingerprint in push_u8 out (status_tag d.status)

unfoldable pub push_role : Bytes → WorkspaceRole → Bytes
push_role out role = push_u8 out (role_tag role)

unfoldable pub push_access_event : Bytes → AccessEvent → Bytes
push_access_event out (workspace_created creator) = push_device_record (push_u8 out 1) creator
push_access_event out (device_joined join_request_id device role) =
    push_role (push_device_record (push_str (push_u8 out 2) join_request_id) device) role
push_access_event out (device_role_changed device_id new_role) =
    push_role (push_str (push_u8 out 3) device_id) new_role
push_access_event out (device_removed device_id) = push_str (push_u8 out 4) device_id
push_access_event out (restricted_key_granted key_id key_generation device_id) =
    push_str (push_u64 (push_str (push_u8 out 5) key_id) key_generation) device_id
push_access_event out (restricted_key_revoked key_id key_generation device_id) =
    push_str (push_u64 (push_str (push_u8 out 6) key_id) key_generation) device_id

unfoldable pub signing_payload : SignedAccessEvent → Bytes
signing_payload e =
    let out = push_bytes [] access_event_domain in
    let out = push_str out e.event_id in
    let out = push_str out e.workspace_id in
    let out = push_u64 out e.expected_revision in
    let out = push_str out e.actor_device_id in
    let out = push_u64 out e.created_at in push_access_event out e.event

module _ (c : Crypto) where
  unfoldable pub verify_signature : SignedAccessEvent → DeviceRecord → ProtocolResult (Unit {0})
  verify_signature e actor = do
    validate c e
    reject (not (actor.device_id == e.actor_device_id)) (invalid_access_event actor_mismatch)
        (Device.verify_signature c actor (signing_payload e) e.signature)

-- The match of `verify_join_request` on the event
join_matches : SignedAccessEvent → AccessEvent → DeviceJoinRequest → ProtocolResult (Unit {0})
join_matches e (device_joined join_request_id device role) request =
    reject (not (join_request_id == request.request_id))
      (invalid_access_event join_request_mismatch)
      (reject (not (record_eq device request.device)) (invalid_access_event join_device_mismatch) (
        reject (not (e.workspace_id == request.workspace_id))
          (invalid_access_event join_workspace_mismatch) (ok tt)))
join_matches e _ request = err (invalid_access_event not_a_join_event)

unfoldable pub verify_join_request :
    SignedAccessEvent → DeviceJoinRequest → ProtocolResult (Unit {0})
unfolding join_matches
verify_join_request e request = join_matches e e.event request
