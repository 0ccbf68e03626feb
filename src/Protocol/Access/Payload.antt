-- ===== src/Protocol/Access/Payload.antt =====
-- `SignedAccessEvent::signing_payload` as a sequence of fields, and how to read them back.
use rustsync.Base.{ℕ, ◌<◌, ◌≡◌, refl, sym, ap, ◌∙◌, List, [], ◌∷◌, ◌++◌, Bytes, Option, none, some}
use rustsync.Base.{All, if◌then◌else◌, ◌==◌, nat_ord, u64_mod}
use mathlib.Core.List.{append_assoc}
use mathlib.Core.Option
use mathlib.Core.Option.{some-injective}
use rustsync.Protocol.Encoding.{to_be_bytes, push_str, push_u64, push_u8}
use rustsync.Protocol.Encoding.Frames.{frames, frames_inj, IsShort, read_u64_field}
use rustsync.Protocol.Encoding.Frames.{
  read_u64_field-to_be_bytes, push_bytes-nil, push_bytes-frames,
}
use rustsync.Protocol.Device.{DeviceRecord, DeviceStatus, pending, active, revoked}
use rustsync.Protocol.Access.Role.{WorkspaceRole, owner, member}
use rustsync.Protocol.Access.Event.{
  SignedAccessEvent, AccessEvent, signing_payload, push_access_event,
}
use rustsync.Protocol.Access.Event.{workspace_created, device_joined, device_role_changed}
use rustsync.Protocol.Access.Event.{device_removed, restricted_key_granted, restricted_key_revoked}
use rustsync.Protocol.Access.Event.{status_tag, role_tag, access_event_domain, push_device_record}
use rustsync.Protocol.Access.Event.{push_role}

abbrev device_fields : DeviceRecord → List Bytes → List Bytes
device_fields d rest =
    d.device_id
    ∷ d.device_name
    ∷ d.signing_public_key
    ∷ d.exchange_public_key
    ∷ d.fingerprint
    ∷ (status_tag d.status ∷ [])
    ∷ rest

-- The fields of an event, in the order in which they are written
abbrev event_fields : AccessEvent → List Bytes
event_fields (workspace_created d) = (1 ∷ []) ∷ device_fields d []
event_fields (device_joined id d role) = (2 ∷ []) ∷ id ∷ device_fields d ((role_tag role ∷ []) ∷ [])
event_fields (device_role_changed id role) = (3 ∷ []) ∷ id ∷ (role_tag role ∷ []) ∷ []
event_fields (device_removed id) = (4 ∷ []) ∷ id ∷ []
event_fields (restricted_key_granted key generation id) =
    (5 ∷ []) ∷ key ∷ to_be_bytes generation ∷ id ∷ []
event_fields (restricted_key_revoked key generation id) =
    (6 ∷ []) ∷ key ∷ to_be_bytes generation ∷ id ∷ []

abbrev pub payload_fields : SignedAccessEvent → List Bytes
payload_fields e =
    access_event_domain
    ∷ e.event_id
    ∷ e.workspace_id
    ∷ to_be_bytes e.expected_revision
    ∷ e.actor_device_id
    ∷ to_be_bytes e.created_at
    ∷ event_fields e.event

push_access_event-frames :
    (fs : List Bytes) (event : AccessEvent)
    → push_access_event (frames fs) event ≡ frames (fs ++ event_fields event)
unfolding push_access_event push_str push_u8 push_u64 push_device_record push_role
push_access_event-frames fs (workspace_created d) = simp (push_bytes-frames, append_assoc)
push_access_event-frames fs (device_joined id d role) = simp (push_bytes-frames, append_assoc)
push_access_event-frames fs (device_role_changed id role) = simp (push_bytes-frames, append_assoc)
push_access_event-frames fs (device_removed id) = simp (push_bytes-frames, append_assoc)
push_access_event-frames fs (restricted_key_granted k g id) = simp (push_bytes-frames, append_assoc)
push_access_event-frames fs (restricted_key_revoked k g id) = simp (push_bytes-frames, append_assoc)

pub signing_payload-frames : (e : SignedAccessEvent) → signing_payload e ≡ frames (payload_fields e)
unfolding signing_payload push_str push_u64
signing_payload-frames e =
    simp (push_bytes-nil, push_bytes-frames) (push_access_event-frames _ e.event)

-- Reading back

tag_of : Bytes → ℕ
tag_of (t ∷ []) = t
tag_of _ = 0

read_status : Bytes → DeviceStatus
unfolding tag_of
read_status f = if tag_of f == 1 then pending else if tag_of f == 2 then active else revoked

read_role : Bytes → WorkspaceRole
unfolding tag_of
read_role f = if tag_of f == 1 then owner else member

read_device : Bytes → Bytes → Bytes → Bytes → Bytes → Bytes → DeviceRecord
unfolding read_status
read_device id name signing exchange fingerprint status = record {
  device_id = id;
  device_name = name;
  signing_public_key = signing;
  exchange_public_key = exchange;
  fingerprint = fingerprint;
  status = read_status status;
}

read_event : List Bytes → Option AccessEvent
unfolding read_device read_role
read_event (tag ∷ id ∷ name ∷ signing ∷ exchange ∷ fingerprint ∷ status ∷ []) =
    some (workspace_created (read_device id name signing exchange fingerprint status))
read_event (tag ∷ jid ∷ id ∷ name ∷ signing ∷ exchange ∷ fingerprint ∷ status ∷ role ∷ []) =
    some
      (device_joined jid (read_device id name signing exchange fingerprint status) (read_role role))
read_event (tag ∷ id ∷ role ∷ []) = some (device_role_changed id (read_role role))
read_event (tag ∷ id ∷ []) = some (device_removed id)
read_event (tag ∷ key ∷ generation ∷ id ∷ []) = some (
    if tag_of tag == 5
    then restricted_key_granted key (read_u64_field generation) id
    else restricted_key_revoked key (read_u64_field generation) id)
read_event _ = none

-- The numbers of an event fit in 64 bits, as the type of the source has it.
abbrev pub HasWordGeneration : AccessEvent → Type 0
HasWordGeneration (restricted_key_granted k g id) = g < u64_mod
HasWordGeneration (restricted_key_revoked k g id) = g < u64_mod
HasWordGeneration _ = Unit

read_status-status_tag : (st : DeviceStatus) → read_status (status_tag st ∷ []) ≡ st
unfolding read_status
read_status-status_tag pending = refl
read_status-status_tag active = refl
read_status-status_tag revoked = refl

read_device-status :
    (d : DeviceRecord)
    → read_device d.device_id d.device_name d.signing_public_key d.exchange_public_key d.fingerprint
        (status_tag d.status ∷ [])
      ≡ d
unfolding read_device
read_device-status d = ap (λ st. record d { status = st }) (read_status-status_tag d.status)

read_role-role_tag : (role : WorkspaceRole) → read_role (role_tag role ∷ []) ≡ role
unfolding read_role
read_role-role_tag owner = refl
read_role-role_tag member = refl

read_event-event_fields :
    (event : AccessEvent) → HasWordGeneration event → read_event (event_fields event) ≡ some event
unfolding read_event tag_of
read_event-event_fields (workspace_created d) w = cc (read_device-status d)
read_event-event_fields (device_joined id d role) w =
    cc (read_device-status d, read_role-role_tag role)
read_event-event_fields (device_role_changed id role) w = cc (read_role-role_tag role)
read_event-event_fields (device_removed id) w = refl
read_event-event_fields (restricted_key_granted k g id) w = cc (read_u64_field-to_be_bytes g w)
read_event-event_fields (restricted_key_revoked k g id) w = cc (read_u64_field-to_be_bytes g w)

-- The signed content: the event without its signature
read_payload : List Bytes → Option SignedAccessEvent
read_payload (domain ∷ id ∷ workspace ∷ revision ∷ actor ∷ at ∷ fields) =
    Option.map
      (λ event. record {
        event_id = id;
        workspace_id = workspace;
        expected_revision = read_u64_field revision;
        actor_device_id = actor;
        created_at = read_u64_field at;
        event = event;
        signature = [];
      })
      (read_event fields)
read_payload _ = none

-- The numbers of an event fit in 64 bits and its fields are shorter than 2 ^ 64 bytes.
pub record IsEncodable (e : SignedAccessEvent) : Type 0 where
  pub revision : e.expected_revision < u64_mod
  pub at : e.created_at < u64_mod
  pub generation : HasWordGeneration e.event
  pub fields : All IsShort (payload_fields e)

read_payload-payload_fields :
    (e : SignedAccessEvent)
    → IsEncodable e
    → read_payload (payload_fields e) ≡ some (record e { signature = [] })
unfolding read_payload
read_payload-payload_fields e h = simp (
  read_event-event_fields e.event h.generation,
  read_u64_field-to_be_bytes e.expected_revision h.revision,
  read_u64_field-to_be_bytes e.created_at h.at,
)

-- A signature covers one event only: events whose numbers fit 64 bits and whose fields have 64-bit
-- lengths, with the same signed bytes, differ in the signature at most.
pub signing_payload_inj :
    (e f : SignedAccessEvent)
    → IsEncodable e
    → IsEncodable f
    → signing_payload e ≡ signing_payload f
    → record e { signature = [] } ≡ record f { signature = [] }
signing_payload_inj e f he hf same = some-injective _ _ (
    sym (read_payload-payload_fields e he)
    ∙ ap read_payload (
        frames_inj (payload_fields e) (payload_fields f) he.fields hf.fields
          (sym (signing_payload-frames e) ∙ same ∙ signing_payload-frames f))
    ∙ read_payload-payload_fields f hf)
