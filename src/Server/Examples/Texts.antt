-- ===== src/Server/Examples/Texts.antt =====
-- Texts for the types that the server keeps, and a `Json` of them.
use rustsync.Base.{ℕ, zero, suc, Bytes, some, ◌≡◌, refl}
use rustsync.Server.Examples.Codec.{Codec, nat, pair, list, option, through, to_vec, from_slice}
use rustsync.Server.Examples.Codec.{from_slice-to_vec}
use rustsync.Server.Database.Tables.{Json}
use rustsync.Server.Api.Later.{IsFaithful}
use rustsync.Protocol.Device.{DeviceRecord, DeviceStatus, pending}
use rustsync.Protocol.Device
use rustsync.Protocol.Device.Join.{DeviceJoinRequest}
use rustsync.Protocol.Envelope.{KeyEnvelope}
use rustsync.Protocol.Access.Role.{WorkspaceRole, owner, member}
use rustsync.Protocol.Access.State.{AccessState, Membership, MembershipStatus, KeyVersion, KeyGrant}
use rustsync.Protocol.Access.State
use rustsync.Protocol.Access.Event.{SignedAccessEvent}
use rustsync.Protocol.Api.{CreateWorkspaceRequest, ApproveJoinRequestRequest}

abbrev text : Codec Bytes
text = list nat

abbrev status_of : ℕ → DeviceStatus
status_of zero = pending
status_of (suc zero) = Device.active
status_of (suc (suc n)) = Device.revoked

abbrev status_code : DeviceStatus → ℕ
status_code pending = 0
status_code Device.active = 1
status_code Device.revoked = 2

pub status_code-status_of : (s : DeviceStatus) → status_of (status_code s) ≡ s
status_code-status_of pending = refl
status_code-status_of Device.active = refl
status_code-status_of Device.revoked = refl

abbrev role_of : ℕ → WorkspaceRole
role_of zero = owner
role_of (suc n) = member

abbrev role_code : WorkspaceRole → ℕ
role_code owner = 0
role_code member = 1

pub role_code-role_of : (r : WorkspaceRole) → role_of (role_code r) ≡ r
role_code-role_of owner = refl
role_code-role_of member = refl

abbrev standing_of : ℕ → MembershipStatus
standing_of zero = State.active
standing_of (suc n) = State.removed

abbrev standing_code : MembershipStatus → ℕ
standing_code State.active = 0
standing_code State.removed = 1

pub standing_code-standing_of : (s : MembershipStatus) → standing_of (standing_code s) ≡ s
standing_code-standing_of State.active = refl
standing_code-standing_of State.removed = refl

abbrev device : Codec DeviceRecord
device =
    through (pair text (pair text (pair text (pair text (pair text nat)))))
      (λ d. (
        d.device_id,
        (
          d.device_name,
          (d.signing_public_key, (d.exchange_public_key, (d.fingerprint, status_code d.status))),
        ),
      ))
      (λ (f0, (f1, (f2, (f3, (f4, f5))))). record {
        device_id = f0;
        device_name = f1;
        signing_public_key = f2;
        exchange_public_key = f3;
        fingerprint = f4;
        status = status_of f5;
      })
      (λ d. rw (status_code-status_of d.status) refl)

abbrev join_request : Codec DeviceJoinRequest
join_request =
    through (pair text (pair text (pair device (pair nat text))))
      (λ r. (r.request_id, (r.workspace_id, (r.device, (r.created_at, r.signature)))))
      (λ (f0, (f1, (f2, (f3, f4)))). record {
        request_id = f0;
        workspace_id = f1;
        device = f2;
        created_at = f3;
        signature = f4;
      })
      (λ r. refl)

abbrev membership : Codec Membership
membership =
    through
      (pair text (
        pair nat (
          pair nat (
            pair text
              (pair nat (pair nat (pair (option text) (pair (option nat) (option nat)))))))))
      (λ m. (
        m.device_id,
        (
          role_code m.role,
          (
            standing_code m.status,
            (
              m.joined_by_device_id,
              (
                m.joined_at,
                (
                  m.joined_at_revision,
                  (m.removed_by_device_id, (m.removed_at, m.removed_at_revision)),
                ),
              ),
            ),
          ),
        ),
      ))
      (λ (f0, (f1, (f2, (f3, (f4, (f5, (f6, (f7, f8)))))))). record {
        device_id = f0;
        role = role_of f1;
        status = standing_of f2;
        joined_by_device_id = f3;
        joined_at = f4;
        joined_at_revision = f5;
        removed_by_device_id = f6;
        removed_at = f7;
        removed_at_revision = f8;
      })
      (λ m. rw (standing_code-standing_of m.status) (rw (role_code-role_of m.role) refl))

abbrev key_version : Codec KeyVersion
key_version =
    through (pair text nat) (λ v. (v.key_id, v.generation))
      (λ (f0, f1). record { key_id = f0; generation = f1 }) (λ v. refl)

abbrev key_grant : Codec KeyGrant
key_grant =
    through
      (pair text (
        pair nat (
          pair text (
            pair text
              (pair nat (pair nat (pair (option text) (pair (option nat) (option nat)))))))))
      (λ g. (
        g.key_id,
        (
          g.generation,
          (
            g.device_id,
            (
              g.granted_by_device_id,
              (
                g.granted_at,
                (
                  g.granted_at_revision,
                  (g.revoked_by_device_id, (g.revoked_at, g.revoked_at_revision)),
                ),
              ),
            ),
          ),
        ),
      ))
      (λ (f0, (f1, (f2, (f3, (f4, (f5, (f6, (f7, f8)))))))). record {
        key_id = f0;
        generation = f1;
        device_id = f2;
        granted_by_device_id = f3;
        granted_at = f4;
        granted_at_revision = f5;
        revoked_by_device_id = f6;
        revoked_at = f7;
        revoked_at_revision = f8;
      })
      (λ g. refl)

abbrev access_state : Codec AccessState
access_state =
    through
      (pair text (
        pair nat (
          pair (option text) (
            pair (list (pair text device)) (
              pair (list (pair text membership))
                (list (pair key_version (list (pair text key_grant)))))))))
      (λ s. (
        s.workspace_id,
        (s.revision, (s.last_event_id, (s.devices, (s.memberships, s.key_grants)))),
      ))
      (λ (f0, (f1, (f2, (f3, (f4, f5))))). record {
        workspace_id = f0;
        revision = f1;
        last_event_id = f2;
        devices = f3;
        memberships = f4;
        key_grants = f5;
      })
      (λ s. refl)

-- The requests that the tests send hold what the texts stand for here.
abbrev pub json_of :
    KeyEnvelope → CreateWorkspaceRequest → ApproveJoinRequestRequest → SignedAccessEvent → Json
json_of envelope creating approving event = record {
  access_state_to_vec = to_vec access_state;
  access_state_from_slice = from_slice access_state;
  join_request_to_vec = to_vec join_request;
  join_request_from_slice = from_slice join_request;
  key_envelope_from_slice = λ body. some envelope;
  create_workspace_from_slice = λ body. some creating;
  approve_request_from_slice = λ body. some approving;
  apply_request_from_slice = λ body. some event;
}

pub json_of-IsFaithful :
    (envelope : KeyEnvelope) (creating : CreateWorkspaceRequest)
    (approving : ApproveJoinRequestRequest) (event : SignedAccessEvent)
    → IsFaithful (json_of envelope creating approving event)
json_of-IsFaithful envelope creating approving event = record {
  states = from_slice-to_vec access_state;
  requests = from_slice-to_vec join_request;
}
