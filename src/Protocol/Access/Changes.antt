-- ===== src/Protocol/Access/Changes.antt =====
-- What each change of `apply_event` leaves when it succeeds and when it fails.
use rustsync.Base.{ℕ, ◌<◌, ◌≡◌, refl, ◌≢◌, false, arith}
use rustsync.Base.{[], Bytes, none, some, ◌==◌, nat_ord, bytes_ord}
use rustsync.Base.{◌&&◌}
use rustsync.Base.Map.{get}
use rustsync.Protocol.Access.Apply.{change_membership, remove_membership}
use rustsync.Base.Exec.{Settles-modify_twice}
use rustsync.Base.Exec.{ok, modify, ◌>>=◌, ◌>>◌, Settles, Settles-reads, Settles-bind}
use rustsync.Protocol.Error.{ProtocolError}
use rustsync.Protocol.Device.{Crypto, DeviceRecord}
use rustsync.Protocol.Device
use rustsync.Protocol.Access.Role.{WorkspaceRole, owner, role_eq}
use rustsync.Protocol.Access.Event
use rustsync.Protocol.Access.Event.{SignedAccessEvent, AccessEvent, required_permission}
use rustsync.Protocol.Access.Event.{workspace_created, device_joined, device_role_changed}
use rustsync.Protocol.Access.Event.{device_removed, restricted_key_granted, restricted_key_revoked}
use rustsync.Protocol.Access.State.{
  AccessState, Membership, active_membership, active, membership, active_owner_count,
}
use rustsync.Protocol.Access.State.{require_permission}
use rustsync.Protocol.Access.Validation.{validate}
use rustsync.Protocol.Access.Apply
use rustsync.Protocol.Access.Apply.{require_event_permission, apply_event, apply_verified_event}
use rustsync.Protocol.Access.Apply.{create_workspace, join_device, change_role, remove_device}
use rustsync.Protocol.Access.Apply.{
  grant_key, revoke_key, membership_mut, next_revision, commit_event,
}
use rustsync.Protocol.Access.Validity.{Accepts, IsReady, IsWellFormed, IsReady-of_IsWellFormed}
use rustsync.Protocol.Access.Validity.Steps.{IsReady-later}
use rustsync.Protocol.Access.Validity.Joining.{
  enrolled-IsReady, founded-IsReady, change_role-IsReady,
}
use rustsync.Protocol.Access.Validity.Leaving.{departed-IsReady}
use rustsync.Protocol.Access.Validity.Grants.{insert_key_grant-IsReady, revoke_key-IsReady}

-- An active member is in the map, with the status `active`.
pub active_membership-get :
    (s : AccessState) (id : Bytes) (m : Membership)
    → active_membership s id ≡ ok m
    → (get id s.memberships ≡ some m) × (m.status ≡ active)
unfolding active_membership
active_membership-get s id m h = ground arith

-- A state that has no events has no members, so nothing but a creation is permitted there.
permitted_nonzero :
    (c : Crypto) (s : AccessState) (e : SignedAccessEvent)
    → IsWellFormed c s
    → required_permission e.event ≢ none
    → Accepts (require_event_permission e s)
    → s.revision ≢ 0
unfolding require_event_permission require_permission validate get
permitted_nonzero c s e w h p z = ground (arith, w.valid)

membership_mut-Settles :
    (s : AccessState) (id : Bytes) (f : Membership → Membership)
    → Settles (λ u t. t ≡ change_membership id f s) s (membership_mut id f s)
unfolding membership_mut
membership_mut-Settles s id f = Settles-reads _ s _ _ λ m found. refl

module _ (c : Crypto) (s : AccessState) (e : SignedAccessEvent) (n : ℕ) where
  abbrev pub Next : Unit {0} → AccessState → Type 0
  Next u t = IsReady c n t × (t.revision ≡ s.revision) × (t.workspace_id ≡ s.workspace_id)

  module _ (w : IsWellFormed c s) (later : s.revision < n) where
    IsReady-now :
        required_permission e.event ≢ none → Accepts (require_event_permission e s) → IsReady c n s
    IsReady-now h p =
        IsReady-later c s s.revision n (omega arith)
          (IsReady-of_IsWellFormed c s w (permitted_nonzero c s e w h p))

    create_workspace-Settles :
        (d : DeviceRecord)
        → Accepts (Event.validate_event c (workspace_created d))
        → Settles Next s (create_workspace e n d s)
    unfolding create_workspace Event.validate_event
    create_workspace-Settles d v = Settles-reads Next s _ _ λ u pass.
        let facts : (s.revision ≡ 0)
            × (s.memberships ≡ [])
            × (s.devices ≡ [])
            × Accepts (Device.validate c d)
            × (d.status ≡ Device.active) =
          ground (arith, v, pass) in
        unfold ◌>>=◌ in
        (
          founded-IsReady c n e s d d.device_id (omega arith) facts.3 facts.4 facts.2 facts.1
              (w.no_grants facts.0),
          refl,
          refl,
        )

    join_device-Settles :
        (id : Bytes) (d : DeviceRecord) (role : WorkspaceRole)
        → required_permission e.event ≢ none
        → Accepts (Event.validate_event c (device_joined id d role))
        → Settles Next s (join_device e n d role s)
    unfolding join_device Event.validate_event Device.activate Device.validate membership
        required_permission
    join_device-Settles id d role needs v = Settles-reads Next s _ _ λ u perm.
        Settles-reads Next s _ _ λ u fresh.
          Settles-modify_twice ProtocolError Next s s
            (Apply.insert_device_record (Device.activate d))
            (Apply.insert_membership (Apply.new_membership e n d.device_id role e.actor_device_id))
            (
              enrolled-IsReady c n e s (Device.activate d) role e.actor_device_id (omega arith)
                  (ground (arith, v)) refl (ground (arith, fresh)) (IsReady-now needs perm),
              refl,
              refl,
            )

    change_role-Settles :
        (id : Bytes) (role : WorkspaceRole)
        → required_permission e.event ≢ none
        → Settles Next s (change_role e n id role s)
    unfolding change_role required_permission
    change_role-Settles id role needs = Settles-reads Next s _ _ λ u perm.
        Settles-reads Next s _ _ λ m found. Settles-reads Next s _ _ λ u guard.
          Settles-reads Next s _ _ λ v present.
            let (there, act) = active_membership-get s id m found in
            (
              change_role-IsReady c n s id m role there act (ground (arith, guard))
                  (IsReady-now needs perm),
              refl,
              refl,
            )

    -- What `remove_device` does once its guards have passed.
    departure-Settles :
        (id : Bytes) (m : Membership)
        → get id s.memberships ≡ some m
        → m.status ≡ active
        → (role_eq m.role owner && active_owner_count s == 1) ≡ false
        → IsReady c n s
        → Settles Next s (
            (membership_mut id (remove_membership e n)
                >> (modify (Apply.revoke_device id)
                    >> modify (Apply.revoke_all_for_device id e.actor_device_id e.created_at n)))
              s)
    departure-Settles id m there act guard ready =
        Settles-bind (λ v t. t ≡ change_membership id (remove_membership e n) s) Next s _ _
          (membership_mut-Settles s id (remove_membership e n))
          λ v t at.
            Settles-modify_twice ProtocolError Next s t (Apply.revoke_device id)
              (Apply.revoke_all_for_device id e.actor_device_id e.created_at n)
              (unfold Apply.revoke_device Apply.revoke_all_for_device change_membership in
                rw at (departed-IsReady e n s id c m there act guard ready, refl, refl))

    remove_device-Settles :
        (id : Bytes) → required_permission e.event ≢ none → Settles Next s (remove_device e n id s)
    unfolding remove_device
    remove_device-Settles id needs = Settles-reads Next s _ _ λ u perm.
        Settles-reads Next s _ _ λ m found. Settles-reads Next s _ _ λ u guard.
          let (there, act) = active_membership-get s id m found in
          departure-Settles id m there act (ground (arith, guard)) (IsReady-now needs perm)

    grant_key-Settles :
        (key_id : Bytes) (generation : ℕ) (id : Bytes)
        → required_permission e.event ≢ none
        → Accepts (Event.validate_event c (restricted_key_granted key_id generation id))
        → Settles Next s (grant_key e n key_id generation id s)
    unfolding grant_key required_permission Event.validate_event
    grant_key-Settles key_id generation id needs v = Settles-reads Next s _ _ λ u perm.
        Settles-reads Next s _ _ λ m found. Settles-reads Next s _ _ λ u absent. (
          insert_key_grant-IsReady c n _ s (omega arith) refl (ground (arith, v))
              (IsReady-now needs perm),
          refl,
          refl,
        )

    revoke_key-Settles :
        (key_id : Bytes) (generation : ℕ) (id : Bytes)
        → required_permission e.event ≢ none
        → Settles Next s (revoke_key e n key_id generation id s)
    unfolding revoke_key required_permission
    revoke_key-Settles key_id generation id needs = Settles-reads Next s _ _ λ u perm.
        Settles-reads Next s _ _ λ g found. Settles-reads Next s _ _ λ u active_grant. (
          revoke_key-IsReady c n n e.created_at generation key_id id e.actor_device_id s
              (IsReady-now needs perm),
          refl,
          refl,
        )

    -- Whatever the event, its change leaves the state ready for the next revision, or as it was.
    pub apply_event-Settles :
        (event : AccessEvent)
        → e.event ≡ event
        → Accepts (Event.validate_event c event)
        → Settles Next s (apply_event e n event s)
    unfolding apply_event required_permission
    apply_event-Settles (workspace_created d) ev v = create_workspace-Settles d v
    apply_event-Settles (device_joined id d role) ev v =
        join_device-Settles id d role (rw ev (λ x. cc)) v
    apply_event-Settles (device_role_changed id role) ev v =
        change_role-Settles id role (rw ev (λ x. cc))
    apply_event-Settles (device_removed id) ev v = remove_device-Settles id (rw ev (λ x. cc))
    apply_event-Settles (restricted_key_granted key_id generation id) ev v =
        grant_key-Settles key_id generation id (rw ev (λ x. cc)) v
    apply_event-Settles (restricted_key_revoked key_id generation id) ev v =
        revoke_key-Settles key_id generation id (rw ev (λ x. cc))
