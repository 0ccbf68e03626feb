-- ===== src/Protocol/Access/Effects.antt =====
-- The state that each change leaves when it succeeds, and what its guards have established.
use rustsync.Base.{ℕ, ◌+◌, true, false, ◌≡◌, refl, Bytes, none, [], arith}
use rustsync.Base.{bytes_ord, bytes_cmp_iff}
use rustsync.Base.Map.{get}
use rustsync.Protocol.Error.{ProtocolError}
use rustsync.Base.Exec.{Returns-modify_twice, Returns-read}
use rustsync.Base.Exec.{
  ok, reads, modify, ◌>>=◌, ◌>>◌, Returns, Returns-reads, Returns-bind, Returns-mono,
}
use rustsync.Protocol.Device
use rustsync.Protocol.Device.{Crypto, DeviceRecord}
use rustsync.Protocol.Access.Role.{WorkspaceRole, owner}
use rustsync.Protocol.Access.Event.{SignedAccessEvent, AccessEvent}
use rustsync.Protocol.Access.Event.{workspace_created, device_joined, device_role_changed}
use rustsync.Protocol.Access.Event.{device_removed, restricted_key_granted, restricted_key_revoked}
use rustsync.Protocol.Access.State.{AccessState, Membership, KeyGrant, active_membership}
use rustsync.Protocol.Access.State.{membership, has_active_key_grant}
use rustsync.Protocol.Access.Validation.{validate}
use rustsync.Protocol.Access.Apply
use rustsync.Protocol.Access.Apply.{require_event_permission, apply_event, apply_verified_event}
use rustsync.Protocol.Access.Apply.{create_workspace, join_device, change_role, remove_device}
use rustsync.Protocol.Access.Apply.{
  grant_key, revoke_key, membership_mut, next_revision, commit_event,
}
use rustsync.Protocol.Access.Apply.{
  change_membership, remove_membership, new_membership, revoke_grant,
}
use rustsync.Protocol.Access.Apply.{insert_key_grant, change_key_grant}
use rustsync.Protocol.Access.Validity.{Accepts}
use rustsync.Protocol.Access.Atomicity.{next_revision_iff}
use rustsync.Protocol.Access.Validity.Joining.{enrolled}
use rustsync.Protocol.Access.Validity.Leaving.{departed}

-- The grant that `grant_key` inserts
abbrev pub new_grant : SignedAccessEvent → ℕ → Bytes → ℕ → Bytes → KeyGrant
new_grant e n key_id generation id = record {
  key_id = key_id;
  generation = generation;
  device_id = id;
  granted_by_device_id = e.actor_device_id;
  granted_at = e.created_at;
  granted_at_revision = n;
  revoked_by_device_id = none;
  revoked_at = none;
  revoked_at_revision = none;
}

-- The state behind the change of an event, before the commit, with the facts of its guards.
abbrev pub Effect : SignedAccessEvent → ℕ → AccessState → AccessEvent → AccessState → Type 0
Effect e n s (workspace_created d) t =
    (s.revision ≡ 0)
    × (s.memberships ≡ [])
    × (s.devices ≡ [])
    × (e.actor_device_id ≡ d.device_id)
    × (t ≡ enrolled e n s d owner d.device_id)
Effect e n s (device_joined id d role) t =
    Accepts (require_event_permission e s)
    × (get d.device_id s.memberships ≡ none)
    × (t ≡ enrolled e n s (Device.activate d) role e.actor_device_id)
Effect e n s (device_role_changed id role) t =
    Accepts (require_event_permission e s)
    × (m : Membership) × (active_membership s id ≡ ok m)
    × (t ≡ change_membership id (λ w. record w { role = role }) s)
Effect e n s (device_removed id) t =
    Accepts (require_event_permission e s)
    × (m : Membership) × (active_membership s id ≡ ok m)
    × (t ≡ departed e n s id)
Effect e n s (restricted_key_granted key_id generation id) t =
    Accepts (require_event_permission e s)
    × (m : Membership) × (active_membership s id ≡ ok m)
    × (has_active_key_grant s key_id generation id ≡ false)
    × (t ≡ insert_key_grant (new_grant e n key_id generation id) s)
Effect e n s (restricted_key_revoked key_id generation id) t =
    Accepts (require_event_permission e s)
    × (has_active_key_grant s key_id generation id ≡ true)
    × (t ≡ change_key_grant key_id generation id (revoke_grant e.actor_device_id e.created_at n) s)

module _ (e : SignedAccessEvent) (n : ℕ) (s : AccessState) where
  membership_mut-Returns :
      (id : Bytes) (f : Membership → Membership)
      → Returns (λ u t. t ≡ change_membership id f s) (membership_mut id f s)
  unfolding membership_mut
  membership_mut-Returns id f = Returns-reads _ s _ _ λ m found. refl

  create_workspace-Returns :
      (d : DeviceRecord)
      → Returns (λ u t. Effect e n s (workspace_created d) t) (create_workspace e n d s)
  unfolding create_workspace
  create_workspace-Returns d = Returns-reads _ s _ _ λ u pass.
      let facts : (s.revision ≡ 0)
          × (s.memberships ≡ [])
          × (s.devices ≡ [])
          × (e.actor_device_id ≡ d.device_id) =
        ground (arith, pass, bytes_cmp_iff e.actor_device_id d.device_id) in
      unfold ◌>>=◌ in (facts.0, facts.1, facts.2, facts.3, refl)

  join_device-Returns :
      (id : Bytes) (d : DeviceRecord) (role : WorkspaceRole)
      → Returns (λ u t. Effect e n s (device_joined id d role) t) (join_device e n d role s)
  unfolding join_device membership Device.activate
  join_device-Returns id d role = Returns-reads _ s _ _ λ u perm. Returns-reads _ s _ _ λ u fresh.
      let none_yet : get d.device_id s.memberships ≡ none = ground (arith, fresh) in
      Returns-modify_twice ProtocolError _ s (Apply.insert_device_record (Device.activate d))
        (Apply.insert_membership (new_membership e n d.device_id role e.actor_device_id))
        (perm, none_yet, refl)

  change_role-Returns :
      (id : Bytes) (role : WorkspaceRole)
      → Returns (λ u t. Effect e n s (device_role_changed id role) t) (change_role e n id role s)
  unfolding change_role
  change_role-Returns id role = Returns-reads _ s _ _ λ u perm. Returns-reads _ s _ _ λ m found.
      Returns-reads _ s _ _ λ u guard.
        Returns-mono _ _ (membership_mut id (λ w. record w { role = role }) s)
          (λ v t at. (perm, m, found, at))
          (membership_mut-Returns id (λ w. record w { role = role }))

  departure-Returns :
      (id : Bytes)
      → Returns
          (λ u t. t ≡ departed e n s id)
          ((membership_mut id (remove_membership e n)
              >> (modify (Apply.revoke_device id)
                  >> modify (Apply.revoke_all_for_device id e.actor_device_id e.created_at n)))
            s)
  departure-Returns id =
      Returns-bind _ (λ v t. t ≡ change_membership id (remove_membership e n) s) s _ _
        (membership_mut-Returns id (remove_membership e n)) λ v t at. unfold ◌>>=◌ in rw at

  remove_device-Returns :
      (id : Bytes) → Returns (λ u t. Effect e n s (device_removed id) t) (remove_device e n id s)
  unfolding remove_device
  remove_device-Returns id = Returns-reads _ s _ _ λ u perm. Returns-reads _ s _ _ λ m found.
      Returns-reads _ s _ _ λ u guard.
        Returns-mono (λ v t. t ≡ departed e n s id) (λ v t. Effect e n s (device_removed id) t) _
          (λ v t at. (perm, m, found, at)) (departure-Returns id)

  grant_key-Returns :
      (key_id : Bytes) (generation : ℕ) (id : Bytes)
      → Returns
          (λ u t. Effect e n s (restricted_key_granted key_id generation id) t)
          (grant_key e n key_id generation id s)
  unfolding grant_key
  grant_key-Returns key_id generation id = Returns-reads _ s _ _ λ u perm.
      Returns-reads _ s _ _
        λ m found. Returns-reads _ s _ _ λ u absent. (perm, m, found, ground (arith, absent), refl)

  revoke_key-Returns :
      (key_id : Bytes) (generation : ℕ) (id : Bytes)
      → Returns
          (λ u t. Effect e n s (restricted_key_revoked key_id generation id) t)
          (revoke_key e n key_id generation id s)
  unfolding revoke_key has_active_key_grant
  revoke_key-Returns key_id generation id = Returns-reads _ s _ _ λ u perm.
      Returns-reads _ s _ _ λ g found.
        Returns-reads _ s _ _ λ u active_grant. (perm, ground (arith, found, active_grant), refl)

  apply_event-Returns :
      (event : AccessEvent) → Returns (λ u t. Effect e n s event t) (apply_event e n event s)
  unfolding apply_event
  apply_event-Returns (workspace_created d) = create_workspace-Returns d
  apply_event-Returns (device_joined id d role) = join_device-Returns id d role
  apply_event-Returns (device_role_changed id role) = change_role-Returns id role
  apply_event-Returns (device_removed id) = remove_device-Returns id
  apply_event-Returns (restricted_key_granted key_id generation id) =
      grant_key-Returns key_id generation id
  apply_event-Returns (restricted_key_revoked key_id generation id) =
      revoke_key-Returns key_id generation id

-- What an event leaves when it is applied: the effect of its change, committed.
abbrev pub Committed : SignedAccessEvent → AccessState → AccessState → Type 0
Committed e s t =
    (n : ℕ) × (n ≡ s.revision + 1)
    × (u : AccessState) × Effect e n s e.event u
    × (t ≡ commit_event e.event_id n u)

commit-Returns :
    (c : Crypto) (e : SignedAccessEvent) (s : AccessState) (n : ℕ) (u : AccessState)
    → n ≡ s.revision + 1
    → Effect e n s e.event u
    → Returns
        (λ v t. Committed e s t)
        ((modify (commit_event e.event_id n) >> reads (validate c)) u)
unfolding ◌>>=◌
commit-Returns c e s n u later q =
    Returns-read (λ v t. Committed e s t) (validate c (commit_event e.event_id n u)) _
      λ v passed. (n, later, u, q, refl)

pub apply_verified_event-Returns :
    (c : Crypto) (e : SignedAccessEvent) (s : AccessState)
    → Returns (λ u t. Committed e s t) (apply_verified_event c e s)
unfolding apply_verified_event
apply_verified_event-Returns c e s = Returns-reads _ s _ _ λ n next.
    let (valid, here, expected, later, room) = next_revision_iff c e s n next in
    Returns-bind _ (λ v u. Effect e n s e.event u) s _ _ (apply_event-Returns e n s e.event)
      λ v u q. commit-Returns c e s n u later q
