-- ===== src/Protocol/Access/Keys.antt =====
-- Active key grants and the members who hold them.
use rustsync.Base.{ℕ, true, ◌≡◌, Bytes, arith}
use rustsync.Base.{bytes_ord, bytes_cmp_iff}
use rustsync.Base.Map.{get, get-insert, get-adjust}
use rustsync.Base.Exec.{ok, Returns-ok}
use rustsync.Protocol.Device
use rustsync.Protocol.Device.{Crypto, DeviceRecord}
use rustsync.Protocol.Access.Event.{SignedAccessEvent, AccessEvent, device_removed}
use rustsync.Protocol.Access.Event.{workspace_created, device_joined, device_role_changed}
use rustsync.Protocol.Access.Event.{restricted_key_granted, restricted_key_revoked}
use rustsync.Protocol.Access.State.{AccessState, is_active_member}
use rustsync.Protocol.Access.State.{active_membership, has_active_key_grant, key_version_ord}
use rustsync.Protocol.Access.Apply.{apply_verified_event, change_membership, remove_membership}
use rustsync.Protocol.Access.Apply.{revoke_device, revoke_all_for_device, commit_event}
use rustsync.Protocol.Access.Apply.{insert_membership, insert_device_record, insert_key_grant}
use rustsync.Protocol.Access.Apply.{
  change_key_grant, new_membership, revoke_if_active, revoke_grant,
}
use rustsync.Protocol.Access.Effects.{Effect, Committed, apply_verified_event-Returns, new_grant}
use rustsync.Protocol.Access.Lookup.{
  version, grants_of-map_values, grants_of-insert, grants_of-adjust,
}

-- Whoever holds an active grant of a key is an active member.
abbrev pub IsBacked : AccessState → Type 0
IsBacked s =
    (key_id : Bytes) (generation : ℕ) (id : Bytes)
    → has_active_key_grant s key_id generation id ≡ true
    → is_active_member s id ≡ true

module _ (e : SignedAccessEvent) (n : ℕ) (s : AccessState) (key_id : Bytes) (generation : ℕ)
    (id : Bytes) where
  abbrev Backed : AccessState → Type 0
  Backed t = has_active_key_grant t key_id generation id ≡ true → is_active_member t id ≡ true

  Backed-Effect :
      (t : AccessState) (event : AccessEvent) → Effect e n s event t → Backed s → Backed t
  unfolding has_active_key_grant is_active_member insert_membership insert_device_record
      change_membership revoke_device revoke_all_for_device insert_key_grant change_key_grant
      Device.activate active_membership get
  Backed-Effect t (workspace_created d) (rev, ms, ds, actor, eq) b =
      rw (eq, ms) (ground (arith, b, ms))
  Backed-Effect t (device_joined j d r) (perm, fresh, eq) b = rw eq (
      ground (
        arith,
        b,
        get-insert id d.device_id (new_membership e n d.device_id r e.actor_device_id)
            s.memberships,
      ))
  Backed-Effect t (device_role_changed j r) (perm, w, found, eq) b =
      rw eq (ground (arith, b, get-adjust id j (λ w. record w { role = r }) s.memberships))
  Backed-Effect t (device_removed j) (perm, w, found, eq) b = rw eq (
      ground (
        arith,
        b,
        get-adjust id j (remove_membership e n) s.memberships,
        grants_of-map_values s.key_grants key_id generation id j
            (revoke_if_active e.actor_device_id e.created_at n),
      ))
  Backed-Effect t (restricted_key_granted k g j) (perm, w, found, absent, eq) b = rw eq (
      ground (
        arith,
        b,
        found,
        bytes_cmp_iff id j,
        grants_of-insert s.key_grants key_id generation id (version k g) j (new_grant e n k g j),
      ))
  Backed-Effect t (restricted_key_revoked k g j) (perm, has, eq) b = rw eq (
      ground (
        arith,
        b,
        grants_of-adjust s.key_grants key_id generation id (version k g) j
            (revoke_grant e.actor_device_id e.created_at n),
      ))

-- If whoever holds an active grant is an active member, that is so after an applied event as well.
pub IsBacked-apply_verified_event :
    (c : Crypto) (e : SignedAccessEvent) (s t : AccessState)
    → apply_verified_event c e s ≡ (ok tt, t)
    → IsBacked s
    → IsBacked t
unfolding commit_event has_active_key_grant is_active_member
IsBacked-apply_verified_event c e s t h b key_id generation id =
    let (n, later, u, q, at) =
      Returns-ok (λ v r. Committed e s r) _ tt t h (apply_verified_event-Returns c e s) in
    rw at (Backed-Effect e n s key_id generation id u e.event q (b key_id generation id))
