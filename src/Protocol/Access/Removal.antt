-- ===== src/Protocol/Access/Removal.antt =====
-- Removed devices, in the states that `AccessState::apply_verified_event` leaves.
use rustsync.Base.{ℕ, false, ◌≡◌, refl, sym, subst, ◌∙◌, Bytes, some, arith}
use rustsync.Base.{◌==◌, bytes_ord, bytes_cmp_iff, if◌then◌else◌}
use rustsync.Base.Map.{get, get-insert, get-adjust}
use rustsync.Base.Exec.{ok, Returns-ok}
use rustsync.Protocol.Device
use rustsync.Protocol.Device.{Crypto, DeviceRecord}
use rustsync.Protocol.Access.Event.{SignedAccessEvent, AccessEvent, device_removed}
use rustsync.Protocol.Access.Event.{workspace_created, device_joined, device_role_changed}
use rustsync.Protocol.Access.Event.{restricted_key_granted, restricted_key_revoked}
use rustsync.Protocol.Access.State.{AccessState, Membership, is_active_member}
use rustsync.Protocol.Access.State.{active_membership, has_active_key_grant, key_version_ord}
use rustsync.Protocol.Access.State.{removed}
use rustsync.Protocol.Access.Apply.{apply_verified_event, change_membership, remove_membership}
use rustsync.Protocol.Access.Apply.{revoke_device, revoke_all_for_device, commit_event}
use rustsync.Protocol.Access.Apply.{insert_membership, insert_device_record, insert_key_grant}
use rustsync.Protocol.Access.Apply.{change_key_grant, revoke_if_active}
use rustsync.Protocol.Access.Validity.Leaving.{departed}
use mathlib.Core.Option.{some-ne-none}
use rustsync.Protocol.Access.Lookup.{grants_of-map_values}
use rustsync.Protocol.Access.Effects.{Effect, Committed, apply_verified_event-Returns}

-- The device was a member and has been removed.
abbrev pub IsGone : AccessState → Bytes → Type 0
IsGone s id = (m : Membership) × (get id s.memberships ≡ some m) × (m.status ≡ removed)

pub IsGone-is_active_member :
    (s : AccessState) (id : Bytes) → IsGone s id → is_active_member s id ≡ false
unfolding is_active_member
IsGone-is_active_member s id (m, at, gone) = ground (arith, at, gone)

IsGone-Effect :
    (e : SignedAccessEvent) (n : ℕ) (s t : AccessState) (event : AccessEvent) (id : Bytes)
    → Effect e n s event t
    → IsGone s id
    → IsGone t id
unfolding insert_membership insert_device_record change_membership revoke_device
    revoke_all_for_device insert_key_grant change_key_grant Device.activate get
IsGone-Effect e n s t (workspace_created d) id q (m, at, gone) =
    absurd (some-ne-none m (sym at ∙ rw q.1))
IsGone-Effect e n s t (device_joined j d r) id (perm, fresh, eq) (m, at, gone) = (
  m,
  rw eq (get-insert id _ _ s.memberships ∙ ground (arith, at, fresh, bytes_cmp_iff id d.device_id)),
  gone,
)
IsGone-Effect e n s t (device_role_changed j r) id (perm, w, found, eq) (m, at, gone) = (
  (if id == j then record m { role = r } else m),
  rw eq (get-adjust id j _ s.memberships ∙ ground (arith, at)),
  ground (arith, gone),
)
IsGone-Effect e n s t (device_removed j) id (perm, w, found, eq) (m, at, gone) = (
  (if id == j then remove_membership e n m else m),
  rw eq (get-adjust id j _ s.memberships ∙ ground (arith, at)),
  ground (arith, gone),
)
IsGone-Effect e n s t (restricted_key_granted k g j) id (perm, w, found, none_yet, eq)
      (m, at, gone) =
    (m, rw eq at, gone)
IsGone-Effect e n s t (restricted_key_revoked k g j) id (perm, has, eq) (m, at, gone) =
    (m, rw eq at, gone)

-- No applied event makes a removed device a member again.
pub IsGone-apply_verified_event :
    (c : Crypto) (e : SignedAccessEvent) (s t : AccessState) (id : Bytes)
    → apply_verified_event c e s ≡ (ok tt, t)
    → IsGone s id
    → IsGone t id
unfolding commit_event
IsGone-apply_verified_event c e s t id h gone =
    let (n, later, u, q, at) =
      Returns-ok (λ v r. Committed e s r) _ tt t h (apply_verified_event-Returns c e s) in
    rw at (IsGone-Effect e n s u e.event id q gone)

departed-IsGone :
    (e : SignedAccessEvent) (n : ℕ) (s : AccessState) (id : Bytes) (m : Membership)
    → active_membership s id ≡ ok m
    → IsGone (departed e n s id) id
unfolding active_membership revoke_device revoke_all_for_device change_membership
departed-IsGone e n s id m found = (
  remove_membership e n m,
  get-adjust id id _ s.memberships ∙ ground (arith, found, bytes_cmp_iff id id),
  refl,
)

departed-has_active_key_grant :
    (e : SignedAccessEvent) (n : ℕ) (s : AccessState) (id key_id : Bytes) (generation : ℕ)
    → has_active_key_grant (departed e n s id) key_id generation id ≡ false
unfolding has_active_key_grant revoke_device revoke_all_for_device change_membership
departed-has_active_key_grant e n s id key_id generation = ground (
  arith,
  bytes_cmp_iff id id,
  grants_of-map_values s.key_grants key_id generation id id
      (revoke_if_active e.actor_device_id e.created_at n),
)

departed-device :
    (e : SignedAccessEvent) (n : ℕ) (s : AccessState) (id : Bytes) (d : DeviceRecord)
    → get id (departed e n s id).devices ≡ some d
    → d.status ≡ Device.revoked
unfolding revoke_device revoke_all_for_device change_membership Device.revoke
departed-device e n s id d h =
    ground (arith, h, bytes_cmp_iff id id, get-adjust id id Device.revoke s.devices)

-- An applied removal: the device is a removed member, it holds no active grant of any key, and its
-- device record, if there is one, is revoked.
pub removal :
    (c : Crypto) (e : SignedAccessEvent) (s t : AccessState) (id : Bytes)
    → e.event ≡ device_removed id
    → apply_verified_event c e s ≡ (ok tt, t)
    → IsGone t id
      × ((key_id : Bytes) (generation : ℕ) → has_active_key_grant t key_id generation id ≡ false)
      × ((d : DeviceRecord) → get id t.devices ≡ some d → d.status ≡ Device.revoked)
unfolding commit_event has_active_key_grant
removal c e s t id ev h =
    let (n, later, u, q, at) =
      Returns-ok (λ v r. Committed e s r) _ tt t h (apply_verified_event-Returns c e s) in
    let effect : Effect e n s (device_removed id) u = subst (λ a. Effect e n s a u) ev q in
    let (perm, m, found, eq) = effect in
    (
      rw (at, eq) (departed-IsGone e n s id m found),
      λ key_id generation. rw (at, eq) (departed-has_active_key_grant e n s id key_id generation),
      λ d there. departed-device e n s id d (rw (at, eq) at there),
    )
