-- ===== src/Protocol/Access/Authority.antt =====
-- Who may change the access state.
use rustsync.Base.{ℕ, true, ◌≡◌, refl, ◌≢◌, Bytes, none, some, ◌⊎◌, inl, inr, arith}
use rustsync.Base.{◌∙◌, ap, bytes_ord, [], Option-cases}
use rustsync.Base.Chain.{>>=-eq-ok}
use rustsync.Base.Exec.{ok, Returns-ok}
use rustsync.Protocol.Device.{Crypto}
use rustsync.Protocol.Access.Role.{WorkspaceRole, WorkspacePermission, owner, member, allows}
use rustsync.Protocol.Access.Event.{SignedAccessEvent, AccessEvent, required_permission}
use rustsync.Protocol.Access.Event.{workspace_created, device_joined, device_role_changed}
use rustsync.Protocol.Access.Event.{device_removed, restricted_key_granted, restricted_key_revoked}
use rustsync.Protocol.Access.State.{AccessState, role, active_membership, require_permission}
use rustsync.Protocol.Access.Apply.{require_event_permission, apply_verified_event}
use rustsync.Protocol.Access.Validity.{Accepts}
use rustsync.Protocol.Access.Effects.{Effect, Committed, apply_verified_event-Returns}

-- A workspace that nobody has created yet
abbrev pub IsFounding : AccessEvent → AccessState → Type 0
IsFounding (workspace_created d) s = (s.revision ≡ 0) × (s.memberships ≡ [])
IsFounding _ s = ⊥

permission-owner :
    (r : WorkspaceRole) (event : AccessEvent) (p : WorkspacePermission)
    → required_permission event ≡ some p
    → allows r p ≡ true
    → r ≡ owner
unfolding required_permission allows
permission-owner owner event p e h = refl
permission-owner member (workspace_created d) p e h = ground arith
permission-owner member _ p e h = ground arith

-- A permission is granted to an active member whose role allows it.
pub require_permission-role :
    (s : AccessState) (id : Bytes) (p : WorkspacePermission)
    → Accepts (require_permission s id p)
    → (r : WorkspaceRole) × (role s id ≡ ok r) × (allows r p ≡ true)
unfolding require_permission role
require_permission-role s id p h =
    let (m, found, rest) = >>=-eq-ok _ _ (active_membership s id) h in
    (m.role, rw found, ground (arith, rest))

permitted-owner :
    (s : AccessState) (e : SignedAccessEvent)
    → required_permission e.event ≢ none
    → Accepts (require_event_permission e s)
    → role s e.actor_device_id ≡ ok owner
unfolding require_event_permission
permitted-owner s e needs h = elim (Option-cases (required_permission e.event)) [
  | inr e0 ↦ absurd (needs e0)
  | inl (p, ep) ↦
      let (r, has, may) =
        require_permission-role s e.actor_device_id p (rw (ep, require_event_permission) at h) in
      has ∙ ap ok (permission-owner r e.event p ep may)
]

Effect-owner :
    (e : SignedAccessEvent) (n : ℕ) (s t : AccessState) (event : AccessEvent)
    → e.event ≡ event
    → Effect e n s event t
    → IsFounding event s ⊎ (role s e.actor_device_id ≡ ok owner)
unfolding required_permission
Effect-owner e n s t (workspace_created d) ev q = inl (q.0, q.1)
Effect-owner e n s t (device_joined id d r) ev q = inr (permitted-owner s e (rw ev (λ x. cc)) q.0)
Effect-owner e n s t (device_role_changed id r) ev q =
    inr (permitted-owner s e (rw ev (λ x. cc)) q.0)
Effect-owner e n s t (device_removed id) ev q = inr (permitted-owner s e (rw ev (λ x. cc)) q.0)
Effect-owner e n s t (restricted_key_granted k g id) ev q =
    inr (permitted-owner s e (rw ev (λ x. cc)) q.0)
Effect-owner e n s t (restricted_key_revoked k g id) ev q =
    inr (permitted-owner s e (rw ev (λ x. cc)) q.0)

-- An event that is applied creates a workspace that has no members and no event yet, or comes from
-- a device that is an active owner before it.
pub apply_verified_event-owner :
    (c : Crypto) (e : SignedAccessEvent) (s t : AccessState)
    → apply_verified_event c e s ≡ (ok tt, t)
    → IsFounding e.event s ⊎ (role s e.actor_device_id ≡ ok owner)
apply_verified_event-owner c e s t h =
    let (n, later, u, q, at) =
      Returns-ok (λ v r. Committed e s r) _ tt t h (apply_verified_event-Returns c e s) in
    Effect-owner e n s u e.event refl q
