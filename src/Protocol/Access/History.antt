-- ===== src/Protocol/Access/History.antt =====
-- The states that a workspace can reach from nothing, by events that are applied or refused.
use rustsync.Base.{
  ℕ, zero, suc, ◌+◌, ◌≤◌, ◌≡◌, refl, sym, subst, ◌∙◌, ap, ◌≢◌, Bytes, Option, none, some, arith,
}
use rustsync.Base.{[], bytes_ord, ==_refl, bytes_cmp_iff, Bool, true, false, nat_ord, ◌==◌}
use rustsync.Base.Exec.{
  ok, err, Returns-ok, Returns-reads, Returns-known, Settles-ok, Settles-state,
}
use rustsync.Base.Exec.{◌>>=◌}
use rustsync.Protocol.Error.{ProtocolError, invalid_state, expected_revision_differs}
use rustsync.Protocol.Device.{Crypto}
use rustsync.Protocol.Access.Event
use rustsync.Protocol.Access.Event.{SignedAccessEvent}
use rustsync.Protocol.Access.State.{AccessState, empty, active_owner_count}
use rustsync.Protocol.Access.Validation.{validate}
use rustsync.Protocol.Access.State.{has_active_key_grant}
use rustsync.Protocol.Access.Apply.{apply_verified_event, next_revision}
use rustsync.Protocol.Access.Validity.{IsWellFormed, IsReady-of_IsWellFormed, Accepts}
use rustsync.Protocol.Access.Atomicity.{Applied, apply_verified_event-Settles, next_revision_iff}
use rustsync.Protocol.Access.Keys.{IsBacked, IsBacked-apply_verified_event}

empty-IsWellFormed : (c : Crypto) (workspace_id : Bytes) → IsWellFormed c (empty workspace_id)
unfolding validate
empty-IsWellFormed c workspace_id = record { valid = refl; no_grants = λ e. refl; nodup = tt }

-- A state of the workspace after some attempts to apply events
pub data Reach (c : Crypto) (workspace_id : Bytes) : AccessState → Type 0 where
  start : Reach c workspace_id (empty workspace_id)
  attempt :
      {s : AccessState}
      → Reach c workspace_id s
      → (e : SignedAccessEvent) → Reach c workspace_id (apply_verified_event c e s).1

-- What holds of every state that can be reached.
pub record IsSound (c : Crypto) (s : AccessState) : Type 0 where
  pub well_formed : IsWellFormed c s
  pub owned : s.revision ≢ 0 → active_owner_count s ≢ 0
  pub backed : IsBacked s

pub IsSound-of : (c : Crypto) (s : AccessState) → IsWellFormed c s → IsBacked s → IsSound c s
IsSound-of c s w b = record {
  well_formed = w;
  owned = λ h. (IsReady-of_IsWellFormed c s w h).owners;
  backed = b;
}

empty-IsBacked : (workspace_id : Bytes) → IsBacked (empty workspace_id)
unfolding has_active_key_grant rustsync.Base.Map.get
empty-IsBacked workspace_id key_id generation id h = cc

-- However events are sent to a new workspace, its state passes `validate`, has an active owner once
-- an event was applied, and every active key grant belongs to an active member.
pub Reach-IsSound :
    (c : Crypto) (workspace_id : Bytes) (s : AccessState) → Reach c workspace_id s → IsSound c s
Reach-IsSound c workspace_id _ start =
    IsSound-of c (empty workspace_id) (empty-IsWellFormed c workspace_id)
      (empty-IsBacked workspace_id)
Reach-IsSound c workspace_id _ (attempt {s = s} r e) =
    let before = Reach-IsSound c workspace_id s r in
    Settles-state (λ u t. Applied c e s t) (IsSound c) s (apply_verified_event c e s)
      (λ u t h applied.
        IsSound-of c t applied.0 (IsBacked-apply_verified_event c e s t h before.backed))
      before (apply_verified_event-Settles c e s before.well_formed)

-- The checks that an applied event has passed
pub apply_verified_event-next_revision :
    (c : Crypto) (e : SignedAccessEvent) (s t : AccessState)
    → apply_verified_event c e s ≡ (ok tt, t)
    → (n : ℕ) × (next_revision c e s ≡ ok n)
unfolding apply_verified_event
apply_verified_event-next_revision c e s t h =
    Returns-ok (λ u r. (n : ℕ) × (next_revision c e s ≡ ok n)) _ tt t h
      (Returns-reads _ s _ _ λ n next.
        let known : (n : ℕ) × (next_revision c e s ≡ ok n) = (n, next) in Returns-known _ known)

stale_next_revision :
    (c : Crypto) (e : SignedAccessEvent) (s : AccessState)
    → Accepts (Event.validate c e)
    → s.workspace_id ≡ e.workspace_id
    → s.revision ≢ e.expected_revision
    → next_revision c e s ≡ err (invalid_state expected_revision_differs)
unfolding next_revision
stale_next_revision c e s v w d =
    ground (arith, v, w, d, bytes_cmp_iff s.workspace_id e.workspace_id)

refused_next_revision :
    (c : Crypto) (e : SignedAccessEvent) (s : AccessState) (why : ProtocolError)
    → next_revision c e s ≡ err why
    → apply_verified_event c e s ≡ (err why, s)
unfolding apply_verified_event ◌>>=◌
refused_next_revision c e s why h = rw h

-- An event is applied once: from a well-formed state, an event that was applied and is sent again
-- to the state that it left is refused for its expected revision, and the state stays as it is.
pub apply_verified_event_again :
    (c : Crypto) (e : SignedAccessEvent) (s t : AccessState)
    → IsWellFormed c s
    → apply_verified_event c e s ≡ (ok tt, t)
    → apply_verified_event c e t ≡ (err (invalid_state expected_revision_differs), t)
apply_verified_event_again c e s t w h =
    let (n, next) = apply_verified_event-next_revision c e s t h in
    let (valid, here, expected, later, room) = next_revision_iff c e s n next in
    let (wt, rev, same, last) =
      Settles-ok (λ u r. Applied c e s r) s _ tt t h (apply_verified_event-Settles c e s w) in
    refused_next_revision c e t _ (stale_next_revision c e t valid (same ∙ here) (omega arith))
