-- ===== src/Protocol/Access/Atomicity.antt =====
-- `AccessState::apply_verified_event` as a whole: what it leaves when it succeeds and when it fails.
use rustsync.Base.{ℕ, ◌+◌, ◌<◌, ◌≡◌, refl, arith}
use rustsync.Base.{some, nat_ord, bytes_ord}
use rustsync.Base.{bytes_cmp_iff, u64_mod}
use rustsync.Base.Exec.{ok, reads, modify, ◌>>=◌, ◌>>◌, Settles, Settles-reads, Settles-bind}
use rustsync.Protocol.Device.{Crypto}
use rustsync.Protocol.Access.Event
use rustsync.Protocol.Access.Event.{SignedAccessEvent, AccessEvent, required_permission}
use rustsync.Protocol.Access.Event.{workspace_created, device_joined, device_role_changed}
use rustsync.Protocol.Access.Event.{device_removed, restricted_key_granted, restricted_key_revoked}
use rustsync.Protocol.Access.State.{AccessState}
use rustsync.Protocol.Access.Validation.{validate}
use rustsync.Protocol.Access.Apply.{apply_verified_event}
use rustsync.Protocol.Access.Apply.{next_revision, commit_event}
use rustsync.Protocol.Access.Validity.{Accepts, IsWellFormed, commit_event-IsWellFormed}
use rustsync.Protocol.Access.Changes.{Next, apply_event-Settles}

validate-event :
    (c : Crypto) (e : SignedAccessEvent)
    → Accepts (Event.validate c e)
    → Accepts (Event.validate_event c e.event)
unfolding Event.validate
validate-event c e h = ground arith

-- The checks before the match: a valid event for this workspace and this revision, and room for
-- one more revision.
pub next_revision_iff :
    (c : Crypto) (e : SignedAccessEvent) (s : AccessState) (n : ℕ)
    → next_revision c e s ≡ ok n
    → Accepts (Event.validate c e)
      × (s.workspace_id ≡ e.workspace_id)
      × (s.revision ≡ e.expected_revision)
      × (n ≡ s.revision + 1)
      × (n < u64_mod)
unfolding next_revision
next_revision_iff c e s n h = ground (arith, bytes_cmp_iff s.workspace_id e.workspace_id)

-- What an applied event leaves: a well-formed state of the same workspace, one revision later.
abbrev pub Applied : Crypto → SignedAccessEvent → AccessState → AccessState → Type 0
Applied c e s t =
    IsWellFormed c t
    × (t.revision ≡ s.revision + 1)
    × (t.workspace_id ≡ s.workspace_id)
    × (t.last_event_id ≡ some e.event_id)

module _ (c : Crypto) (e : SignedAccessEvent) (s : AccessState) where
  commit-Settles :
      (n : ℕ) (t : AccessState)
      → n ≡ s.revision + 1
      → Next c s e n tt t
      → Settles
          (λ u r. Applied c e s r)
          s
          ((modify (commit_event e.event_id n) >> reads (validate c)) t)
  unfolding ◌>>=◌ commit_event
  commit-Settles n t at (ready, rev, same) =
      let w = commit_event-IsWellFormed c n e.event_id t (omega arith) ready in
      rw w.valid (w, at, same, refl)

  -- From a well-formed state an event either is applied, and the state is well-formed, one
  -- revision later and marked by the event, or is refused, and the state is as it was.
  pub apply_verified_event-Settles :
      IsWellFormed c s → Settles (λ u t. Applied c e s t) s (apply_verified_event c e s)
  unfolding apply_verified_event
  apply_verified_event-Settles w = Settles-reads _ s _ _ λ n next.
      let (valid, here, expected, later, room) = next_revision_iff c e s n next in
      Settles-bind (Next c s e n) _ s _ _
        (apply_event-Settles c s e n w (omega arith) e.event refl (validate-event c e valid))
        λ u t q. commit-Settles n t later q
