-- ===== src/Protocol/Access/Validity.antt =====
-- When a state passes `AccessState::validate`, and when it will after the next commit.
pub mod Steps
pub mod Owners
pub mod Joining
pub mod Leaving
pub mod Grants
use rustsync.Base.{ℕ, zero, suc, ◌+◌, ◌≤◌, ◌<◌, ◌≡◌, refl, ap, ◌≢◌, ◌↔◌, Bool, true, false, arith}
use rustsync.Base.{
  [], ◌∷◌, List, Bytes, Option, none, some, inl, inr, Bool-cases, ◌==◌, nat_ord, bytes_ord,
}
use rustsync.Base.Map.{BTreeMap, Entries, Entries-mono, NodupKeys}
use rustsync.Base.Exec.{Result, ok, err}
use rustsync.Protocol.Error.{ProtocolResult}
use rustsync.Protocol.Device.{Crypto, DeviceRecord}
use rustsync.Protocol.Access.State.{AccessState, Membership, KeyVersion, KeyGrant}
use rustsync.Protocol.Access.Validation.{for_each, validate}
use rustsync.Protocol.Access.Validation.{check_device, check_membership, check_version, check_grant}
use rustsync.Protocol.Access.State.{active_owner_count}
use rustsync.Protocol.Access.Apply.{commit_event}

abbrev pub Accepts : ProtocolResult (Unit {0}) → Type 0
Accepts r = r ≡ ok tt

pub for_each_iff :
    {K V : Type 0} (body : K → V → ProtocolResult (Unit {0})) (m : BTreeMap K V)
    → Accepts (for_each body m) ↔ Entries (λ k v. Accepts (body k v)) m
unfolding for_each
for_each_iff body [] = (λ h. tt, λ h. refl)
for_each_iff body ((k, v) ∷ m) =
    (λ h. ground (arith, for_each_iff body m), λ h. ground (arith, for_each_iff body m))

-- All that `validate` asks of a state whose revision is, or will be, `n` and not 0, and that no
-- device has two memberships.
pub record IsReady (c : Crypto) (n : ℕ) (s : AccessState) : Type 0 where
  pub owners : active_owner_count s ≢ 0
  pub devices : Entries (λ id d. Accepts (check_device c s id d)) s.devices
  pub memberships :
      Entries (λ id m. Accepts (check_membership (record s { revision = n }) id m)) s.memberships
  pub grants : Entries (λ v g. Accepts (check_version n v g)) s.key_grants
  pub nodup : NodupKeys s.memberships

-- What `validate` checks, and what it leaves unchecked: that no device has two memberships, and
-- that a state without events has no grants.
pub record IsWellFormed (c : Crypto) (s : AccessState) : Type 0 where
  pub valid : Accepts (validate c s)
  pub no_grants : s.revision ≡ 0 → s.key_grants ≡ []
  pub nodup : NodupKeys s.memberships

pub IsReady-of_IsWellFormed :
    (c : Crypto) (s : AccessState) → IsWellFormed c s → s.revision ≢ 0 → IsReady c s.revision s
unfolding validate
IsReady-of_IsWellFormed c s w h =
    let d = for_each_iff (check_device c s) s.devices in
    let m = for_each_iff (check_membership s) s.memberships in
    let g = for_each_iff (check_version s.revision) s.key_grants in
    let facts : (active_owner_count s ≢ 0)
        × Accepts (for_each (check_device c s) s.devices)
        × Accepts (for_each (check_membership s) s.memberships)
        × Accepts (for_each (check_version s.revision) s.key_grants) =
      ground (arith, w.valid) in
    record {
      owners = facts.0;
      devices = d.0 facts.1;
      memberships = m.0 facts.2;
      grants = g.0 facts.3;
      nodup = w.nodup;
    }

pub commit_event-IsWellFormed :
    (c : Crypto) (n : ℕ) (id : Bytes) (s : AccessState)
    → n ≢ 0
    → IsReady c n s
    → IsWellFormed c (commit_event id n s)
unfolding validate commit_event
commit_event-IsWellFormed c n id s pos r = record {
  valid = ground (
    arith,
    pos,
    r.owners,
    (for_each_iff (check_device c s) s.devices).1 r.devices,
    (for_each_iff (check_membership (record s { revision = n })) s.memberships).1 r.memberships,
    (for_each_iff (check_version n) s.key_grants).1 r.grants,
  );
  no_grants = λ e. absurd (pos e);
  nodup = r.nodup;
}
