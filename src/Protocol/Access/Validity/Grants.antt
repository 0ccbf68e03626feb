-- ===== src/Protocol/Access/Validity/Grants.antt =====
-- `AccessState::validate` and the grant and the revocation of a key.
use rustsync.Base.{ℕ, ◌≡◌, ◌≢◌, arith}
use rustsync.Base.{Bytes, inl, inr, Option-cases, nat_ord, bytes_ord}
use rustsync.Base.{bytes_cmp_iff}
use rustsync.Base.Map.{BTreeMap, Entries, get, Entries-insert}
use rustsync.Base.Map.{Entries-adjust, Entries-get}
use rustsync.Protocol.Device.{Crypto}
use rustsync.Protocol.Access.State.{AccessState, KeyVersion, KeyGrant, key_version_ord}
use rustsync.Protocol.Access.State.{active_owner_count}
use rustsync.Protocol.Access.Validation.{check_version, check_grant, check_device}
use rustsync.Protocol.Access.Validation.{check_membership}
use rustsync.Protocol.Access.Apply.{
  insert_key_grant, change_key_grant, version_of, entry_or_default,
}
use rustsync.Protocol.Access.Apply.{revoke_grant}
use rustsync.Protocol.Access.Validity.{Accepts, IsReady}
use rustsync.Protocol.Access.Validity.Steps.{check_version-of_Entries, check_version-Entries}
use rustsync.Protocol.Access.Validity.Leaving.{check_version-adjust}

check_grant-new :
    (n : ℕ) (g : KeyGrant)
    → n ≢ 0
    → g.granted_at_revision ≡ n
    → Accepts (check_grant n (version_of g) g.device_id g)
unfolding check_grant
check_grant-new n g pos at =
    ground (arith, bytes_cmp_iff g.device_id g.device_id, bytes_cmp_iff g.key_id g.key_id)

-- The grants of a version that the map has, or none
old_grants :
    (n : ℕ) (v : KeyVersion) (all : BTreeMap KeyVersion (BTreeMap Bytes KeyGrant))
    → Entries (λ v g. Accepts (check_version n v g)) all
    → Entries (λ id g. Accepts (check_grant n v id g)) (entry_or_default (get v all))
old_grants n v all a = elim (Option-cases (get v all)) [
  | inl (m, e) ↦ rw e (check_version-Entries n v m (Entries-get _ v all a e))
  | inr e ↦ rw e tt
]

-- A new grant made at the next revision, for a generation that is not 0.
pub insert_key_grant-IsReady :
    (c : Crypto) (n : ℕ) (g : KeyGrant) (s : AccessState)
    → n ≢ 0
    → g.granted_at_revision ≡ n
    → g.generation ≢ 0
    → IsReady c n s
    → IsReady c n (insert_key_grant g s)
unfolding insert_key_grant active_owner_count check_device check_membership
insert_key_grant-IsReady c n g s pos at gen r = record {
  owners = r.owners;
  devices = r.devices;
  memberships = r.memberships;
  grants =
      Entries-insert _ (version_of g) _ s.key_grants
        (check_version-of_Entries n (version_of g) _ gen (
          Entries-insert _ g.device_id g _ (check_grant-new n g pos at)
            (old_grants n (version_of g) s.key_grants r.grants)))
        r.grants;
  nodup = r.nodup;
}

check_grant-revoke :
    (n k at : ℕ) (v : KeyVersion) (id by : Bytes) (g : KeyGrant)
    → Accepts (check_grant n v id g)
    → Accepts (check_grant n v id (revoke_grant by at k g))
unfolding check_grant
check_grant-revoke n k at v id by g a = ground arith

-- A revoked grant keeps its place in the index.
pub revoke_key-IsReady :
    (c : Crypto) (n k at generation : ℕ) (key_id id by : Bytes) (s : AccessState)
    → IsReady c n s
    → IsReady c n (change_key_grant key_id generation id (revoke_grant by at k) s)
unfolding change_key_grant active_owner_count check_device check_membership
revoke_key-IsReady c n k at generation key_id id by s r = record {
  owners = r.owners;
  devices = r.devices;
  memberships = r.memberships;
  grants =
      Entries-adjust _ _ (record { key_id = key_id; generation = generation }) _ s.key_grants
        (λ m.
          check_version-adjust n _ id (revoke_grant by at k) m
            (λ g. check_grant-revoke n k at _ id by g))
        (λ v m ne a. a) r.grants;
  nodup = r.nodup;
}
