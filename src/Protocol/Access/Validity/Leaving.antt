-- ===== src/Protocol/Access/Validity/Leaving.antt =====
-- `AccessState::validate` and the removal of a member.
use rustsync.Base.{ℕ, ◌≡◌, refl, ◌∙◌, false, arith}
use rustsync.Base.{Bytes, some, ◌==◌, nat_ord, bytes_ord}
use rustsync.Base.{bytes_cmp_iff, ◌&&◌}
use rustsync.Base.Map.{BTreeMap, get, adjust, get-adjust}
use rustsync.Base.Map.{contains_key, Entries-adjust, Entries-map_values, contains_key-adjust}
use rustsync.Base.Map.{adjust-NodupKeys, get-adjust_off}
use rustsync.Protocol.Device.{Crypto, DeviceRecord, status_eq, revoke}
use rustsync.Protocol.Device
use rustsync.Protocol.Access.Role.{owner, role_eq}
use rustsync.Protocol.Access.Event.{SignedAccessEvent}
use rustsync.Protocol.Access.State.{AccessState, Membership, KeyVersion, KeyGrant}
use rustsync.Protocol.Access.Validation.{check_device, check_membership, check_version, check_grant}
use rustsync.Protocol.Access.State.{active, active_owner_count, key_version_ord}
use rustsync.Protocol.Access.Apply.{change_membership, remove_membership, revoke_device}
use rustsync.Protocol.Access.Apply.{revoke_all_for_device, revoke_if_active}
use rustsync.Protocol.Access.Validity.{Accepts, IsReady}
use rustsync.Protocol.Access.Validity.Steps.{check_device_mono, check_membership_same}
use rustsync.Protocol.Access.Validity.Steps.{
  check_version-of_Entries, check_version-Entries, check_version-generation,
}
use rustsync.Protocol.Access.Validity.Owners.{count_owners-adjust}

check_grant-revoke :
    (n k at : ℕ) (v : KeyVersion) (id by : Bytes) (g : KeyGrant)
    → Accepts (check_grant n v id g)
    → Accepts (check_grant n v id (revoke_if_active by at k g))
unfolding check_grant
check_grant-revoke n k at v id by g a = ground arith

-- A change of one grant that its check does not notice
pub check_version-adjust :
    (n : ℕ) (v : KeyVersion) (id : Bytes) (f : KeyGrant → KeyGrant) (m : BTreeMap Bytes KeyGrant)
    → ((g : KeyGrant) → Accepts (check_grant n v id g) → Accepts (check_grant n v id (f g)))
    → Accepts (check_version n v m)
    → Accepts (check_version n v (adjust id f m))
check_version-adjust n v id f m h a =
    check_version-of_Entries n v _ (check_version-generation n v m a)
      (Entries-adjust _ _ id f m h (λ j g ne p. p) (check_version-Entries n v m a))

check_device-revoke :
    (c : Crypto) (s t : AccessState) (id : Bytes) (d : DeviceRecord)
    → contains_key id t.memberships ≡ contains_key id s.memberships
    → Accepts (check_device c s id d)
    → Accepts (check_device c t id (revoke d))
unfolding check_device revoke Device.validate
check_device-revoke c s t id d e a = ground (arith, e)

module _ (e : SignedAccessEvent) (n : ℕ) (s : AccessState) (id : Bytes) where
  abbrev pub departed : AccessState
  departed =
      revoke_all_for_device id e.actor_device_id e.created_at n
        (revoke_device id (change_membership id (remove_membership e n) s))

  check_membership-remove :
      (w : Membership)
      → Accepts (check_membership (record s { revision = n }) id w)
      → Accepts (check_membership (record departed { revision = n }) id (remove_membership e n w))
  unfolding check_membership change_membership revoke_all_for_device revoke_device revoke
  check_membership-remove w a =
      ground (arith, get-adjust id id revoke s.devices, bytes_cmp_iff id id)

  -- Of two owners one may leave, and any member that is no owner.
  pub departed-IsReady :
      (c : Crypto) (m : Membership)
      → get id s.memberships ≡ some m
      → m.status ≡ active
      → (role_eq m.role owner && active_owner_count s == 1) ≡ false
      → IsReady c n s
      → IsReady c n departed
  unfolding change_membership revoke_all_for_device revoke_device active_owner_count
  departed-IsReady c m found act guard r = record {
    owners = ground (
      arith,
      guard,
      r.owners,
      count_owners-adjust id (remove_membership e n) s.memberships m r.nodup found,
    );
    devices =
        Entries-adjust _ _ id revoke s.devices
          (λ d.
            check_device-revoke c s departed id d
              (contains_key-adjust id id (remove_membership e n) s.memberships))
          (λ j d ne.
            check_device_mono c s departed j d
              (λ h. contains_key-adjust j id (remove_membership e n) s.memberships ∙ h))
          r.devices;
    memberships =
        Entries-adjust _ _ id (remove_membership e n) s.memberships check_membership-remove
          (λ j w ne.
            check_membership_same (record s { revision = n }) (record departed { revision = n }) j w
              refl (get-adjust_off j id revoke s.devices ne))
          r.memberships;
    grants =
        Entries-map_values _ _ _ s.key_grants
          (λ v g.
            check_version-adjust n v id (revoke_if_active e.actor_device_id e.created_at n) g
              (λ w. check_grant-revoke n n e.created_at v id e.actor_device_id w))
          r.grants;
    nodup = adjust-NodupKeys id (remove_membership e n) s.memberships r.nodup;
  }
