-- ===== src/Protocol/Access/Validity/Joining.antt =====
-- `AccessState::validate` and a new workspace, a new member and a changed role.
use rustsync.Base.{ℕ, ◌≡◌, refl, ◌∙◌, sym, subst, ◌≢◌, true, false, not, arith}
use rustsync.Base.{[], Bytes, none, some, ◌==◌, nat_ord, bytes_ord}
use rustsync.Base.{==_refl, bytes_cmp_iff, if◌then◌else◌, ◌&&◌}
use rustsync.Base.Map.{Entries, Entries-mono, get, get-insert}
use rustsync.Base.Map.{contains_key, Entries-insert, Entries-adjust, Entries-mono_off, NodupKeys}
use rustsync.Base.Map.{insert-NodupKeys, adjust-NodupKeys, get-insert_off, contains_key-adjust}
use rustsync.Protocol.Device.{Crypto, DeviceRecord, status_eq}
use rustsync.Protocol.Device
use rustsync.Protocol.Access.Role.{WorkspaceRole, owner, role_eq}
use rustsync.Protocol.Access.Event.{SignedAccessEvent}
use rustsync.Protocol.Access.State.{AccessState, Membership}
use rustsync.Protocol.Access.Validation.{check_device, check_membership, check_version}
use rustsync.Protocol.Access.State.{active}
use rustsync.Protocol.Access.State.{active_owner_count}
use rustsync.Protocol.Access.Apply.{insert_membership, insert_device_record, new_membership}
use rustsync.Protocol.Access.Apply.{change_membership}
use rustsync.Protocol.Access.Validity.{Accepts, IsReady}
use rustsync.Protocol.Access.Validity.Steps.{check_device_mono, check_membership_same}
use rustsync.Protocol.Access.Validity.Owners.{
  count_owners-pos, count_owners-insert, count_owners-adjust,
}

-- A device and a member, both new under the device's identifier.
abbrev pub enrolled :
    SignedAccessEvent → ℕ → AccessState → DeviceRecord → WorkspaceRole → Bytes → AccessState
enrolled e n s d role by =
    insert_membership (new_membership e n d.device_id role by) (insert_device_record d s)

module _ (c : Crypto) (n : ℕ) (e : SignedAccessEvent) (s : AccessState) where
  module _ (d : DeviceRecord) (role : WorkspaceRole) (by : Bytes) where
    enrolled-get :
        (j : Bytes)
        → get j (enrolled e n s d role by).devices
          ≡ (if j == d.device_id then some d else get j s.devices)
    unfolding insert_membership insert_device_record
    enrolled-get j = get-insert j d.device_id d s.devices

    enrolled-contains :
        (j : Bytes)
        → contains_key j s.memberships ≡ true
        → contains_key j (enrolled e n s d role by).memberships ≡ true
    unfolding insert_membership insert_device_record
    enrolled-contains j h =
        ground
          (arith, get-insert j d.device_id (new_membership e n d.device_id role by) s.memberships)

    enrolled-check_device :
        Accepts (Device.validate c d)
        → Accepts (check_device c (enrolled e n s d role by) d.device_id d)
    unfolding check_device insert_membership insert_device_record
    enrolled-check_device v = ground (
      arith,
      v,
      bytes_cmp_iff d.device_id d.device_id,
      get-insert d.device_id d.device_id (new_membership e n d.device_id role by) s.memberships,
    )

    enrolled-check_membership :
        n ≢ 0
        → d.status ≡ Device.active
        → Accepts (
            check_membership
              (record (enrolled e n s d role by) { revision = n })
              d.device_id
              (new_membership e n d.device_id role by))
    unfolding check_membership insert_membership insert_device_record
    enrolled-check_membership pos act = ground (
      arith,
      bytes_cmp_iff d.device_id d.device_id,
      get-insert d.device_id d.device_id d s.devices,
    )

    -- With the old entries in order, and an owner, the state is ready.
    enrolled-parts :
        n ≢ 0
        → Accepts (Device.validate c d)
        → d.status ≡ Device.active
        → get d.device_id s.memberships ≡ none
        → active_owner_count (enrolled e n s d role by) ≢ 0
        → Entries (λ id w. Accepts (check_device c s id w)) s.devices
        → Entries
            (λ id m. Accepts (check_membership (record s { revision = n }) id m))
            s.memberships
        → Entries (λ v g. Accepts (check_version n v g)) s.key_grants
        → NodupKeys s.memberships
        → IsReady c n (enrolled e n s d role by)
    unfolding insert_membership insert_device_record
    enrolled-parts pos v act fresh own ds ms gs u = record {
      owners = own;
      devices = Entries-insert _ d.device_id d s.devices (enrolled-check_device v) (
          Entries-mono _ _ s.devices
            (λ j w. check_device_mono c s (enrolled e n s d role by) j w (enrolled-contains j)) ds);
      memberships =
          Entries-insert _ d.device_id _ s.memberships (enrolled-check_membership pos act) (
            Entries-mono_off _ _ d.device_id s.memberships fresh
              (λ j w ne.
                check_membership_same (record s { revision = n })
                  (record (enrolled e n s d role by) { revision = n }) j w refl
                  (get-insert_off j d.device_id d s.devices ne))
              ms);
      grants = gs;
      nodup = insert-NodupKeys d.device_id _ s.memberships fresh u;
    }

    -- A new device and its membership keep a state ready.
    pub enrolled-IsReady :
        n ≢ 0
        → Accepts (Device.validate c d)
        → d.status ≡ Device.active
        → get d.device_id s.memberships ≡ none
        → IsReady c n s
        → IsReady c n (enrolled e n s d role by)
    unfolding insert_membership insert_device_record active_owner_count
    enrolled-IsReady pos v act fresh r =
        enrolled-parts pos v act fresh
          (omega (
            arith,
            r.owners,
            count_owners-insert d.device_id (new_membership e n d.device_id role by) s.memberships
                fresh,
          ))
          r.devices r.memberships r.grants r.nodup

  -- The first owner makes an empty state ready.
  pub founded-IsReady :
      (d : DeviceRecord) (by : Bytes)
      → n ≢ 0
      → Accepts (Device.validate c d)
      → d.status ≡ Device.active
      → s.devices ≡ []
      → s.memberships ≡ []
      → s.key_grants ≡ []
      → IsReady c n (enrolled e n s d owner by)
  unfolding insert_membership insert_device_record active_owner_count get
  founded-IsReady d by pos v act ds ms gs =
      enrolled-parts d owner by pos v act (rw (ms, get))
        (count_owners-pos d.device_id _ (new_membership e n d.device_id owner by)
          (get-insert d.device_id d.device_id _ s.memberships ∙ rw ==_refl) refl)
        (subst (Entries _) (sym ds) tt) (subst (Entries _) (sym ms) tt)
        (subst (Entries _) (sym gs) tt) (subst NodupKeys (sym ms) tt)

-- The role of a member is not checked.
check_membership-role :
    (s t : AccessState) (id : Bytes) (w : Membership) (role : WorkspaceRole)
    → s.revision ≡ t.revision
    → s.devices ≡ t.devices
    → Accepts (check_membership s id w)
    → Accepts (check_membership t id (record w { role = role }))
unfolding check_membership
check_membership-role s t id w role e d a = ground (arith, e, d)

-- A changed role keeps a state ready that has an owner left.
pub change_role-IsReady :
    (c : Crypto) (n : ℕ) (s : AccessState) (id : Bytes) (m : Membership) (role : WorkspaceRole)
    → get id s.memberships ≡ some m
    → m.status ≡ active
    → (not (role_eq role owner) && role_eq m.role owner && active_owner_count s == 1) ≡ false
    → IsReady c n s
    → IsReady c n (change_membership id (λ w. record w { role = role }) s)
unfolding change_membership active_owner_count
change_role-IsReady c n s id m role found act guard r = record {
  owners = ground (
    arith,
    guard,
    r.owners,
    count_owners-adjust id (λ w. record w { role = role }) s.memberships m r.nodup found,
  );
  devices =
      Entries-mono _ _ s.devices
        (λ j w.
          check_device_mono c s (change_membership id (λ w. record w { role = role }) s) j w
            (λ h. contains_key-adjust j id _ s.memberships ∙ h))
        r.devices;
  memberships =
      Entries-adjust _ _ id _ s.memberships
        (λ w.
          check_membership-role (record s { revision = n })
            (record (change_membership id (λ w. record w { role = role }) s) { revision = n }) id w
            role refl refl)
        (λ j w ne.
          check_membership_same (record s { revision = n })
            (record (change_membership id (λ w. record w { role = role }) s) { revision = n }) j w
            refl refl)
        r.memberships;
  grants = r.grants;
  nodup = adjust-NodupKeys id _ s.memberships r.nodup;
}
