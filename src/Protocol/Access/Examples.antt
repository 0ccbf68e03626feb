-- ===== src/Protocol/Access/Examples.antt =====
-- A workspace of two devices, and runs of the access log on it.
use rustsync.Base.{
  ℕ, true, false, ◌≡◌, refl, ◌⊎◌, bytes_ord, Bytes, bytes, [], length, ◌==◌, nat_ord,
}
use rustsync.Base.{some, arith}
use rustsync.Base.{bytes_cmp}
use rustsync.Base.Map.{get, insert, adjust}
use rustsync.Base.Exec.{ok, err, ◌>>=◌, Settles}
use rustsync.Protocol.Error.{cannot_remove_last_owner, invalid_state, expected_revision_differs}
use rustsync.Protocol.Encoding.{to_be_bytes}
use rustsync.Protocol.Device
use rustsync.Protocol.Device.{Crypto, DeviceRecord}
use rustsync.Protocol.Access.Role.{owner, member, allows}
use rustsync.Protocol.Access.Event
use rustsync.Protocol.Access.Validation
use rustsync.Protocol.Access.Event.{
  SignedAccessEvent, AccessEvent, workspace_created, device_joined,
}
use rustsync.Protocol.Access.Event.{
  device_removed, restricted_key_granted, signing_payload, required_permission,
}
use rustsync.Protocol.Access.State.{
  AccessState, empty, has_active_key_grant, role, require_permission,
}
use rustsync.Protocol.Access.Apply.{apply_verified_event}
use rustsync.Protocol.Access.Validity.{IsWellFormed}
use rustsync.Protocol.Access.Atomicity.{Applied, apply_verified_event-Settles}
use rustsync.Protocol.Access.History.{
  Reach, start, attempt, IsSound, Reach-IsSound, apply_verified_event_again,
}
use rustsync.Protocol.Access.Authority.{apply_verified_event-owner, IsFounding}
use rustsync.Protocol.Access.Removal.{IsGone, removal, IsGone-apply_verified_event}
use rustsync.Protocol.Access.Keys.{IsBacked, IsBacked-apply_verified_event}
use rustsync.Protocol.Access.Payload.{signing_payload_inj, IsEncodable}

abbrev pub toy : Crypto
toy = record {
  sha256 = λ text. text;
  base64_url = λ text. text;
  base64_url_decode = λ text. some text;
  is_verifying_key = λ key. length key == 1;
  is_signature = λ signature. length signature == 2;
  verify = λ key message signature. true;
}

abbrev pub laptop : DeviceRecord
laptop = record {
  device_id = bytes "device_laptop";
  device_name = bytes "Laptop";
  signing_public_key = bytes "k";
  exchange_public_key = bytes "x";
  fingerprint = bytes "KX";
  status = Device.active;
}

abbrev pub phone : DeviceRecord
phone = record {
  device_id = bytes "device_phone";
  device_name = bytes "Phone";
  signing_public_key = bytes "p";
  exchange_public_key = bytes "y";
  fingerprint = bytes "PY";
  status = Device.pending;
}

abbrev pub by_laptop : Bytes → ℕ → AccessEvent → SignedAccessEvent
by_laptop event_id revision event = record {
  event_id = event_id;
  workspace_id = bytes "home";
  expected_revision = revision;
  actor_device_id = laptop.device_id;
  created_at = 1700000000;
  event = event;
  signature = bytes "ok";
}

abbrev pub founding : SignedAccessEvent
founding = by_laptop (bytes "event_1") 0 (workspace_created laptop)

abbrev pub joining : SignedAccessEvent
joining = by_laptop (bytes "event_2") 1 (device_joined (bytes "join_1") phone member)

abbrev pub granting : SignedAccessEvent
granting = by_laptop (bytes "event_3") 2 (restricted_key_granted (bytes "key") 1 phone.device_id)

abbrev pub removing : SignedAccessEvent
removing = by_laptop (bytes "event_4") 3 (device_removed phone.device_id)

abbrev leaving : SignedAccessEvent
leaving = by_laptop (bytes "event_5") 4 (device_removed laptop.device_id)

abbrev pub nothing : AccessState
nothing = empty (bytes "home")

abbrev pub after : SignedAccessEvent → AccessState → AccessState
after e s = (apply_verified_event toy e s).1

abbrev pub founded : AccessState
founded = after founding nothing

abbrev pub joined : AccessState
joined = after joining founded

abbrev pub granted : AccessState
granted = after granting joined

abbrev pub left : AccessState
left = after removing granted

founding_applied : apply_verified_event toy founding nothing ≡ (ok tt, founded)
unfolding apply_verified_event ◌>>=◌ Event.validate Device.validate Device.is_blank
    Device.fingerprint_from_public_keys bytes_cmp required_permission require_permission get insert
    allows has_active_key_grant Validation.validate Device.activate adjust Device.revoke
founding_applied = refl

joining_applied : apply_verified_event toy joining founded ≡ (ok tt, joined)
unfolding apply_verified_event ◌>>=◌ Event.validate Device.validate Device.is_blank
    Device.fingerprint_from_public_keys bytes_cmp required_permission require_permission get insert
    allows has_active_key_grant Validation.validate Device.activate adjust Device.revoke
joining_applied = refl

granting_applied : apply_verified_event toy granting joined ≡ (ok tt, granted)
unfolding apply_verified_event ◌>>=◌ Event.validate Device.validate Device.is_blank
    Device.fingerprint_from_public_keys bytes_cmp required_permission require_permission get insert
    allows has_active_key_grant Validation.validate Device.activate adjust Device.revoke
granting_applied = refl

pub removing_applied : apply_verified_event toy removing granted ≡ (ok tt, left)
unfolding apply_verified_event ◌>>=◌ Event.validate Device.validate Device.is_blank
    Device.fingerprint_from_public_keys bytes_cmp required_permission require_permission get insert
    allows has_active_key_grant Validation.validate Device.activate adjust Device.revoke
removing_applied = refl

-- The last owner stays.
leaving_refused : apply_verified_event toy leaving left ≡ (err cannot_remove_last_owner, left)
unfolding apply_verified_event ◌>>=◌ Event.validate Device.validate Device.is_blank
    Device.fingerprint_from_public_keys bytes_cmp required_permission require_permission get insert
    allows has_active_key_grant Validation.validate Device.activate adjust Device.revoke
leaving_refused = refl

pub home_reached : Reach toy (bytes "home") granted
home_reached = attempt (attempt (attempt start founding) joining) granting

Reach-IsSound_example : IsSound toy granted
Reach-IsSound_example = Reach-IsSound toy (bytes "home") granted home_reached

home-IsWellFormed : IsWellFormed toy granted
home-IsWellFormed = (Reach-IsSound toy (bytes "home") granted home_reached).well_formed

home-IsBacked : IsBacked granted
home-IsBacked = (Reach-IsSound toy (bytes "home") granted home_reached).backed

apply_verified_event-Settles_example :
    Settles
      (λ u t. Applied toy removing granted t)
      granted
      (apply_verified_event toy removing granted)
apply_verified_event-Settles_example =
    apply_verified_event-Settles toy removing granted home-IsWellFormed

apply_verified_event-owner_example :
    IsFounding removing.event granted ⊎ (role granted laptop.device_id ≡ ok owner)
apply_verified_event-owner_example =
    apply_verified_event-owner toy removing granted left removing_applied

removal_example :
    IsGone left phone.device_id
    × ((key_id : Bytes) (generation : ℕ)
        → has_active_key_grant left key_id generation phone.device_id ≡ false)
    × ((d : DeviceRecord) → get phone.device_id left.devices ≡ some d → d.status ≡ Device.revoked)
removal_example = removal toy removing granted left phone.device_id refl removing_applied

abbrev regranting : SignedAccessEvent
regranting = by_laptop (bytes "event_6") 4 (restricted_key_granted (bytes "key") 2 laptop.device_id)

abbrev regranted : AccessState
regranted = after regranting left

regranting_applied : apply_verified_event toy regranting left ≡ (ok tt, regranted)
unfolding apply_verified_event ◌>>=◌ Event.validate Device.validate Device.is_blank
    Device.fingerprint_from_public_keys bytes_cmp required_permission require_permission get insert
    allows has_active_key_grant Validation.validate Device.activate adjust Device.revoke
regranting_applied = refl

phone-IsGone : IsGone left phone.device_id
phone-IsGone = (removal toy removing granted left phone.device_id refl removing_applied).0

IsGone-apply_verified_event_example : IsGone regranted phone.device_id
IsGone-apply_verified_event_example =
    IsGone-apply_verified_event toy regranting left regranted phone.device_id regranting_applied
      phone-IsGone

IsBacked-apply_verified_event_example : IsBacked left
IsBacked-apply_verified_event_example =
    IsBacked-apply_verified_event toy removing granted left removing_applied home-IsBacked

apply_verified_event_again_example :
    apply_verified_event toy removing left ≡ (err (invalid_state expected_revision_differs), left)
apply_verified_event_again_example =
    apply_verified_event_again toy removing granted left home-IsWellFormed removing_applied

abbrev signed_again : SignedAccessEvent
signed_again = record removing { signature = bytes "no" }

removing-IsEncodable : IsEncodable removing
unfolding to_be_bytes
removing-IsEncodable = record {
  revision = omega arith;
  at = omega arith;
  generation = tt;
  fields = (
    omega arith,
    (
      omega arith,
      (omega arith, (omega arith, (omega arith, (omega arith, (omega arith, (omega arith, tt)))))),
    ),
  );
}

signed_again-IsEncodable : IsEncodable signed_again
signed_again-IsEncodable = record {
  revision = removing-IsEncodable.revision;
  at = removing-IsEncodable.at;
  generation = removing-IsEncodable.generation;
  fields = removing-IsEncodable.fields;
}

signing_payload_inj_example :
    record removing { signature = [] } ≡ record signed_again { signature = [] }
unfolding signing_payload
signing_payload_inj_example =
    signing_payload_inj removing signed_again removing-IsEncodable signed_again-IsEncodable refl
