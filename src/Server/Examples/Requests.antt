-- ===== src/Server/Examples/Requests.antt =====
-- The removal of a device, and what comes after it.
use rustsync.Base.{◌≤◌, bytes, [], ◌∷◌, some, none, List, ◌≡◌, ◌≢◌, refl, length, arith, bytes_cmp}
use rustsync.Base.Map.{get, insert, adjust}
use rustsync.Base.Exec.{ok, ◌>>=◌, Returns, Settles}
use rustsync.Base.Decimal.{parse_u64}
use rustsync.Server.Replay.{validate_timestamp, check_and_record, replay_key_ord}
use rustsync.Server.Auth.{HttpRequest, authenticate, signed_http_request_from_headers, replay_key}
use rustsync.Server.Auth.Accepted.{authenticate-accepts, taken}
use rustsync.Protocol.Id.{parse_device_id}
use rustsync.Server.Auth.Authenticated.{Authenticated, IsSigned, authenticate-Returns}
use rustsync.Server.Database.Access.{get_access_state}
use rustsync.Server.Examples.{asking, home, json, from, holding, running}
use rustsync.Server.Examples.Texts.{json_of-IsFaithful}
use rustsync.Server.Api.Events.{verify_and_apply_access_event}
use rustsync.Server.Api.Events.Applying.{Stepped, verify_and_apply_access_event-Settles}
use rustsync.Server.Api.Requests.{
  Arrival, event_application, listing, submission, state_fetch, after_arrivals,
}
use rustsync.Server.Api.Requests.History.{after_arrivals-access, after_arrivals-envelope}
use rustsync.Server.Api.Requests.History.{after_arrivals-pending}
use rustsync.Server.Api.Requests.Removed.{authenticate-removed}
use rustsync.Server.Api.Later.{IsFaithful, HasState, Evolves}
use rustsync.Protocol.Auth.{verify_with_device}
use rustsync.Server.Database.Tables.{to_i64}
use rustsync.Protocol.Auth.{SignedHttpRequest, parse_nonce, from_auth_headers, from_header_values}
use rustsync.Protocol.Device
use rustsync.Protocol.Access.Role.{read_objects, manage_devices, allows}
use rustsync.Protocol.Access.State.{
  AccessState, active_device_record, require_permission, has_active_key_grant,
}
use rustsync.Protocol.Access.Event
use rustsync.Protocol.Access.Event.{required_permission}
use rustsync.Protocol.Access.Apply.{apply_verified_event}
use rustsync.Protocol.Access.Validation
use rustsync.Protocol.Access.History.{IsSound, Reach-IsSound}
use rustsync.Protocol.Access.Removal.{IsGone, removal}
use rustsync.Protocol.Access.Examples.{
  toy, laptop, phone, founded, granted, removing, left, home_reached,
}
use rustsync.Protocol.Access.Examples.{removing_applied}
use rustsync.Server.Database.Requests
use rustsync.Server.Database.Requests.{get_join_request}
use rustsync.Protocol.Device.Join.{verify_for_workspace}
use rustsync.Protocol.Device.Join
use rustsync.Protocol.Access.State.{is_active_member}
use rustsync.Server.Database.Envelopes.{get_key_envelope}
use rustsync.Server.Api.JoinRequests.{
  submit_join_request, list_join_requests, find_device, submit_locked,
  max_pending_join_requests_per_workspace,
}

pub faithful : IsFaithful json
faithful = json_of-IsFaithful _ _ _ _

granted-HasState : HasState toy json home (holding granted) granted
unfolding get_access_state apply_verified_event ◌>>=◌ Event.validate Validation.validate
    Device.validate Device.is_blank Device.fingerprint_from_public_keys bytes_cmp
    required_permission require_permission get insert allows has_active_key_grant Device.activate
granted-HasState = record { there = refl; reads = refl }

left-HasState : HasState toy json home (holding left) left
unfolding get_access_state apply_verified_event ◌>>=◌ Event.validate Validation.validate
    Device.validate Device.is_blank Device.fingerprint_from_public_keys bytes_cmp
    required_permission require_permission get insert allows has_active_key_grant Device.activate
    adjust Device.revoke
left-HasState = record { there = refl; reads = refl }

left-IsGone : IsGone left phone.device_id
left-IsGone = (removal toy removing granted left phone.device_id refl removing_applied).0

abbrev arrivals : List Arrival
arrivals =
    record { now = 1010; route = event_application; request = from laptop.device_id (bytes "n1") }
    ∷ record { now = 1020; route = state_fetch; request = from phone.device_id (bytes "n2") }
    ∷ []

after_arrivals-access_example :
    (t : AccessState) × HasState toy json home
      (after_arrivals toy json home arrivals (running granted)).database
      t
    × Evolves toy granted t
    × IsSound toy t
    × (granted.revision ≤ t.revision)
after_arrivals-access_example =
    after_arrivals-access toy json home faithful arrivals (running granted) granted granted-HasState
      (Reach-IsSound toy home granted home_reached)

authenticate-removed_example :
    Returns
      (λ auth after. auth.device_id ≢ phone.device_id)
      (authenticate toy json 1030 home read_objects
        (from phone.device_id (bytes "n3"))
        (after_arrivals toy json home arrivals (running left)))
authenticate-removed_example =
    authenticate-removed toy json home arrivals (running left) left phone.device_id 1030
      read_objects (from phone.device_id (bytes "n3")) faithful left-HasState left-IsGone

-- The request of the phone to join, as it is sent
abbrev sent : HttpRequest
sent = record (from phone.device_id (bytes "n1")) {
  body = elim (json.join_request_to_vec asking) [ none ↦ [] | some text ↦ text ];
}

abbrev submissions : List Arrival
submissions =
    record { now = 1010; route = submission; request = sent }
    ∷ record { now = 1020; route = listing; request = from laptop.device_id (bytes "n2") }
    ∷ []

join_request_stored :
    length (after_arrivals toy json home submissions (running founded)).database.join_requests ≡ 1
unfolding submit_join_request verify_for_workspace Join.verify Join.validate Device.validate
    Device.is_blank Device.fingerprint_from_public_keys Device.verify_signature
    signed_http_request_from_headers from_header_values from_auth_headers parse_device_id
    parse_nonce parse_u64 get_access_state get_join_request Requests.submit_join_request
    Requests.list_join_requests list_join_requests authenticate submit_locked find_device
    validate_timestamp check_and_record verify_with_device Device.is_pending Device.is_active to_i64
    is_active_member active_device_record require_permission get insert bytes_cmp ◌>>=◌
    apply_verified_event Event.validate Validation.validate required_permission allows
    has_active_key_grant Device.activate
join_request_stored = refl

after_arrivals-pending_example :
    length (after_arrivals toy json home submissions (running founded)).database.join_requests
    ≤ max_pending_join_requests_per_workspace
after_arrivals-pending_example =
    after_arrivals-pending toy json home faithful submissions (running founded) (omega arith)

envelope_stored :
    get_key_envelope (bytes "key") phone.device_id (holding granted) ≡ ok (some (bytes "sealed"))
unfolding get_key_envelope get bytes_cmp
envelope_stored = refl

after_arrivals-envelope_example :
    get_key_envelope
      (bytes "key")
      phone.device_id
      (after_arrivals toy json home arrivals (running granted)).database
    ≡ ok (some (bytes "sealed"))
after_arrivals-envelope_example =
    after_arrivals-envelope toy json home faithful arrivals (running granted) (bytes "key")
      phone.device_id (bytes "sealed") envelope_stored

authenticate-Returns_example :
    Returns
      (Authenticated toy json 1010 home
        (from laptop.device_id (bytes "n1"))
        manage_devices
        (running granted))
      (authenticate toy json 1010 home manage_devices
        (from laptop.device_id (bytes "n1"))
        (running granted))
authenticate-Returns_example =
    authenticate-Returns toy json 1010 home (from laptop.device_id (bytes "n1")) manage_devices
      (running granted)

verify_and_apply_access_event-Settles_example :
    Settles
      (Stepped toy json 1010 home removing (holding granted))
      (holding granted)
      (verify_and_apply_access_event toy json 1010 home removing (holding granted))
verify_and_apply_access_event-Settles_example =
    verify_and_apply_access_event-Settles toy json 1010 home removing (holding granted)
      faithful.states

abbrev signed : SignedHttpRequest
signed =
    from_auth_headers toy
      record { method = bytes "POST"; path_and_query = bytes "/workspaces/home"; body = bytes "{}" }
      record {
        device_id = laptop.device_id;
        timestamp = 1000;
        nonce = bytes "n1";
        signature = bytes "ss";
      }

laptop-IsSigned :
    IsSigned toy json 1010 home
      (from laptop.device_id (bytes "n1"))
      (running granted)
      signed
      granted
      laptop
unfolding get_access_state apply_verified_event ◌>>=◌ Event.validate Validation.validate
    Device.validate Device.is_blank Device.fingerprint_from_public_keys bytes_cmp
    required_permission require_permission get insert allows has_active_key_grant Device.activate
    signed_http_request_from_headers from_header_values from_auth_headers parse_device_id
    parse_nonce parse_u64 active_device_record Device.verify_signature
laptop-IsSigned = record {
  read = refl;
  window = omega arith;
  stored = granted-HasState.reads;
  active = refl;
  named = refl;
  verified = refl;
}

laptop_manages : require_permission granted signed.input.device_id manage_devices ≡ ok tt
unfolding from_auth_headers apply_verified_event ◌>>=◌ Event.validate Validation.validate
    Device.validate Device.is_blank Device.fingerprint_from_public_keys bytes_cmp
    required_permission require_permission get insert allows has_active_key_grant Device.activate
laptop_manages = refl

unseen : get (replay_key toy home signed) (running granted).seen ≡ none
unfolding get
unseen = refl

authenticate-accepts_example :
    authenticate toy json 1010 home manage_devices
      (from laptop.device_id (bytes "n1"))
      (running granted)
    ≡ (
      ok record {
        workspace_id = home;
        device_id = signed.input.device_id;
        permission = manage_devices;
      },
      record (running granted) {
        seen = taken (replay_key toy home signed) signed.input.timestamp [];
      },
    )
authenticate-accepts_example =
    authenticate-accepts toy json 1010 home (from laptop.device_id (bytes "n1")) manage_devices
      (running granted) signed granted laptop laptop-IsSigned unseen laptop_manages
