-- ===== src/Server/Api/JoinRequests.antt =====
-- `submit_join_request` and `list_join_requests` of `crates/rustsync-server/src/api/access.rs`.
pub mod Limit
use rustsync.Base.{
  ℕ, Bool, true, false, not, if◌then◌else◌, ◌==◌, bytes_ord, nat_ord, ltb, leb, length, Bytes, [],
  ◌∷◌, List, Option, none, some,
}
use rustsync.Base.Exec.{Exec, Result, ok, err, reject, ok_or, pure, reads, ◌>>=◌, ◌>>◌}
use rustsync.Base.Chain
use rustsync.Server.Error.{ServerError, ServerResult, map_err, auth_protocol, invalid_access_state}
use rustsync.Server.Error.{
  invalid_request, not_initialized, too_many_pending, join_request_conflict,
}
use rustsync.Server.State.{ServerState, Handler, on_database, on_seen}
use rustsync.Server.Auth.{HttpRequest, authenticate, signed_http_request_from_headers, replay_key}
use rustsync.Server.Replay.{check_and_record, validate_timestamp, max_timestamp_skew_seconds}
use rustsync.Server.Api.{ensure_body_limit, parse_json}
use rustsync.Server.Database.Tables.{Database, Json}
use rustsync.Server.Database.Access.{get_access_state}
use rustsync.Server.Database.Requests.{JoinRequestPutResult, submitted, already_pending, conflict}
use rustsync.Server.Database.Requests.{get_join_request}
use rustsync.Server.Database.Requests
use rustsync.Protocol.Error.{invalid_access_event, not_the_joining_device, device_already_member}
use rustsync.Protocol.Device.{Crypto}
use rustsync.Protocol.Device.Join.{DeviceJoinRequest, verify_for_workspace}
use rustsync.Protocol.Auth.{verify_with_device}
use rustsync.Protocol.Api
use rustsync.Protocol.Api.{JoinRequestSubmissionResponse}
use rustsync.Protocol.Access.Role.{manage_devices}
use rustsync.Protocol.Access.State.{AccessState, is_active_member, is_some}

abbrev pub max_pending_join_requests_per_workspace : ℕ
max_pending_join_requests_per_workspace = 128

abbrev pub submission_response :
    Bytes → JoinRequestPutResult → ServerResult JoinRequestSubmissionResponse
submission_response id submitted = ok record { request_id = id; status = Api.submitted }
submission_response id already_pending = ok record { request_id = id; status = Api.already_pending }
submission_response id conflict = err join_request_conflict

-- `iter().find(|pending| pending.device.device_id == id)`
unfoldable pub find_device : Bytes → List DeviceJoinRequest → Option DeviceJoinRequest
find_device id [] = none
find_device id (pending ∷ rest) =
    let found = find_device id rest in
    if pending.device.device_id == id then some pending else found

-- The refusals of a workspace that has no owner yet, and of a device that is a member
abbrev pub may_join : AccessState → DeviceJoinRequest → ServerResult (Unit {0})
may_join state request = reject (state.revision == 0) (invalid_request not_initialized) (
    reject (is_active_member state request.device.device_id)
      (invalid_access_state (device_already_member request.device.device_id)) (ok tt))

module _ (c : Crypto) (json : Json) (now : ℕ) where
  unfoldable pub verify_join_request_http_signature :
      Bytes → HttpRequest → DeviceJoinRequest → Handler (Unit {0})
  unfolding on_seen
  verify_join_request_http_signature w http request = do
    signed ← reads λ s. signed_http_request_from_headers c http
    reads λ s. validate_timestamp now signed.input.timestamp
    reads λ s.
        reject (not (signed.input.device_id == request.device.device_id))
          (auth_protocol (invalid_access_event not_the_joining_device)) (ok tt)
    reads λ s. map_err auth_protocol (verify_with_device c signed request.device)
    on_seen
        (check_and_record (replay_key c w signed) signed.input.timestamp max_timestamp_skew_seconds)

  -- `submit_join_request` of the storage, and the response to what it answers
  unfoldable pub submit :
      Bytes → DeviceJoinRequest → Exec ServerError Database JoinRequestSubmissionResponse
  submit w request = do
    result ← Requests.submit_join_request json w request
    reads λ db. submission_response request.request_id result

  unfoldable pub submit_within_limit :
      Bytes
      → DeviceJoinRequest
      → List DeviceJoinRequest
      → Exec ServerError Database JoinRequestSubmissionResponse
  unfolding submit
  submit_within_limit w request pending = do
    reads λ db.
        reject (leb max_pending_join_requests_per_workspace (length pending))
          (invalid_request too_many_pending) (ok tt)
    submit w request

  -- The device has a pending request of another identifier, or there must be room for its first.
  abbrev pub submit_first :
      Bytes
      → DeviceJoinRequest
      → List DeviceJoinRequest
      → Option DeviceJoinRequest
      → Exec ServerError Database JoinRequestSubmissionResponse
  submit_first w request pending (some existing) =
      pure record { request_id = existing.request_id; status = Api.already_pending }
  submit_first w request pending none = submit_within_limit w request pending

  unfoldable pub submit_new :
      Bytes → DeviceJoinRequest → Exec ServerError Database JoinRequestSubmissionResponse
  unfolding submit_within_limit find_device
  submit_new w request = do
    pending ← reads (Requests.list_join_requests json w)
    submit_first w request pending (find_device request.device.device_id pending)

  -- A request of this identifier is there already, or not.
  abbrev pub submit_or_repeat :
      Bytes
      → DeviceJoinRequest
      → Option DeviceJoinRequest
      → Exec ServerError Database JoinRequestSubmissionResponse
  submit_or_repeat w request (some existing) = submit w request
  submit_or_repeat w request none = submit_new w request

  -- The part of `submit_join_request` that holds the lock of the join requests
  unfoldable pub submit_locked :
      Bytes → DeviceJoinRequest → Exec ServerError Database JoinRequestSubmissionResponse
  unfolding submit submit_new
  submit_locked w request = do
    state ← reads (get_access_state c json w)
    reads λ db. may_join state request
    found ← reads (get_join_request json w request.request_id)
    submit_or_repeat w request found

  unfoldable pub submit_join_request : Bytes → HttpRequest → Handler JoinRequestSubmissionResponse
  unfolding verify_join_request_http_signature submit_locked on_database
  submit_join_request w http = do
    reads λ s. ensure_body_limit http.body
    request ← reads λ s. parse_json (json.join_request_from_slice http.body)
    reads λ s. map_err invalid_access_state (verify_for_workspace c request w)
    verify_join_request_http_signature w http request
    on_database (submit_locked w request)

  unfoldable pub list_join_requests : Bytes → HttpRequest → Handler (List DeviceJoinRequest)
  unfolding authenticate
  list_join_requests w http = do
    auth ← authenticate c json now w manage_devices (record http { body = [] })
    reads λ s. Requests.list_join_requests json w s.database
