-- ===== src/Server/Api/Events.antt =====
-- `apply_access_event`, `approve_join_request` and `verify_and_apply_access_event` of
-- `crates/rustsync-server/src/api/access.rs`.
pub mod Applying
use rustsync.Base.{ℕ, not, ◌==◌, bytes_ord, Bytes, Option, none, some}
use rustsync.Base.Exec.{Exec, Result, ok, err, reject, ok_or, pure, reads, ◌>>=◌, ◌>>◌}
use rustsync.Base.Chain
use rustsync.Server.Error.{ServerError, ServerResult, map_err, auth_protocol, invalid_access_state}
use rustsync.Server.Error.{invalid_request, path_mismatch, not_pending, creation_not_allowed}
use rustsync.Server.Error.{access_state_workspace_mismatch}
use rustsync.Server.State.{ServerState, Handler, on_database}
use rustsync.Server.Auth.{HttpRequest, authenticate}
use rustsync.Server.Api.{ensure_body_limit, parse_json}
use rustsync.Server.Database.Tables.{Database, Json}
use rustsync.Server.Database.Access.{get_access_state, save_access_state}
use rustsync.Server.Database.Requests.{get_join_request, remove_join_request}
use rustsync.Protocol.Error.{ProtocolError, invalid_access_event, not_the_actor}
use rustsync.Protocol.Device.{Crypto}
use rustsync.Protocol.Device.Join.{verify_for_workspace}
use rustsync.Protocol.Api.{ApproveJoinRequestRequest}
use rustsync.Protocol.Access.Role.{WorkspacePermission, manage_devices}
use rustsync.Protocol.Access.Event.{
  SignedAccessEvent, AccessEvent, device_joined, workspace_created,
}
use rustsync.Protocol.Access.Event.{required_permission, verify_signature, verify_join_request}
use rustsync.Protocol.Access.State.{AccessState, active_device_record}
use rustsync.Protocol.Access.Apply.{apply_verified_event}

-- The state that a change left, if it succeeded. The caller drops it otherwise.
abbrev pub changed_state :
    Result ProtocolError (Unit {0}) × AccessState → Result ProtocolError AccessState
changed_state (ok u, state) = ok state
changed_state (err e, state) = err e

module _ (c : Crypto) (json : Json) (now : ℕ) where
  -- `verify_and_apply_access_event`, which holds the lock of the access events
  unfoldable pub verify_and_apply_access_event :
      Bytes → SignedAccessEvent → Exec ServerError Database AccessState
  verify_and_apply_access_event w event = do
    reads λ db.
        reject (not (event.workspace_id == w))
          (access_state_workspace_mismatch w event.workspace_id) (ok tt)
    state ← reads (get_access_state c json w)
    actor ←
        reads λ db. map_err invalid_access_state (active_device_record state event.actor_device_id)
    reads λ db. map_err invalid_access_state (verify_signature c event actor)
    applied ←
        reads
          λ db. map_err invalid_access_state (changed_state (apply_verified_event c event state))
    save_access_state c json now w applied
    pure applied

  -- The pending request that an event answers
  unfoldable pub pending_request :
      Bytes → Bytes → SignedAccessEvent → ServerState → ServerResult (Unit {0})
  pending_request w id event s = Chain.◌>>=◌ (get_join_request json w id s.database) λ found.
      Chain.◌>>=◌ (ok_or found (invalid_request not_pending)) λ pending.
        Chain.◌>>◌ (map_err invalid_access_state (verify_for_workspace c pending w))
          (map_err invalid_access_state (verify_join_request event pending))

  -- The end of both handlers for an event that answers a join request
  unfoldable pub apply_joining : Bytes → Bytes → SignedAccessEvent → Handler AccessState
  unfolding verify_and_apply_access_event pending_request on_database
  apply_joining w id event = do
    reads (pending_request w id event)
    state ← on_database (verify_and_apply_access_event w event)
    on_database (remove_join_request id)
    pure state

  unfoldable pub approve_join_request : Bytes → Bytes → HttpRequest → Handler AccessState
  unfolding authenticate apply_joining
  approve_join_request w id http = do
    reads λ s. ensure_body_limit http.body
    request ← reads λ s. parse_json (json.approve_request_from_slice http.body)
    reads λ s. reject (not (request.join_request_id == id)) (invalid_request path_mismatch) (ok tt)
    auth ← authenticate c json now w manage_devices http
    reads λ s.
        reject (not (auth.device_id == request.event.actor_device_id))
          (auth_protocol (invalid_access_event not_the_actor)) (ok tt)
    apply_joining w id request.event

  -- The match of `apply_access_event` on the event
  unfoldable pub apply_by_kind : Bytes → SignedAccessEvent → AccessEvent → Handler AccessState
  unfolding verify_and_apply_access_event apply_joining on_database
  apply_by_kind w event (device_joined id device role) = apply_joining w id event
  apply_by_kind w event _ = on_database (verify_and_apply_access_event w event)

  unfoldable pub apply_access_event : Bytes → HttpRequest → Handler AccessState
  unfolding authenticate apply_by_kind
  apply_access_event w http = do
    reads λ s. ensure_body_limit http.body
    event ← reads λ s. parse_json (json.apply_request_from_slice http.body)
    permission ←
        reads λ s. ok_or (required_permission event.event) (invalid_request creation_not_allowed)
    auth ← authenticate c json now w permission http
    reads λ s.
        reject (not (auth.device_id == event.actor_device_id))
          (auth_protocol (invalid_access_event not_the_actor)) (ok tt)
    apply_by_kind w event event.event
