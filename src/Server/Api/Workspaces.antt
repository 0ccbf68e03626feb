-- ===== src/Server/Api/Workspaces.antt =====
-- `create_workspace` of `crates/rustsync-server/src/api/workspaces.rs`, and `fetch_access_state` of
-- `crates/rustsync-server/src/api/access.rs`.
use rustsync.Base.{ℕ, not, ◌==◌, bytes_ord, Bytes, []}
use rustsync.Base.Exec.{ok, reject, pure, reads, ◌>>=◌, ◌>>◌}
use rustsync.Base.Chain
use rustsync.Server.Error.{ServerResult, map_err, auth_protocol}
use rustsync.Server.Error.{access_state_workspace_mismatch}
use rustsync.Server.State.{Handler, on_database, on_seen}
use rustsync.Server.Auth.{HttpRequest, authenticate, signed_http_request_from_headers, replay_key}
use rustsync.Server.Replay.{check_and_record, validate_timestamp, max_timestamp_skew_seconds}
use rustsync.Server.Api.{ensure_body_limit, parse_json}
use rustsync.Server.Database.Tables.{Json}
use rustsync.Server.Database.Access.{get_access_state, create_access_state}
use rustsync.Protocol.Error.{permission_denied}
use rustsync.Protocol.Device.{Crypto}
use rustsync.Protocol.Auth.{verify_with_device}
use rustsync.Protocol.Api.{CreateWorkspaceRequest}
use rustsync.Protocol.Access.Role.{role_eq, owner, read_objects, manage_devices}
use rustsync.Protocol.Access.State.{AccessState, active_device_record, role}
use rustsync.Core.Reconciliation.State.{WorkspaceHead, empty_head}

module _ (c : Crypto) (json : Json) (now : ℕ) where
  unfoldable pub verify_bootstrap_signature :
      HttpRequest → CreateWorkspaceRequest → Handler (Unit {0})
  unfolding on_seen
  verify_bootstrap_signature http request = do
    signed ← reads λ s. signed_http_request_from_headers c http
    reads λ s. validate_timestamp now signed.input.timestamp
    device ← reads λ s.
        map_err auth_protocol (active_device_record request.access_state signed.input.device_id)
    has ← reads λ s. map_err auth_protocol (role request.access_state signed.input.device_id)
    reads λ s.
        reject (not (role_eq has owner))
          (auth_protocol (permission_denied signed.input.device_id manage_devices)) (ok tt)
    reads λ s. map_err auth_protocol (verify_with_device c signed device)
    on_seen (
        check_and_record (replay_key c request.workspace_id signed) signed.input.timestamp
          max_timestamp_skew_seconds)

  -- The part after the body was read. The database is that of the workspace that the request names.
  unfoldable pub create_requested : HttpRequest → CreateWorkspaceRequest → Handler WorkspaceHead
  unfolding verify_bootstrap_signature on_database
  create_requested http request = do
    verify_bootstrap_signature http request
    reads λ s.
        reject (not (request.access_state.workspace_id == request.workspace_id))
          (access_state_workspace_mismatch request.workspace_id request.access_state.workspace_id)
          (ok tt)
    on_database (create_access_state c json now request.workspace_id request.access_state)
    pure (empty_head request.workspace_id)

  -- The body names the workspace, and with it the database that the state stands for.
  abbrev pub parse_create : HttpRequest → ServerResult CreateWorkspaceRequest
  parse_create http =
      Chain.◌>>◌ (ensure_body_limit http.body)
        (parse_json (json.create_workspace_from_slice http.body))

  unfoldable pub create_workspace : HttpRequest → Handler WorkspaceHead
  unfolding create_requested
  create_workspace http = do request ← reads λ s. parse_create http; create_requested http request

  unfoldable pub fetch_access_state : Bytes → HttpRequest → Handler AccessState
  unfolding authenticate
  fetch_access_state w http = do
    auth ← authenticate c json now w read_objects (record http { body = [] })
    reads λ s. get_access_state c json w s.database
