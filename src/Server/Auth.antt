-- ===== src/Server/Auth.antt =====
-- `authenticate` of `crates/rustsync-server/src/auth/middleware.rs`.
pub mod Covered
pub mod Authenticated
pub mod Accepted
use rustsync.Base.{ℕ, Bytes, bytes, Option, none, some}
use rustsync.Base.Exec.{Result, ok, err, ok_or, pure, reads, ◌>>=◌, ◌>>◌}
use rustsync.Base.Chain
use rustsync.Server.Error.{ServerError, ServerResult, map_err, auth_protocol}
use rustsync.Server.Error.{authentication_required, invalid_auth_header}
use rustsync.Server.State.{ServerState, Handler, on_seen}
use rustsync.Server.Replay.{
  ReplayKey, check_and_record, validate_timestamp, max_timestamp_skew_seconds,
}
use rustsync.Server.Database.Tables.{Json}
use rustsync.Server.Database.Access.{get_access_state}
use rustsync.Protocol.Auth.{AuthHeaders, SignedHttpRequest, from_header_values, from_auth_headers}
use rustsync.Protocol.Auth.{verify_with_device}
use rustsync.Protocol.Device.{Crypto}
use rustsync.Protocol.Access.Role.{WorkspacePermission}
use rustsync.Protocol.Access.State.{active_device_record, require_permission}

-- What `HeaderValue::to_str` makes of a value
pub data HeaderValue : Type 0 where
  visible : Bytes → HeaderValue
  opaque : HeaderValue

pub record Uri : Type 0 where
  pub path : Bytes
  pub path_and_query : Option Bytes

-- A request as it comes to a handler. `header` is `HeaderMap::get`.
pub record HttpRequest : Type 0 where
  pub method : Bytes
  pub uri : Uri
  pub header : Bytes → Option HeaderValue
  pub body : Bytes

pub record AuthenticatedDevice : Type 0 where
  pub workspace_id : Bytes
  pub device_id : Bytes
  pub permission : WorkspacePermission

abbrev pub device_id_header : Bytes
device_id_header = bytes "x-rustsync-device-id"

abbrev pub timestamp_header : Bytes
timestamp_header = bytes "x-rustsync-timestamp"

abbrev pub nonce_header : Bytes
nonce_header = bytes "x-rustsync-nonce"

abbrev pub signature_header : Bytes
signature_header = bytes "x-rustsync-signature"

abbrev pub header_value_to_str : HeaderValue → ServerResult Bytes
header_value_to_str (visible text) = ok text
header_value_to_str opaque = err invalid_auth_header

unfoldable pub required_header : HttpRequest → Bytes → ServerResult Bytes
required_header request name =
    Chain.◌>>=◌ (ok_or (request.header name) authentication_required) header_value_to_str

-- `uri.path_and_query().map_or_else(..)`
abbrev pub path_or_query : Uri → Option Bytes → Bytes
path_or_query uri none = uri.path
path_or_query uri (some path_and_query) = path_and_query

module _ (c : Crypto) where
  unfoldable pub parse_auth_headers : HttpRequest → ServerResult AuthHeaders
  unfolding required_header
  parse_auth_headers request = Chain.◌>>=◌ (required_header request device_id_header) λ device_id.
      Chain.◌>>=◌ (required_header request timestamp_header) λ timestamp.
        Chain.◌>>=◌ (required_header request nonce_header) λ nonce.
          Chain.◌>>=◌ (required_header request signature_header) λ signature.
            map_err auth_protocol (from_header_values c device_id timestamp nonce signature)

  unfoldable pub signed_http_request_from_headers : HttpRequest → ServerResult SignedHttpRequest
  unfolding parse_auth_headers
  signed_http_request_from_headers request = Chain.◌>>=◌ (parse_auth_headers request) λ headers.
      ok (
        from_auth_headers c
          record {
            method = request.method;
            path_and_query = path_or_query request.uri request.uri.path_and_query;
            body = request.body;
          }
          headers)

  -- The key that the replay cache has a request under
  abbrev pub replay_key : Bytes → SignedHttpRequest → ReplayKey
  replay_key w signed = record {
    workspace_id = w;
    device_id = signed.input.device_id;
    nonce = signed.input.nonce;
  }

  unfoldable pub authenticate :
      Json → (now : ℕ) → Bytes → WorkspacePermission → HttpRequest → Handler AuthenticatedDevice
  unfolding signed_http_request_from_headers on_seen
  authenticate json now w permission request = do
    signed ← reads λ s. signed_http_request_from_headers request
    reads λ s. validate_timestamp now signed.input.timestamp
    state ← reads λ s. get_access_state c json w s.database
    device ← reads λ s. map_err auth_protocol (active_device_record state signed.input.device_id)
    reads λ s. map_err auth_protocol (verify_with_device c signed device)
    on_seen
        (check_and_record (replay_key w signed) signed.input.timestamp max_timestamp_skew_seconds)
    reads λ s. map_err auth_protocol (require_permission state signed.input.device_id permission)
    pure record { workspace_id = w; device_id = signed.input.device_id; permission = permission }
