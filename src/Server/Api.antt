-- ===== src/Server/Api.antt =====
-- The handlers of `crates/rustsync-server/src/api`. A handler is run as one step; the time is an
-- argument, and the status of an answer is told by its value.
pub mod Events
pub mod Envelopes
pub mod JoinRequests
pub mod Workspaces
pub mod Requests
pub mod Later
use rustsync.Base.{ℕ, ltb, length, Bytes, Option, none, some}
use rustsync.Base.Exec.{ok, err, reject, ok_or}
use rustsync.Server.Error.{ServerResult, request_body_too_large, invalid_request, bad_json}

abbrev pub max_auth_body_bytes : ℕ
max_auth_body_bytes = 1048576

abbrev pub ensure_body_limit : Bytes → ServerResult (Unit {0})
ensure_body_limit body =
    reject (ltb max_auth_body_bytes (length body)) request_body_too_large (ok tt)

-- `parse_json`, of what `serde_json::from_slice` gave
abbrev pub parse_json : {A : Type 0} → Option A → ServerResult A
parse_json parsed = ok_or parsed (invalid_request bad_json)
