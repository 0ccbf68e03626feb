-- ===== src/Server/Api/Envelopes.antt =====
-- `put_key_envelope` and `fetch_key_envelope` of `crates/rustsync-server/src/api/access.rs`.
use rustsync.Base.{ℕ, not, ◌||◌, ◌==◌, bytes_ord, nat_ord, Bytes, []}
use rustsync.Base.Exec.{ok, err, reject, ok_or, reads, ◌>>=◌, ◌>>◌}
use rustsync.Server.Error.{ServerResult, map_err, auth_protocol, invalid_access_state}
use rustsync.Server.Error.{invalid_request, path_mismatch, stale_access_revision, bad_stored_json}
use rustsync.Server.Error.{key_envelope_conflict, key_envelope_not_found}
use rustsync.Server.Error.{key_envelope_recipient_mismatch}
use rustsync.Server.State.{Handler, on_database}
use rustsync.Server.Auth.{HttpRequest, authenticate}
use rustsync.Server.Api.{ensure_body_limit, parse_json}
use rustsync.Server.Database.Tables.{Json}
use rustsync.Server.Database.Access.{get_access_state}
use rustsync.Server.Database.Envelopes.{PutResult, created, already_exists, conflict}
use rustsync.Server.Database.Envelopes
use rustsync.Protocol.Error.{invalid_access_event, not_the_sender}
use rustsync.Protocol.Device.{Crypto}
use rustsync.Protocol.Envelope.{KeyEnvelope, verify_sender_signature}
use rustsync.Protocol.Api
use rustsync.Protocol.Api.{ObjectUploadStatus}
use rustsync.Protocol.Access.Role.{manage_keys, read_objects}
use rustsync.Protocol.Access.State.{active_device_record}

abbrev pub upload_response : PutResult → ServerResult ObjectUploadStatus
upload_response created = ok Api.created
upload_response already_exists = ok Api.already_exists
upload_response conflict = err key_envelope_conflict

-- The comparison of the envelope with the path of the request
abbrev pub matches_path :
    (w key_id recipient_device_id : Bytes) → KeyEnvelope → ServerResult (Unit {0})
matches_path w key_id recipient_device_id e =
    reject
      (not (e.workspace_id == w)
        || not (e.key_id == key_id)
        || not (e.recipient_device_id == recipient_device_id))
      (invalid_request path_mismatch) (ok tt)

module _ (c : Crypto) (json : Json) (now : ℕ) where
  unfoldable pub put_key_envelope :
      (w key_id recipient_device_id : Bytes) → HttpRequest → Handler ObjectUploadStatus
  unfolding authenticate on_database
  put_key_envelope w key_id recipient_device_id http = do
    reads λ s. ensure_body_limit http.body
    envelope ← reads λ s. parse_json (json.key_envelope_from_slice http.body)
    auth ← authenticate c json now w manage_keys http
    reads λ s.
        reject (not (auth.device_id == envelope.sender_device_id))
          (auth_protocol (invalid_access_event not_the_sender)) (ok tt)
    reads λ s. matches_path w key_id recipient_device_id envelope
    state ← reads λ s. get_access_state c json w s.database
    sender ←
        reads
          λ s. map_err invalid_access_state (active_device_record state envelope.sender_device_id)
    recipient ←
        reads λ s.
          map_err invalid_access_state (active_device_record state envelope.recipient_device_id)
    reads λ s. map_err invalid_access_state (verify_sender_signature c envelope sender)
    reads λ s.
        reject (not (envelope.access_revision == state.revision))
          (invalid_request stale_access_revision) (ok tt)
    result ← on_database (Envelopes.put_key_envelope key_id recipient_device_id http.body)
    reads λ s. upload_response result

  unfoldable pub fetch_key_envelope :
      (w key_id recipient_device_id : Bytes) → HttpRequest → Handler KeyEnvelope
  unfolding authenticate
  fetch_key_envelope w key_id recipient_device_id http = do
    auth ← authenticate c json now w read_objects (record http { body = [] })
    reads λ s.
        reject (not (auth.device_id == recipient_device_id)) key_envelope_recipient_mismatch (ok tt)
    found ← reads λ s. Envelopes.get_key_envelope key_id recipient_device_id s.database
    stored ← reads λ s. ok_or found key_envelope_not_found
    reads λ s. ok_or (json.key_envelope_from_slice stored) (invalid_request bad_stored_json)
