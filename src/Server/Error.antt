-- ===== src/Server/Error.antt =====
-- `crates/rustsync-server/src/error.rs`. Messages that the source formats are named by `Why`.
use rustsync.Base.{Bytes, ◌≡◌, arith}
use rustsync.Base.Exec.{Result}
use rustsync.Protocol.Error.{ProtocolError}

-- The texts of `InvalidRequest`, `CorruptDatabase` and `StorageCorruption`, and the fields of
-- `IntegerOutOfRange`
pub data Why : Type 0 where
  path_mismatch stale_access_revision not_initialized too_many_pending not_pending : Why
  creation_not_allowed bad_json bad_stored_json unknown_object_kind bad_identifier : Why
  bad_catalog wrong_kind bad_canonical_file bad_content_id missing_file missing_envelope : Why
  missing_join_request : Why
  object_size head_revision join_request_timestamp : Why

pub data ServerError : Type 0 where
  invalid_request corrupt_database storage_corruption integer_out_of_range : Why → ServerError
  manifest_not_found blob_not_found key_envelope_not_found key_envelope_conflict : ServerError
  key_envelope_recipient_mismatch workspace_already_exists head_revision_conflict : ServerError
  join_request_conflict head_revision_overflow object_hash_mismatch : ServerError
  invalid_stored_access_state_json storage : ServerError
  invalid_access_state auth_protocol : ProtocolError → ServerError
  access_state_workspace_mismatch : (expected actual : Bytes) → ServerError
  authentication_required invalid_auth_header auth_timestamp_outside_window : ServerError
  replay_detected request_body_too_large : ServerError

abbrev pub ServerResult : Type 0 → Type 0
ServerResult A = Result ServerError A

-- `map_err`
abbrev pub map_err {ℓ κ} :
    {E : Type ℓ} {A : Type κ} → (E → ServerError) → Result E A → Result ServerError A
map_err f (Result.ok a) = Result.ok a
map_err f (Result.err e) = Result.err (f e)

pub map_err-ok {κ} :
    {A : Type κ} (f : ProtocolError → ServerError) (r : Result ProtocolError A) (a : A)
    → map_err f r ≡ Result.ok a
    → r ≡ Result.ok a
map_err-ok f (Result.ok b) a e = ground (arith, e)
map_err-ok f (Result.err why) a e = cc
