-- ===== src/Protocol/Error.antt =====
-- `crates/rustsync-protocol/src/error.rs`. Messages that the source formats are named by `Reason`,
-- without the identifiers that are printed in them.
use rustsync.Base.{ℕ, Bytes}
use rustsync.Base.Exec.{Result}
use rustsync.Protocol.Access.Role.{WorkspacePermission}

-- The texts of `InvalidAccessEvent`, `InvalidState`, `InvalidJoinRequest` and `InvalidIdentifier`.
pub data Reason : Type 0 where
  owner_not_active joined_not_pending signature_missing actor_mismatch : Reason
  join_request_mismatch join_device_mismatch join_workspace_mismatch not_a_join_event : Reason
  expected_revision_differs not_empty creator_not_owner : Reason
  active_without_record active_record_inactive : Reason
  revision_zero_with_events device_key_mismatch device_without_membership : Reason
  membership_key_mismatch bad_join_revision membership_without_record : Reason
  active_with_removal_metadata removed_with_active_record no_removal_revision : Reason
  future_removal_revision generation_zero grant_index_mismatch bad_grant_revision : Reason
  joining_not_pending : Reason
  empty_identifier identifier_too_long prefix_missing characters_not_allowed : Reason
  object_id_shape object_hash_not_hex : Reason
  nonce_empty nonce_too_long nonce_characters timestamp_not_a_number : Reason
  envelope_sender_mismatch not_the_sender not_the_actor not_the_joining_device : Reason
  path_empty path_absolute path_backslash path_not_normalized : Reason

pub data ProtocolError : Type 0 where
  invalid_identifier : (kind value : Bytes) (reason : Reason) → ProtocolError
  invalid_device_name invalid_public_key invalid_signature : ProtocolError
  fingerprint_mismatch : (expected actual : Bytes) → ProtocolError
  invalid_join_request : Reason → ProtocolError
  workspace_mismatch : (expected actual : Bytes) → ProtocolError
  invalid_key_generation : ℕ → ProtocolError
  empty_ciphertext : ProtocolError
  ciphertext_too_short : (minimum actual : ℕ) → ProtocolError
  invalid_nonce_length : (expected actual : ℕ) → ProtocolError
  encrypted_object_too_large : (maximum actual : ℕ) → ProtocolError
  invalid_encrypted_object_binary : ProtocolError
  unsupported_encrypted_object_version : ℕ → ProtocolError
  unsupported_content_encryption_algorithm : ℕ → ProtocolError
  invalid_encrypted_object_encoding : ProtocolError
  invalid_access_event : Reason → ProtocolError
  invalid_manifest_path : (path : Bytes) (reason : Reason) → ProtocolError
  invalid_auth_header : Reason → ProtocolError
  invalid_request_signature : ProtocolError
  device_not_active_member : Bytes → ProtocolError
  permission_denied : Bytes → WorkspacePermission → ProtocolError
  device_already_member : Bytes → ProtocolError
  cannot_remove_last_owner : ProtocolError
  device_not_authorized_for_key :
      (key_id : Bytes) (generation : ℕ) (device_id : Bytes) → ProtocolError
  key_access_already_granted : (key_id : Bytes) (generation : ℕ) (device_id : Bytes) → ProtocolError
  key_access_not_granted : (key_id : Bytes) (generation : ℕ) (device_id : Bytes) → ProtocolError
  workspace_id_mismatch : (expected actual : Bytes) → ProtocolError
  invalid_state : Reason → ProtocolError
  revision_overflow : ProtocolError

abbrev pub ProtocolResult : Type 0 → Type 0
ProtocolResult A = Result ProtocolError A
