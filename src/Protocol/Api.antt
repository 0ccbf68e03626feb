-- ===== src/Protocol/Api.antt =====
-- The requests and responses of `crates/rustsync-protocol/src/api/mod.rs` that the server's access
-- routes use. A response that holds one value is that value.
use rustsync.Base.{Bytes}
use rustsync.Protocol.Access.State.{AccessState}
use rustsync.Protocol.Access.Event.{SignedAccessEvent}

pub record CreateWorkspaceRequest : Type 0 where
  pub workspace_id : Bytes
  pub access_state : AccessState

pub record ApproveJoinRequestRequest : Type 0 where
  pub join_request_id : Bytes
  pub event : SignedAccessEvent

pub data JoinRequestSubmissionStatus : Type 0 where
  submitted already_pending : JoinRequestSubmissionStatus

pub record JoinRequestSubmissionResponse : Type 0 where
  pub request_id : Bytes
  pub status : JoinRequestSubmissionStatus

pub data ObjectUploadStatus : Type 0 where
  created already_exists : ObjectUploadStatus
