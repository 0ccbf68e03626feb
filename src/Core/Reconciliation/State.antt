-- ===== src/Core/Reconciliation/State.antt =====
-- `SyncState` of `crates/rustsync-core/src/reconciliation.rs`, and the `WorkspaceHead` of
-- `crates/rustsync-protocol/src/workspace/head.rs` that it keeps.
use rustsync.Base.{ℕ, Bool, Bytes, Option, none, some, []}
use rustsync.Base.Map.{BTreeMap}
use rustsync.Protocol.Manifest.{Manifest}

pub record WorkspaceHead : Type 0 where
  pub workspace_id : Bytes
  pub manifest_id : Option Bytes
  pub revision : ℕ
  pub updated_by : Option Bytes
  pub updated_at : Option ℕ

-- `WorkspaceHead::empty`
abbrev pub empty_head : Bytes → WorkspaceHead
empty_head workspace_id = record {
  workspace_id = workspace_id;
  manifest_id = none;
  revision = 0;
  updated_by = none;
  updated_at = none;
}

pub data SyncPhase : Type 0 where
  discovery planning upload download merge publication : SyncPhase

pub record RemoteSyncState : Type 0 where
  pub head : WorkspaceHead

pub record PublishedSyncState : Type 0 where
  pub manifest_id : Bytes
  pub head_revision : ℕ

pub record PendingSyncOperation : Type 0 where
  pub phase : SyncPhase
  pub observed_remote_revision : ℕ

pub record ConflictRecord : Type 0 where
  pub local_copy_path : Bytes
  pub remote_copy_path : Bytes
  pub remote_deleted : Bool

pub record SyncState : Type 0 where
  pub last_synced_revision : Option ℕ
  pub last_synced_manifest : Option Manifest
  pub last_observed_remote : Option RemoteSyncState
  pub last_published_local : Option PublishedSyncState
  pub pending_operation : Option PendingSyncOperation
  pub conflicts : BTreeMap Bytes ConflictRecord

-- `SyncState::default`
abbrev pub default_state : SyncState
default_state = record {
  last_synced_revision = none;
  last_synced_manifest = none;
  last_observed_remote = none;
  last_published_local = none;
  pending_operation = none;
  conflicts = [];
}

abbrev pub begin_pending : SyncPhase → ℕ → SyncState → SyncState
begin_pending phase observed_remote_revision s = record s {
  pending_operation =
      some record { phase = phase; observed_remote_revision = observed_remote_revision };
}

abbrev pub complete_pending : SyncState → SyncState
complete_pending s = record s { pending_operation = none }
