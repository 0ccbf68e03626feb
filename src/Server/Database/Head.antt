-- ===== src/Server/Database/Head.antt =====
-- `get_head` and `update_head`.
pub mod Register
use rustsync.Base.{
  ℕ, ◌+◌, Bool, true, false, not, ◌&&◌, if◌then◌else◌, ◌==◌, nat_ord, Bytes, Option, none, some,
  checked_add,
}
use rustsync.Base.Exec.{Exec, Result, ok, err, reject, ok_or, reads, ◌>>=◌, ◌>>◌, pure}
use rustsync.Base.Chain
use rustsync.Server.Error.{ServerError, ServerResult, map_err, corrupt_database, bad_identifier}
use rustsync.Server.Error.{head_revision, head_revision_overflow}
use rustsync.Server.Database.Tables.{Database, HeadRow, to_i64, transaction}
use rustsync.Core.Reconciliation.State.{WorkspaceHead, empty_head}
use rustsync.Protocol.Id.{parse_manifest_id, parse_device_id}

pub data HeadUpdateResult : Type 0 where
  updated conflict : HeadUpdateResult

-- `map(parse).transpose()` of an optional column
abbrev pub parse_column : (Bytes → ServerResult Bytes) → Option Bytes → ServerResult (Option Bytes)
parse_column parse none = ok none
parse_column parse (some text) = Chain.◌>>=◌ (parse text) λ id. ok (some id)

abbrev pub manifest_column : Bytes → ServerResult Bytes
manifest_column text = map_err (λ e. corrupt_database bad_identifier) (parse_manifest_id text)

abbrev pub device_column : Bytes → ServerResult Bytes
device_column text = map_err (λ e. corrupt_database bad_identifier) (parse_device_id text)

-- `head`
unfoldable pub read_row : Bytes → HeadRow → ServerResult WorkspaceHead
read_row workspace row = Chain.◌>>=◌ (parse_column manifest_column row.manifest_id) λ manifest_id.
    Chain.◌>>=◌ (parse_column device_column row.updated_by) λ updated_by. ok record {
      workspace_id = workspace;
      manifest_id = manifest_id;
      revision = row.revision;
      updated_by = updated_by;
      updated_at = row.updated_at;
    }

abbrev pub read_head : Bytes → Option HeadRow → ServerResult WorkspaceHead
read_head workspace none = ok (empty_head workspace)
read_head workspace (some row) = read_row workspace row

-- `get_head`
unfoldable pub get_head : Bytes → Database → ServerResult WorkspaceHead
unfolding read_row
get_head workspace db = read_head workspace db.workspace_head

-- The check of the next revision
unfoldable pub next_head_revision : ℕ → ServerResult ℕ
unfolding to_i64
next_head_revision expected =
    Chain.◌>>=◌ (ok_or (checked_add expected 1) head_revision_overflow)
      λ next. map_err (λ e. head_revision_overflow) (to_i64 next head_revision)

-- `INSERT ... ON CONFLICT(singleton) DO NOTHING` for the first revision, `UPDATE ... WHERE revision`
-- for the later ones, with whether a row was affected
abbrev write_row : (expected : ℕ) → HeadRow → Option HeadRow → Bool × Option HeadRow
write_row expected row none = if expected == 0 then (true, some row) else (false, none)
write_row expected row (some old) =
    if not (expected == 0) && old.revision == expected then (true, some row) else (false, some old)

unfoldable pub write_head : (expected : ℕ) → HeadRow → Exec ServerError Database Bool
write_head expected row db =
    let (affected, head) = write_row expected row db.workspace_head in
    (ok affected, record db { workspace_head = head })

unfoldable pub update_head :
    (now : ℕ) (workspace : Bytes) (expected_revision : ℕ) (manifest_id : Bytes)
    (updated_by : Option Bytes)
    → Exec ServerError Database (HeadUpdateResult × WorkspaceHead)
unfolding to_i64 next_head_revision write_head get_head
update_head now workspace expected_revision manifest_id updated_by = do
  expected ← reads λ db. to_i64 expected_revision head_revision
  next ← reads λ db. next_head_revision expected_revision
  transaction do
    affected ← write_head expected record {
      manifest_id = some manifest_id;
      revision = next;
      updated_by = updated_by;
      updated_at = some now;
    }
    head ← reads (get_head workspace)
    pure ((if affected then updated else conflict), head)
