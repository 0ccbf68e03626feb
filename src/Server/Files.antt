-- ===== src/Server/Files.antt =====
-- `crates/rustsync-server/src/storage/indexed_fs.rs`: the files of one workspace's objects, beside
-- the catalog in its database. A call is one step, as the lock of the source makes it for a put; the
-- file system fails only where a file is missing or is there already.
pub mod Kept
pub mod Published
use rustsync.Base.{ℕ, Bool, true, false, not, ◌||◌, if◌then◌else◌, ◌==◌, bytes_ord}
use rustsync.Base.{Bytes, bytes, ◌++◌, [], length, Option, none, some}
use rustsync.Base.Map.{BTreeMap, get, insert}
use rustsync.Base.Exec.{Exec, Result, ok, err, reject, ok_or, pure, reads, raise, ◌>>=◌, ◌>>◌}
use rustsync.Server.Error.{
  ServerError, ServerResult, storage, storage_corruption, bad_canonical_file,
}
use rustsync.Server.Error.{bad_content_id, missing_file, object_hash_mismatch, manifest_not_found}
use rustsync.Server.Error.{blob_not_found}
use rustsync.Server.Database.Tables.{Database}
use rustsync.Server.Database.Objects.{StoredObjectKind, blob, manifest, StoredObjectMetadata}
use rustsync.Server.Database.Objects.{ObjectInsertResult, inserted, exact_existing}
use rustsync.Server.Database.Objects.{insert_object_if_absent, get_object_metadata}
use rustsync.Server.Database.Envelopes.{PutResult, created, already_exists}
use rustsync.Server.Database.Head.{HeadUpdateResult}
use rustsync.Server.Database.Head
use rustsync.Core.Reconciliation.State.{WorkspaceHead}
use rustsync.Protocol.Device.{Crypto}
use rustsync.Protocol.Auth.{sha256_hex}

-- The files below the blobs and the manifests of the workspace, by identifier, and its database
pub record Storage : Type 0 where
  pub blobs : BTreeMap Bytes Bytes
  pub manifests : BTreeMap Bytes Bytes
  pub database : Database

abbrev pub StorageCall : Type 0 → Type 0
StorageCall A = Exec ServerError Storage A

-- `fs::read` at `object_path`
unfoldable pub read_file : StoredObjectKind → Bytes → Storage → Option Bytes
read_file blob id s = get id s.blobs
read_file manifest id s = get id s.manifests

unfoldable pub put_file : StoredObjectKind → Bytes → Bytes → Storage → Storage
put_file blob id content s = record s { blobs = insert id content s.blobs }
put_file manifest id content s = record s { manifests = insert id content s.manifests }

abbrev pub write_if_absent : StoredObjectKind → Bytes → Bytes → Option Bytes → StorageCall Bool
write_if_absent kind id content none s = (ok true, put_file kind id content s)
write_if_absent kind id content (some old) s = (ok false, s)

-- `atomic::write_new`: the link fails when the file is there.
unfoldable pub write_new : StoredObjectKind → Bytes → Bytes → StorageCall Bool
unfolding read_file put_file
write_new kind id content s = write_if_absent kind id content (read_file kind id s) s

unfoldable pub on_catalog : {A : Type 0} → Exec ServerError Database A → StorageCall A
on_catalog call s = let (result, after) = call s.database in (result, record s { database = after })

-- The file as it is, or as `put_object` writes it and reads it again
abbrev pub canonical_file : StoredObjectKind → Bytes → Bytes → Option Bytes → StorageCall Bytes
canonical_file kind id content (some existing) = pure existing
canonical_file kind id content none = do
  fresh ← write_new kind id content
  reads λ s. ok_or (read_file kind id s) storage

module _ (c : Crypto) (now : ℕ) where
  -- `BlobId::from_content` and `ManifestId::from_content`
  abbrev pub from_content : StoredObjectKind → Bytes → Bytes
  from_content blob content = bytes "blob_" ++ sha256_hex c content
  from_content manifest content = bytes "manifest_" ++ sha256_hex c content

  abbrev pub matches_id : StoredObjectKind → Bytes → Bytes → Bool
  matches_id kind id content = from_content kind content == id

  abbrev pub put_answer : ObjectInsertResult → PutResult
  put_answer inserted = created
  put_answer exact_existing = already_exists

  unfoldable pub put_object : StoredObjectKind → Bytes → Bytes → StorageCall PutResult
  unfolding write_new on_catalog
  put_object kind id content s =
      (do
        canonical ← canonical_file kind id content (read_file kind id s)
        reads λ s.
            reject (not (canonical == content) || not (matches_id kind id canonical))
              (storage_corruption bad_canonical_file) (ok tt)
        row ← on_catalog (
            insert_object_if_absent now
              record { object_id = id; kind = kind; encrypted_size = length canonical })
        pure (put_answer row))
        s

  unfoldable pub verify_backfill : StoredObjectKind → Bytes → Bytes → StorageCall (Unit {0})
  unfolding on_catalog
  verify_backfill kind id content = do
    reads λ s. reject (not (matches_id kind id content)) (storage_corruption bad_content_id) (ok tt)
    row ← on_catalog (
        insert_object_if_absent now
          record { object_id = id; kind = kind; encrypted_size = length content })
    pure tt

  abbrev pub no_row : Option StoredObjectMetadata → ServerResult (Unit {0})
  no_row none = ok tt
  no_row (some metadata) = err (storage_corruption missing_file)

  unfoldable pub report_missing_catalog_row : StoredObjectKind → Bytes → StorageCall (Unit {0})
  report_missing_catalog_row kind id = do
    found ← reads λ s. get_object_metadata kind id s.database
    reads λ s. no_row found

  abbrev pub get_found : StoredObjectKind → Bytes → ServerError → Option Bytes → StorageCall Bytes
  get_found kind id missing none = do report_missing_catalog_row kind id; raise missing
  get_found kind id missing (some content) = do verify_backfill kind id content; pure content

  unfoldable pub get_object : StoredObjectKind → Bytes → ServerError → StorageCall Bytes
  unfolding verify_backfill report_missing_catalog_row
  get_object kind id missing s = get_found kind id missing (read_file kind id s) s

  abbrev pub exists_found : StoredObjectKind → Bytes → Option Bytes → StorageCall Bool
  exists_found kind id none = do report_missing_catalog_row kind id; pure false
  exists_found kind id (some content) = do verify_backfill kind id content; pure true

  unfoldable pub exists_object : StoredObjectKind → Bytes → StorageCall Bool
  unfolding verify_backfill report_missing_catalog_row
  exists_object kind id s = exists_found kind id (read_file kind id s) s

  -- `put_blob` and `put_manifest`
  unfoldable pub put_content : StoredObjectKind → Bytes → Bytes → StorageCall PutResult
  unfolding put_object
  put_content kind id content = do
    reads λ s. reject (not (from_content kind content == id)) object_hash_mismatch (ok tt)
    put_object kind id content

  -- The error that `get_blob` and `get_manifest` give for a missing object
  abbrev pub not_found : StoredObjectKind → ServerError
  not_found blob = blob_not_found
  not_found manifest = manifest_not_found

  -- `get_blob` and `get_manifest`
  unfoldable pub get_content : StoredObjectKind → Bytes → StorageCall Bytes
  unfolding get_object
  get_content kind id = get_object kind id (not_found kind)

  abbrev pub check_manifest : Option Bytes → StorageCall (Unit {0})
  check_manifest none = pure tt
  check_manifest (some id) = do content ← get_content manifest id; pure tt

  unfoldable pub get_head : Bytes → StorageCall WorkspaceHead
  unfolding get_content
  get_head w = do
    head ← reads λ s. Head.get_head w s.database
    check_manifest head.manifest_id
    pure head

  unfoldable pub update_head :
      Bytes → ℕ → Bytes → Option Bytes → StorageCall (HeadUpdateResult × WorkspaceHead)
  unfolding exists_object on_catalog
  update_head w expected_revision manifest_id updated_by = do
    there ← exists_object manifest manifest_id
    reads λ s. reject (not there) manifest_not_found (ok tt)
    on_catalog (Head.update_head now w expected_revision manifest_id updated_by)
