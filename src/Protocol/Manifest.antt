-- ===== src/Protocol/Manifest.antt =====
-- `crates/rustsync-protocol/src/manifest.rs`: what the files and directories of a workspace are.
pub mod Paths
pub mod Examples
use rustsync.Base.{ℕ, Bool, true, false, not, ◌&&◌, ◌||◌, if◌then◌else◌, ◌==◌, bytes_ord, nat_ord}
use rustsync.Base.{List, [], ◌∷◌, Bytes, bytes, any, is_empty, Option, none, some}
use rustsync.Base.Map.{BTreeMap, get, insert, contains_key}
use rustsync.Base.Exec.{Exec, ok, err, reject, reads, modify, ◌>>=◌, ◌>>◌}
use rustsync.Protocol.Error.{ProtocolResult, ProtocolError, invalid_manifest_path, path_empty}
use rustsync.Protocol.Error.{path_absolute, path_backslash, path_not_normalized}

pub record FileEntry : Type 0 where
  pub size : ℕ
  pub content_hash : Bytes
  pub modified_at : ℕ
  pub remote_blob_id : Option Bytes
  pub remote_chunk_ids : List Bytes

pub data ManifestEntry : Type 0 where
  file : FileEntry → ManifestEntry
  directory : ManifestEntry

pub record Manifest : Type 0 where
  pub workspace_id : Bytes
  pub entries : BTreeMap Bytes ManifestEntry

abbrev pub new : Bytes → Manifest
new workspace_id = record { workspace_id = workspace_id; entries = [] }

-- `ManifestEntry::file`
abbrev pub new_file : ℕ → Bytes → ℕ → ManifestEntry
new_file size content_hash modified_at = file record {
  size = size;
  content_hash = content_hash;
  modified_at = modified_at;
  remote_blob_id = none;
  remote_chunk_ids = [];
}

abbrev pub prepend : ℕ → List Bytes → List Bytes
prepend b [] = (b ∷ []) ∷ []
prepend b (piece ∷ pieces) = (b ∷ piece) ∷ pieces

-- `path.split('/')`
unfoldable pub split : Bytes → List Bytes
split [] = [] ∷ []
split (b ∷ rest) = let pieces = split rest in if b == b'/' then [] ∷ pieces else prepend b pieces

abbrev pub starts_with_slash : Bytes → Bool
starts_with_slash [] = false
starts_with_slash (b ∷ rest) = b == b'/'

-- The test on each component of a path
abbrev pub is_special : Bytes → Bool
is_special component = is_empty component || component == bytes "." || component == bytes ".."

unfoldable pub validate_manifest_path : Bytes → ProtocolResult (Unit {0})
unfolding split
validate_manifest_path path = reject (is_empty path) (invalid_manifest_path path path_empty) (
    reject (starts_with_slash path) (invalid_manifest_path path path_absolute) (
      reject (any (λ b. b == b'\\') path) (invalid_manifest_path path path_backslash) (
        reject (any is_special (split path)) (invalid_manifest_path path path_not_normalized)
          (ok tt))))

-- `Manifest::insert`
unfoldable pub insert_entry : Bytes → ManifestEntry → Exec ProtocolError Manifest (Unit {0})
unfolding validate_manifest_path
insert_entry path entry = do
  reads λ m. validate_manifest_path path
  modify λ m. record m { entries = insert path entry m.entries }

-- `Manifest::get`
unfoldable pub get_entry : Manifest → Bytes → Option ManifestEntry
get_entry m path = get path m.entries

unfoldable pub contains_path : Manifest → Bytes → Bool
contains_path m path = contains_key path m.entries

-- `Manifest::is_empty`
unfoldable pub has_no_entries : Manifest → Bool
has_no_entries m = is_empty m.entries
