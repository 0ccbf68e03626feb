-- ===== src/Core/Diff.antt =====
-- `crates/rustsync-core/src/manifest/diff.rs`: what has changed between two manifests.
pub mod Changes
pub mod Examples
use rustsync.Base.{
  ℕ, Bool, true, false, not, ◌||◌, if◌then◌else◌, ◌==◌, bytes_ord, nat_ord, length, is_empty,
}
use rustsync.Base.{List, [], ◌∷◌, ◌++◌, Bytes, Option, none, some}
use rustsync.Base.Map.{BTreeMap, get, contains_key}
use rustsync.Protocol.Manifest.{Manifest, ManifestEntry, file, directory}

pub data ManifestChange : Type 0 where
  added modified deleted : (path : Bytes) → ManifestChange

pub record ManifestDiff : Type 0 where
  pub changes : List ManifestChange

abbrev pub has_no_changes : ManifestDiff → Bool
has_no_changes diff = is_empty diff.changes

-- `ManifestDiff::len`
abbrev pub len : ManifestDiff → ℕ
len diff = length diff.changes

unfoldable pub entry_changed : (old new : ManifestEntry) → Bool
entry_changed (file old) (file new) =
    not (old.size == new.size) || not (old.content_hash == new.content_hash)
entry_changed directory directory = false
entry_changed _ _ = true

-- The match of the first loop on the old entry
abbrev pub new_entry_change : Bytes → Option ManifestEntry → ManifestEntry → Option ManifestChange
new_entry_change path none new_entry = some (added path)
new_entry_change path (some old_entry) new_entry =
    if entry_changed old_entry new_entry then some (modified path) else none

abbrev pub push : Option ManifestChange → List ManifestChange → List ManifestChange
push none changes = changes
push (some change) changes = change ∷ changes

-- The loop over the new entries
unfoldable pub new_changes :
    (old : BTreeMap Bytes ManifestEntry) → BTreeMap Bytes ManifestEntry → List ManifestChange
unfolding entry_changed
new_changes old [] = []
new_changes old ((path, new_entry) ∷ entries) =
    push (new_entry_change path (get path old) new_entry) (new_changes old entries)

-- The loop over the old keys
unfoldable pub deletions :
    (new : BTreeMap Bytes ManifestEntry) → BTreeMap Bytes ManifestEntry → List ManifestChange
deletions new [] = []
deletions new ((path, old_entry) ∷ entries) =
    push (if not (contains_key path new) then some (deleted path) else none) (deletions new entries)

unfoldable pub diff_manifests : (old new : Manifest) → ManifestDiff
unfolding new_changes deletions
diff_manifests old new = record {
  changes = new_changes old.entries new.entries ++ deletions new.entries old.entries;
}
