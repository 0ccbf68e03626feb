-- ===== src/Core/Reconciliation.antt =====
-- `crates/rustsync-core/src/reconciliation.rs`: what to do about each path when the local and the
-- remote files have both moved on from a common base.
pub mod Entries
pub mod Reasons
pub mod Symmetry
pub mod Quiet
pub mod State
pub mod Merge
pub mod Examples
use rustsync.Base.{ℕ, Bool, true, false, not, ◌&&◌, ◌||◌, if◌then◌else◌, ◌==◌, bytes_ord, nat_ord}
use rustsync.Base.{
  List, [], ◌∷◌, ◌++◌, Bytes, bytes, any, all, length, Option, none, some, Ordering,
}
use rustsync.Base.{bytes_cmp}
use rustsync.Base.Map.{BTreeMap, get, keys}
use rustsync.Base.Exec.{Result, ok, err, reject}
use rustsync.Base.Utf8.{is_utf8}
use rustsync.Protocol.Id.{starts_with}
use rustsync.Protocol.Manifest.{Manifest, ManifestEntry, file, directory}

pub data ReconciliationAction : Type 0 where
  unchanged upload download merge conflict : ReconciliationAction

pub record ReconciliationPath : Type 0 where
  pub path : Bytes
  pub action : ReconciliationAction

pub record ReconciliationPlan : Type 0 where
  pub paths : List ReconciliationPath

-- The one error of the part of `ManifestError` that planning raises
pub data ManifestError : Type 0 where
  workspace_id_mismatch : (manifest_workspace_id current_workspace_id : Bytes) → ManifestError

abbrev pub is_unchanged : ReconciliationAction → Bool
is_unchanged unchanged = true
is_unchanged _ = false

unfoldable pub has_changes : ReconciliationPlan → Bool
has_changes plan = any (λ p. not (is_unchanged p.action)) plan.paths

abbrev is_conflict : ReconciliationAction → Bool
is_conflict conflict = true
is_conflict _ = false

-- `filter` over the paths of a plan
abbrev select : (ReconciliationPath → Bool) → List ReconciliationPath → List ReconciliationPath
select test [] = []
select test (p ∷ ps) = let rest = select test ps in if test p then p ∷ rest else rest

unfoldable pub conflicts : ReconciliationPlan → List ReconciliationPath
conflicts plan = select (λ p. is_conflict p.action) plan.paths

unfoldable pub entries_equal : Option ManifestEntry → Option ManifestEntry → Bool
entries_equal none none = true
entries_equal (some directory) (some directory) = true
entries_equal (some (file left)) (some (file right)) =
    left.size == right.size && left.content_hash == right.content_hash
entries_equal _ _ = false

-- The final match of `reconcile_entry`
abbrev pub when_both_changed : Option ManifestEntry → Option ManifestEntry → ReconciliationAction
when_both_changed (some (file local)) (some (file remote)) = merge
when_both_changed _ _ = conflict

unfoldable pub reconcile_entry : (base local remote : Option ManifestEntry) → ReconciliationAction
unfolding entries_equal
reconcile_entry base local remote =
    if entries_equal local remote
    then unchanged
    else if entries_equal base local
    then download
    else if entries_equal base remote
    then upload
    else when_both_changed local remote

-- `path == root || path.starts_with(&format!("{root}/"))`
unfoldable pub is_below : Bytes → Bytes → Bool
unfolding starts_with
is_below root path = starts_with path (root ++ bytes "/")

-- The test of `subtrees_equal` on one path of either manifest
abbrev pub agrees_at : Manifest → Manifest → Bytes → Bytes → Bool
agrees_at left right root path =
    if path == root || is_below root path
    then entries_equal (get path left.entries) (get path right.entries)
    else true

unfoldable pub subtrees_equal : (left right : Manifest) → Bytes → Bool
unfolding is_below entries_equal
subtrees_equal left right root =
    all (agrees_at left right root) (keys left.entries ++ keys right.entries)

-- `matches!(entry, Some(ManifestEntry::Directory(_)))`
abbrev pub is_directory : Option ManifestEntry → Bool
is_directory (some directory) = true
is_directory _ = false

abbrev pub differ : Bool → Bool → Bool
differ true b = not b
differ false b = b

-- The paths of the three manifests in a `BTreeSet`
unfoldable pub insert_path : Bytes → List Bytes → List Bytes
insert_path p [] = p ∷ []
insert_path p (q ∷ qs) =
    let rest = insert_path p qs in
    elim (bytes_cmp p q) [
      | Ordering.lt ↦ p ∷ q ∷ qs
      | Ordering.eq ↦ q ∷ qs
      | Ordering.gt ↦ q ∷ rest
    ]

unfoldable pub insert_paths : List Bytes → List Bytes → List Bytes
unfolding insert_path
insert_paths [] set = set
insert_paths (p ∷ ps) set = insert_path p (insert_paths ps set)

module _ (base local remote : Manifest) where
  unfoldable pub all_paths : List Bytes
  unfolding insert_paths
  all_paths =
      insert_paths (keys base.entries)
        (insert_paths (keys local.entries) (insert_paths (keys remote.entries) []))

  -- The action for a path that is not below a conflict
  unfoldable pub action_at : Bytes → ReconciliationAction
  unfolding subtrees_equal reconcile_entry
  action_at path =
      let local_entry = get path local.entries in
      let remote_entry = get path remote.entries in
      if differ (is_directory local_entry) (is_directory remote_entry)
      then if subtrees_equal base local path
        then download
        else if subtrees_equal base remote path
        then upload
        else conflict
      else reconcile_entry (get path base.entries) local_entry remote_entry

  -- Whether a path becomes a root of a conflict
  unfoldable pub is_conflict_root : Bytes → Bool
  unfolding subtrees_equal
  is_conflict_root path =
      differ (is_directory (get path local.entries)) (is_directory (get path remote.entries))
      && not (subtrees_equal base local path)
      && not (subtrees_equal base remote path)

  -- The loop over the paths, with the roots of the conflicts so far
  unfoldable pub plan_paths : (conflict_roots : List Bytes) → List Bytes → List ReconciliationPath
  unfolding is_below action_at is_conflict_root
  plan_paths conflict_roots [] = []
  plan_paths conflict_roots (path ∷ paths) =
      let skipped = any (λ root. is_below root path) conflict_roots in
      let rest =
        plan_paths
          (if not skipped && is_conflict_root path
            then conflict_roots ++ (path ∷ [])
            else conflict_roots)
          paths in
      if skipped then rest else record { path = path; action = action_at path } ∷ rest

  unfoldable pub plan_reconciliation : Result ManifestError ReconciliationPlan
  unfolding plan_paths all_paths
  plan_reconciliation =
      reject
        (not (base.workspace_id == local.workspace_id)
          || not (base.workspace_id == remote.workspace_id))
        (workspace_id_mismatch local.workspace_id base.workspace_id)
        (ok record { paths = plan_paths [] all_paths })
