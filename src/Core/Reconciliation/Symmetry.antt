-- ===== src/Core/Reconciliation/Symmetry.antt =====
-- The plan that the other side makes.
use rustsync.Base.{Bool, true, false, bytes_ord, nat_ord}
use rustsync.Base.{
  List, [], ◌∷◌, Bytes, any, Option, none, some, ◌≡◌, refl, sym, ap, ◌∙◌, arith, bytes_cmp_iff,
}
use rustsync.Base.{bytes_cmp-flip, bytes_cmp_trans, Bool-cases, inl, inr, map}
use rustsync.Base.Map.{get, keys}
use rustsync.Base.Exec.{ok}
use rustsync.Protocol.Manifest.{Manifest, ManifestEntry, file, directory}
use rustsync.Core.Reconciliation.{ReconciliationPath, ReconciliationPlan, ReconciliationAction}
use rustsync.Core.Reconciliation.{upload, download}
use rustsync.Core.Reconciliation.{subtrees_equal, action_at, plan_paths, plan_reconciliation}
use rustsync.Core.Reconciliation.{
  reconcile_entry, when_both_changed, is_directory, differ, is_below,
}
use rustsync.Core.Reconciliation.{all_paths, is_conflict_root, insert_path, insert_paths}
use rustsync.Core.Reconciliation.Entries.{subtrees_equal_iff, Covers-refl, entries_equal_comm}
use rustsync.Core.Reconciliation.Entries.{entries_equal_trans, entries_equal-is_directory}

insert_path_comm :
    (p q : Bytes) (set : List Bytes)
    → insert_path p (insert_path q set) ≡ insert_path q (insert_path p set)
unfolding insert_path
insert_path_comm p q [] = ground (arith, bytes_cmp-flip p q, bytes_cmp_iff p q, bytes_cmp_iff q p)
insert_path_comm p q (r ∷ set) = ground (
  arith,
  insert_path_comm p q set,
  bytes_cmp-flip p q,
  bytes_cmp-flip p r,
  bytes_cmp-flip q r,
  bytes_cmp_iff p q,
  bytes_cmp_iff p r,
  bytes_cmp_iff q r,
  bytes_cmp_trans p r q,
  bytes_cmp_trans q r p,
)

insert_path-insert_paths :
    (p : Bytes) (qs set : List Bytes)
    → insert_paths qs (insert_path p set) ≡ insert_path p (insert_paths qs set)
unfolding insert_paths
insert_path-insert_paths p [] set = refl
insert_path-insert_paths p (q ∷ qs) set =
    ap (insert_path q) (insert_path-insert_paths p qs set)
    ∙ insert_path_comm q p (insert_paths qs set)

insert_paths_comm :
    (ps qs set : List Bytes)
    → insert_paths ps (insert_paths qs set) ≡ insert_paths qs (insert_paths ps set)
unfolding insert_paths
insert_paths_comm [] qs set = refl
insert_paths_comm (p ∷ ps) qs set =
    ap (insert_path p) (insert_paths_comm ps qs set)
    ∙ sym (insert_path-insert_paths p qs (insert_paths ps set))

-- The action on the other side
abbrev pub mirrored : ReconciliationAction → ReconciliationAction
mirrored upload = download
mirrored download = upload
mirrored action = action

abbrev pub mirrored_path : ReconciliationPath → ReconciliationPath
mirrored_path p = record { path = p.path; action = mirrored p.action }

abbrev pub mirrored_plan : ReconciliationPlan → ReconciliationPlan
mirrored_plan plan = record { paths = map mirrored_path plan.paths }

when_both_changed-mirrored :
    (l r : Option ManifestEntry) → when_both_changed r l ≡ mirrored (when_both_changed l r)
when_both_changed-mirrored (some (file l)) (some (file r)) = refl
when_both_changed-mirrored (some (file l)) (some directory) = refl
when_both_changed-mirrored (some (file l)) none = refl
when_both_changed-mirrored (some directory) (some (file r)) = refl
when_both_changed-mirrored (some directory) (some directory) = refl
when_both_changed-mirrored (some directory) none = refl
when_both_changed-mirrored none (some (file r)) = refl
when_both_changed-mirrored none (some directory) = refl
when_both_changed-mirrored none none = refl

reconcile_entry-mirrored :
    (b l r : Option ManifestEntry) → reconcile_entry b r l ≡ mirrored (reconcile_entry b l r)
unfolding reconcile_entry
reconcile_entry-mirrored b l r =
    ground
      (arith, entries_equal_comm l r, entries_equal_trans b l r, when_both_changed-mirrored l r)

differ_comm : (a b : Bool) → differ b a ≡ differ a b
differ_comm true true = refl
differ_comm true false = refl
differ_comm false true = refl
differ_comm false false = refl

module _ (base local remote : Manifest) where
  -- A side whose subtree is that of the base has a directory where the base has one.
  subtrees_equal-is_directory :
      (side : Manifest) (path : Bytes)
      → subtrees_equal base side path ≡ true
      → is_directory (get path base.entries) ≡ is_directory (get path side.entries)
  subtrees_equal-is_directory side path h =
      entries_equal-is_directory _ _
        ((subtrees_equal_iff base side path).0 h path (Covers-refl path))

  action_at-mirrored :
      (path : Bytes)
      → action_at base remote local path ≡ mirrored (action_at base local remote path)
  unfolding action_at
  action_at-mirrored path = ground (
    arith,
    differ_comm (is_directory (get path local.entries)) (is_directory (get path remote.entries)),
    reconcile_entry-mirrored (get path base.entries) (get path local.entries)
        (get path remote.entries),
    subtrees_equal-is_directory local path,
    subtrees_equal-is_directory remote path,
  )

  is_conflict_root_comm :
      (path : Bytes)
      → is_conflict_root base remote local path ≡ is_conflict_root base local remote path
  unfolding is_conflict_root
  is_conflict_root_comm path = ground (
    arith,
    differ_comm (is_directory (get path local.entries)) (is_directory (get path remote.entries)),
  )

  plan_paths-mirrored :
      (paths roots : List Bytes)
      → plan_paths base remote local roots paths
        ≡ map mirrored_path (plan_paths base local remote roots paths)
  unfolding plan_paths
  plan_paths-mirrored [] roots = refl
  plan_paths-mirrored (path ∷ paths) roots =
      elim (Bool-cases (any (λ root. is_below root path) roots)) [
        | inl y ↦ rw y (plan_paths-mirrored paths roots)
        | inr n ↦
            rw (n, is_conflict_root_comm path, action_at-mirrored path)
              (ap
                (λ r.
                  record { path = path; action = mirrored (action_at base local remote path) } ∷ r)
                (plan_paths-mirrored paths _))
      ]

  all_paths_comm : all_paths base remote local ≡ all_paths base local remote
  unfolding all_paths
  all_paths_comm =
      ap (insert_paths (keys base.entries))
        (insert_paths_comm (keys remote.entries) (keys local.entries) [])

  -- The other device, which sees local and remote exchanged, plans the same paths in the same order,
  -- with uploads and downloads exchanged.
  pub plan_reconciliation-mirrored :
      (plan : ReconciliationPlan)
      → plan_reconciliation base local remote ≡ ok plan
      → plan_reconciliation base remote local ≡ ok (mirrored_plan plan)
  unfolding plan_reconciliation
  plan_reconciliation-mirrored plan h =
      ground (arith, h, all_paths_comm, plan_paths-mirrored (all_paths base local remote) [])
