-- ===== src/Core/Reconciliation/Reasons.antt =====
-- Why each path of a plan has its action.
use rustsync.Base.{Bool, true, false, if◌then◌else◌, bytes_ord, nat_ord}
use rustsync.Base.{List, [], ◌∷◌, Bytes, any, All, Option, none, some, ◌≡◌, refl, arith}
use rustsync.Base.{Bool-cases, inl, inr}
use rustsync.Base.Map.{get}
use rustsync.Base.Exec.{ok}
use rustsync.Protocol.Manifest.{Manifest, ManifestEntry, FileEntry, file, directory}
use rustsync.Core.Reconciliation.{ReconciliationPlan, ReconciliationAction}
use rustsync.Core.Reconciliation.{unchanged, upload, download, merge, conflict, entries_equal}
use rustsync.Core.Reconciliation.{subtrees_equal, action_at, plan_paths, plan_reconciliation}
use rustsync.Core.Reconciliation.{
  reconcile_entry, when_both_changed, is_directory, differ, is_below,
}
use rustsync.Core.Reconciliation.{all_paths}
use rustsync.Core.Reconciliation.Entries.{subtrees_equal_iff, Covers, Covers-refl}

-- One side has left the path as it was in the base, and all paths below it too where the path is a
-- directory on one side only.
abbrev pub IsKept : (base side : Manifest) → (structural : Bool) → Bytes → Type 0
IsKept base side false path = entries_equal (get path base.entries) (get path side.entries) ≡ true
IsKept base side true path =
    (below : Bytes)
    → Covers path below
    → entries_equal (get below base.entries) (get below side.entries) ≡ true

-- The path is a directory on one side only.
abbrev pub is_structural : (local remote : Manifest) → Bytes → Bool
is_structural local remote path =
    differ (is_directory (get path local.entries)) (is_directory (get path remote.entries))

-- Both sides have changed the path or something below it.
abbrev pub IsContested : (base local remote : Manifest) → Bytes → Type 0
IsContested base local remote path =
    (subtrees_equal base local path ≡ false) × (subtrees_equal base remote path ≡ false)

-- What an action asks for
abbrev pub IsJustified : (base local remote : Manifest) → Bytes → ReconciliationAction → Type 0
IsJustified base local remote path unchanged =
    entries_equal (get path local.entries) (get path remote.entries) ≡ true
IsJustified base local remote path download =
    IsKept base local (is_structural local remote path) path
IsJustified base local remote path upload =
    IsKept base remote (is_structural local remote path) path
IsJustified base local remote path merge =
    (l : FileEntry) × (r : FileEntry) × (get path local.entries ≡ some (file l))
    × (get path remote.entries ≡ some (file r))
    × IsContested base local remote path
IsJustified base local remote path conflict = IsContested base local remote path

module _ (base local remote : Manifest) (path : Bytes) where
  -- A path that has changed makes its subtree differ.
  changed-subtrees_equal :
      (side : Manifest)
      → entries_equal (get path base.entries) (get path side.entries) ≡ false
      → subtrees_equal base side path ≡ false
  changed-subtrees_equal side h = elim (Bool-cases (subtrees_equal base side path)) [
    | inl y ↦
        let same : entries_equal (get path base.entries) (get path side.entries) ≡ true =
          (subtrees_equal_iff base side path).0 y path (Covers-refl path) in
        cc
    | inr n ↦ n
  ]

  both_changed-IsJustified :
      (l r : Option ManifestEntry)
      → get path local.entries ≡ l
      → get path remote.entries ≡ r
      → IsContested base local remote path
      → IsJustified base local remote path (when_both_changed l r)
  both_changed-IsJustified (some (file l)) (some (file r)) la ra c = (l, r, la, ra, c)
  both_changed-IsJustified (some (file l)) (some directory) la ra c = c
  both_changed-IsJustified (some (file l)) none la ra c = c
  both_changed-IsJustified (some directory) r la ra c = c
  both_changed-IsJustified none r la ra c = c

  structural-IsJustified :
      is_structural local remote path ≡ true
      → IsJustified base local remote path (
          if subtrees_equal base local path
          then download
          else if subtrees_equal base remote path
          then upload
          else conflict)
  structural-IsJustified st = elim (Bool-cases (subtrees_equal base local path)) [
    | inl y ↦ rw (y, st) ((subtrees_equal_iff base local path).0 y)
    | inr n ↦ elim (Bool-cases (subtrees_equal base remote path)) [
      | inl y ↦ rw (n, y, st) ((subtrees_equal_iff base remote path).0 y)
      | inr m ↦ rw (n, m) (n, m)
    ]
  ]

  plain-IsJustified :
      is_structural local remote path ≡ false
      → IsJustified base local remote path (
          reconcile_entry
            (get path base.entries)
            (get path local.entries)
            (get path remote.entries))
  unfolding reconcile_entry
  plain-IsJustified st =
      elim (Bool-cases (entries_equal (get path local.entries) (get path remote.entries))) [
        | inl y ↦ rw y y
        | inr n ↦
            elim (Bool-cases (entries_equal (get path base.entries) (get path local.entries))) [
              | inl y ↦ rw (n, y, st) y
              | inr m ↦
                  elim (Bool-cases
                    (entries_equal (get path base.entries) (get path remote.entries))) [
                      | inl y ↦ rw (n, m, y, st) y
                      | inr k ↦
                          rw (n, m, k)
                            (both_changed-IsJustified _ _ refl refl
                              (changed-subtrees_equal local m, changed-subtrees_equal remote k))
                    ]
            ]
      ]

  pub action_at-IsJustified : IsJustified base local remote path (action_at base local remote path)
  unfolding action_at
  action_at-IsJustified = elim (Bool-cases (is_structural local remote path)) [
    | inl y ↦ rw y (structural-IsJustified y)
    | inr n ↦ rw n (plain-IsJustified n)
  ]

module _ (base local remote : Manifest) where
  plan_paths-IsJustified :
      (paths roots : List Bytes)
      → All
          (λ p. IsJustified base local remote p.path p.action)
          (plan_paths base local remote roots paths)
  unfolding plan_paths
  plan_paths-IsJustified [] roots = tt
  plan_paths-IsJustified (path ∷ paths) roots =
      elim (Bool-cases (any (λ root. is_below root path) roots)) [
        | inl y ↦ rw y (plan_paths-IsJustified paths roots)
        | inr n ↦
            rw n (action_at-IsJustified base local remote path, plan_paths-IsJustified paths _)
      ]

  -- In a plan, a path is left alone only if both sides agree on it, taken from one side only if the
  -- other has left it as it was in the base, with all below it where it is a directory on one side
  -- only, merged only if it is a file on both sides, and merged or called a conflict only if both
  -- sides have changed it or something below it.
  pub plan_reconciliation-IsJustified :
      (plan : ReconciliationPlan)
      → plan_reconciliation base local remote ≡ ok plan
      → All (λ p. IsJustified base local remote p.path p.action) plan.paths
  unfolding plan_reconciliation
  plan_reconciliation-IsJustified plan h =
      let same : plan.paths ≡ plan_paths base local remote [] (all_paths base local remote) =
        ground arith in
      rw same (plan_paths-IsJustified (all_paths base local remote) [])
