-- ===== src/Core/Reconciliation/Quiet.antt =====
-- The plans without changes.
use rustsync.Base.{true, false, not, if◌then◌else◌, ◌==◌, bytes_ord, nat_ord, Ordering}
use rustsync.Base.{
  List, [], ◌∷◌, ◌++◌, Bytes, any, All, Option, none, some, ◌≡◌, refl, sym, ◌↔◌, arith,
}
use rustsync.Base.{bytes_cmp, bytes_cmp_iff, subst, Bool-cases, inl, inr}
use rustsync.Base.Map.{BTreeMap, get, keys}
use rustsync.Base.Exec.{ok}
use rustsync.Protocol.Manifest.{Manifest, ManifestEntry}
use rustsync.Core.Reconciliation.{ReconciliationPath, ReconciliationPlan, ReconciliationAction}
use rustsync.Core.Reconciliation.{
  unchanged, upload, download, merge, conflict, entries_equal, has_changes, is_unchanged,
}
use rustsync.Core.Reconciliation.{action_at, plan_paths, plan_reconciliation}
use rustsync.Core.Reconciliation.{all_paths, is_conflict_root, insert_path, insert_paths}
use rustsync.Core.Reconciliation.{reconcile_entry}
use rustsync.Core.Reconciliation.Entries.{entries_equal-is_directory}
use rustsync.Core.Reconciliation.Reasons.{action_at-IsJustified, IsJustified}

module _ (P : Bytes → Type 0) where
  All-placed :
      (p q : Bytes) (set rest : List Bytes) (o : Ordering)
      → bytes_cmp p q ≡ o
      → (All P rest → P p × All P set)
      → All P
          (elim o [ Ordering.lt ↦ p ∷ q ∷ set | Ordering.eq ↦ q ∷ set | Ordering.gt ↦ q ∷ rest ])
      → P p × (P q × All P set)
  All-placed p q set rest Ordering.lt c below h = h
  All-placed p q set rest Ordering.eq c below h = (subst P (sym ((bytes_cmp_iff p q).0 c)) h.0, h)
  All-placed p q set rest Ordering.gt c below (hq, more) =
      let (hp, others) = below more in (hp, (hq, others))

  All-insert_path : (p : Bytes) (set : List Bytes) → All P (insert_path p set) → P p × All P set
  unfolding insert_path
  All-insert_path p [] h = h
  All-insert_path p (q ∷ set) h =
      All-placed p q set (insert_path p set) (bytes_cmp p q) refl (All-insert_path p set) h

  All-insert_paths : (ps set : List Bytes) → All P (insert_paths ps set) → All P ps × All P set
  unfolding insert_paths
  All-insert_paths [] set h = (tt, h)
  All-insert_paths (p ∷ ps) set h =
      let (hp, more) = All-insert_path p (insert_paths ps set) h in
      let (hps, rest) = All-insert_paths ps set more in ((hp, hps), rest)

  All-keys :
      {V : Type 0} (m : BTreeMap Bytes V) (k : Bytes) (v : V)
      → All P (keys m)
      → get k m ≡ some v
      → P k
  unfolding get
  All-keys [] k v h at = cc
  All-keys ((j, w) ∷ m) k v (hj, more) at = elim (Bool-cases (k == j)) [
    | inl y ↦ let same : k ≡ j = ground (arith, y, bytes_cmp_iff k j) in subst P (sym same) hj
    | inr n ↦ All-keys m k v more (ground (arith, at, n))
  ]

module _ (base local remote : Manifest) where
  abbrev Agree : Bytes → Type 0
  Agree path = entries_equal (get path local.entries) (get path remote.entries) ≡ true

  Agree-outside :
      (path : Bytes) (a b : Option ManifestEntry)
      → All Agree (keys local.entries)
      → All Agree (keys remote.entries)
      → get path local.entries ≡ a
      → get path remote.entries ≡ b
      → Agree path
  unfolding entries_equal
  Agree-outside path (some a) b l r la rb = All-keys Agree local.entries path a l la
  Agree-outside path none (some b) l r la rb = All-keys Agree remote.entries path b r rb
  Agree-outside path none none l r la rb = rw (la, rb) refl

  action_at-agreed : (path : Bytes) → Agree path → action_at base local remote path ≡ unchanged
  unfolding action_at reconcile_entry
  action_at-agreed path h =
      ground
        (arith, h, entries_equal-is_directory (get path local.entries) (get path remote.entries) h)

  quiet_plan :
      (paths roots : List Bytes)
      → ((path : Bytes) → Agree path)
      → any (λ p. not (is_unchanged p.action)) (plan_paths base local remote roots paths) ≡ false
  unfolding plan_paths
  quiet_plan [] roots h = refl
  quiet_plan (path ∷ paths) roots h = ground (
    arith,
    quiet_plan paths roots h,
    quiet_plan paths (roots ++ (path ∷ [])) h,
    action_at-agreed path (h path),
  )

  unchanged_conflict :
      (path : Bytes)
      → is_conflict_root base local remote path ≡ true
      → action_at base local remote path ≡ conflict
  unfolding is_conflict_root action_at
  unchanged_conflict path h = ground (arith, h)

  plan_paths-first :
      (path : Bytes) (paths : List Bytes)
      → plan_paths base local remote [] (path ∷ paths)
        ≡ record { path = path; action = action_at base local remote path }
          ∷ plan_paths base local remote
              (if is_conflict_root base local remote path then path ∷ [] else [])
              paths
  unfolding plan_paths
  plan_paths-first path paths = refl

  abbrev IsQuiet : List ReconciliationPath → Type 0
  IsQuiet ps = any (λ p. not (is_unchanged p.action)) ps ≡ false

  is_unchanged_only : (a : ReconciliationAction) → not (is_unchanged a) ≡ false → a ≡ unchanged
  is_unchanged_only unchanged h = refl
  is_unchanged_only upload h = cc
  is_unchanged_only download h = cc
  is_unchanged_only merge h = cc
  is_unchanged_only conflict h = cc

  IsQuiet-cons :
      (p : ReconciliationPath) (ps : List ReconciliationPath)
      → IsQuiet (p ∷ ps)
      → (p.action ≡ unchanged) × IsQuiet ps
  IsQuiet-cons p ps h = (is_unchanged_only p.action (ground (arith, h)), ground (arith, h))

  quiet-All :
      (paths : List Bytes) → IsQuiet (plan_paths base local remote [] paths) → All Agree paths
  quiet-All [] h = tt
  quiet-All (path ∷ paths) h =
      let (as_it_is, rest) =
        IsQuiet-cons (record { path = path; action = action_at base local remote path })
          (plan_paths base local remote
            (if is_conflict_root base local remote path then path ∷ [] else []) paths)
          (subst IsQuiet (plan_paths-first path paths) h) in
      let no_root : is_conflict_root base local remote path ≡ false =
        ground (arith, as_it_is, unchanged_conflict path) in
      (
        subst (IsJustified base local remote path) as_it_is
            (action_at-IsJustified base local remote path),
        quiet-All paths (rw no_root at rest),
      )

  -- A plan has no changes exactly when the local and the remote entries are equal at every path.
  pub has_changes_iff :
      (plan : ReconciliationPlan)
      → plan_reconciliation base local remote ≡ ok plan
      → (has_changes plan ≡ false)
        ↔ ((path : Bytes) → entries_equal (get path local.entries) (get path remote.entries) ≡ true)
  unfolding plan_reconciliation has_changes all_paths
  has_changes_iff plan h =
      let paths = all_paths base local remote in
      let same : plan.paths ≡ plan_paths base local remote [] paths = ground (arith, h) in
      (
        λ q path.
            let everywhere : All Agree paths = quiet-All paths (rw same at q) in
            let (in_base, others) = All-insert_paths Agree (keys base.entries) _ everywhere in
            let (in_local, more) = All-insert_paths Agree (keys local.entries) _ others in
            let (in_remote, none_left) = All-insert_paths Agree (keys remote.entries) [] more in
            Agree-outside path _ _ in_local in_remote refl refl,
        λ q. rw same (quiet_plan paths [] q),
      )
