-- ===== src/Core/Reconciliation/Examples.antt =====
-- Plans and merges of small workspaces.
use rustsync.Base.{
  true, false, Bytes, bytes, bytes_ord, bytes_cmp, [], ◌∷◌, some, ◌≡◌, refl, ◌↔◌, All,
}
use rustsync.Base.Map.{get}
use rustsync.Base.Utf8.{is_utf8}
use rustsync.Base.Exec.{ok}
use rustsync.Protocol.Manifest.{Manifest, ManifestEntry, new_file, directory}
use rustsync.Core.Reconciliation.{
  ReconciliationPlan, plan_reconciliation, has_changes, entries_equal,
}
use rustsync.Core.Reconciliation.{upload, download, merge, conflict}
use rustsync.Core.Reconciliation.Reasons.{IsJustified, plan_reconciliation-IsJustified}
use rustsync.Core.Reconciliation.Symmetry.{plan_reconciliation-mirrored, mirrored_plan}
use rustsync.Core.Reconciliation.Quiet.{has_changes_iff}
use rustsync.Core.Reconciliation.Merge.{merge_text_three_way, split_inclusive}
use rustsync.Core.Reconciliation.Merge.Lines.{IsMergedText, merge_text_three_way_iff}
use rustsync.Core.Reconciliation.Merge.Lines.{
  merge_text_three_way_comm, merge_text_three_way-unchanged,
}

abbrev v : Bytes → ManifestEntry
v hash = new_file 10 hash 1700000000

-- `docs` is a directory in the base; the local side has edited a file and added one below it.
abbrev base : Manifest
base = record {
  workspace_id = bytes "home";
  entries =
      (bytes "a", v (bytes "1"))
      ∷ (bytes "b", v (bytes "1"))
      ∷ (bytes "docs", directory)
      ∷ (bytes "docs/x", v (bytes "1"))
      ∷ [];
}

abbrev local : Manifest
local = record {
  workspace_id = bytes "home";
  entries =
      (bytes "a", v (bytes "2"))
      ∷ (bytes "b", v (bytes "2"))
      ∷ (bytes "docs", directory)
      ∷ (bytes "docs/x", v (bytes "2"))
      ∷ [];
}

-- The remote side has replaced the directory by a file.
abbrev remote : Manifest
remote = record {
  workspace_id = bytes "home";
  entries =
      (bytes "a", v (bytes "1"))
      ∷ (bytes "b", v (bytes "3"))
      ∷ (bytes "c", v (bytes "1"))
      ∷ (bytes "docs", v (bytes "1"))
      ∷ [];
}

abbrev plan : ReconciliationPlan
plan = record {
  paths =
      record { path = bytes "a"; action = upload }
      ∷ record { path = bytes "b"; action = merge }
      ∷ record { path = bytes "c"; action = download }
      ∷ record { path = bytes "docs"; action = conflict }
      ∷ [];
}

planned : plan_reconciliation base local remote ≡ ok plan
unfolding plan_reconciliation get bytes_cmp
planned = refl

plan_reconciliation-IsJustified_example :
    All (λ p. IsJustified base local remote p.path p.action) plan.paths
plan_reconciliation-IsJustified_example =
    plan_reconciliation-IsJustified base local remote plan planned

plan_reconciliation-mirrored_example :
    plan_reconciliation base remote local ≡ ok (mirrored_plan plan)
plan_reconciliation-mirrored_example = plan_reconciliation-mirrored base local remote plan planned

has_changes_iff_example :
    (has_changes plan ≡ false)
    ↔ ((path : Bytes) → entries_equal (get path local.entries) (get path remote.entries) ≡ true)
has_changes_iff_example = has_changes_iff base local remote plan planned

abbrev old_text : Bytes
old_text = bytes "one\ntwo\n"

abbrev local_text : Bytes
local_text = bytes "ONE\ntwo\n"

abbrev remote_text : Bytes
remote_text = bytes "one\nTWO\n"

merged : merge_text_three_way old_text local_text remote_text ≡ some (bytes "ONE\nTWO\n")
unfolding merge_text_three_way is_utf8 bytes_cmp
merged = refl

merge_text_three_way_iff_example :
    (merge_text_three_way old_text local_text remote_text ≡ some (bytes "ONE\nTWO\n"))
    ↔ IsMergedText old_text local_text remote_text (bytes "ONE\nTWO\n")
merge_text_three_way_iff_example =
    merge_text_three_way_iff old_text local_text remote_text (bytes "ONE\nTWO\n")

merge_text_three_way_comm_example :
    merge_text_three_way old_text local_text remote_text
    ≡ merge_text_three_way old_text remote_text local_text
merge_text_three_way_comm_example = merge_text_three_way_comm old_text local_text remote_text

merge_text_three_way-unchanged_example :
    (merge_text_three_way old_text old_text local_text ≡ some local_text)
    × (merge_text_three_way old_text local_text old_text ≡ some local_text)
unfolding is_utf8 split_inclusive
merge_text_three_way-unchanged_example =
    merge_text_three_way-unchanged old_text local_text refl refl refl
