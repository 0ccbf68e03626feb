-- ===== src/Core/Diff/Examples.antt =====
-- The difference of two small manifests.
use rustsync.Base.{bytes, bytes_ord, bytes_cmp, [], ◌∷◌, ◌≡◌, refl}
use rustsync.Base.Map.{get}
use rustsync.Protocol.Manifest.{Manifest, new_file, directory}
use rustsync.Core.Diff.{diff_manifests, added, modified, deleted}
use rustsync.Core.Diff.Changes.{changes_about, Tells, diff_manifests-Tells}

abbrev before : Manifest
before = record {
  workspace_id = bytes "home";
  entries =
      (bytes "a", new_file 10 (bytes "1") 1)
      ∷ (bytes "b", new_file 10 (bytes "1") 1)
      ∷ (bytes "docs", directory)
      ∷ [];
}

abbrev after : Manifest
after = record {
  workspace_id = bytes "home";
  entries =
      (bytes "a", new_file 10 (bytes "1") 2)
      ∷ (bytes "b", new_file 11 (bytes "2") 2)
      ∷ (bytes "c", new_file 10 (bytes "1") 2)
      ∷ [];
}

differences :
    (diff_manifests before after).changes
    ≡ modified (bytes "b") ∷ added (bytes "c") ∷ deleted (bytes "docs") ∷ []
unfolding diff_manifests get bytes_cmp
differences = refl

diff_manifests-Tells_example :
    Tells
      (bytes "b")
      (get (bytes "b") before.entries)
      (get (bytes "b") after.entries)
      (changes_about (bytes "b") (diff_manifests before after).changes)
unfolding get bytes_cmp
diff_manifests-Tells_example =
    diff_manifests-Tells before after (bytes "b") (refl, (refl, (refl, tt)))
      (refl, (refl, (refl, tt)))
