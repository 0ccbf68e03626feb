-- ===== src/Core/Diff/Changes.antt =====
-- The changes that `diff_manifests` lists.
use rustsync.Base.{if◌then◌else◌, ◌==◌, bytes_ord, nat_ord}
use rustsync.Base.{
  List, [], ◌∷◌, ◌++◌, Bytes, Option, none, some, ◌≡◌, ◌≢◌, refl, sym, subst, arith,
}
use rustsync.Base.{◌⊎◌, inl, inr, Bool-cases}
use rustsync.Base.{bytes_cmp_iff}
use rustsync.Base.Map.{BTreeMap, get, contains_key, NodupKeys}
use rustsync.Protocol.Manifest.{Manifest, ManifestEntry, FileEntry, file, directory}
use rustsync.Core.Diff.{
  ManifestChange, added, modified, deleted, new_entry_change, push, new_changes, entry_changed,
}
use rustsync.Core.Diff.{deletions, diff_manifests}

abbrev path_of : ManifestChange → Bytes
path_of (added path) = path
path_of (modified path) = path
path_of (deleted path) = path

-- The changes of the list that are about the path
abbrev pub changes_about : Bytes → List ManifestChange → List ManifestChange
changes_about path [] = []
changes_about path (change ∷ changes) =
    if path == path_of change
    then change ∷ changes_about path changes
    else changes_about path changes

-- What the entries of a path before and after tell of it: the changes to list
pub data Tells (path : Bytes)
    : Option ManifestEntry → Option ManifestEntry → List ManifestChange → Type 0 where
  never_there : Tells path none none []
  appeared : (new : ManifestEntry) → Tells path none (some new) (added path ∷ [])
  vanished : (old : ManifestEntry) → Tells path (some old) none (deleted path ∷ [])
  still_directory : Tells path (some directory) (some directory) []
  became_file :
      (new : FileEntry) → Tells path (some directory) (some (file new)) (modified path ∷ [])
  became_directory :
      (old : FileEntry) → Tells path (some (file old)) (some directory) (modified path ∷ [])
  same_content :
      (old new : FileEntry)
      → old.size ≡ new.size
      → old.content_hash ≡ new.content_hash
      → Tells path (some (file old)) (some (file new)) []
  edited :
      (old new : FileEntry)
      → (old.size ≢ new.size) ⊎ (old.content_hash ≢ new.content_hash)
      → Tells path (some (file old)) (some (file new)) (modified path ∷ [])

-- What the two loops together list about a path
abbrev change_between : Bytes → (old new : Option ManifestEntry) → Option ManifestChange
change_between path old (some new_entry) = new_entry_change path old new_entry
change_between path (some old_entry) none = some (deleted path)
change_between path none none = none

edited_or_not :
    (path : Bytes) (old new : FileEntry)
    → Tells path
        (some (file old))
        (some (file new))
        (push (change_between path (some (file old)) (some (file new))) [])
unfolding entry_changed
edited_or_not path old new = elim (Bool-cases (old.size == new.size)) [
  | inr other ↦ rw other (edited old new (inl (ground (arith, other))))
  | inl size ↦ elim (Bool-cases (old.content_hash == new.content_hash)) [
    | inr other ↦
        rw (size, other)
          (edited old new
            (inr (ground (arith, other, bytes_cmp_iff old.content_hash new.content_hash))))
    | inl hash ↦
        rw (size, hash)
          (same_content old new (ground (arith, size))
            (ground (arith, hash, bytes_cmp_iff old.content_hash new.content_hash)))
  ]
]

change_between-Tells :
    (path : Bytes) (old new : Option ManifestEntry)
    → Tells path old new (push (change_between path old new) [])
unfolding entry_changed
change_between-Tells path none none = never_there
change_between-Tells path (some old) none = vanished old
change_between-Tells path none (some new) = appeared new
change_between-Tells path (some directory) (some directory) = still_directory
change_between-Tells path (some directory) (some (file new)) = became_file new
change_between-Tells path (some (file old)) (some directory) = became_directory old
change_between-Tells path (some (file old)) (some (file new)) = edited_or_not path old new

changes_about-++ :
    (path : Bytes) (xs ys : List ManifestChange)
    → changes_about path (xs ++ ys) ≡ changes_about path xs ++ changes_about path ys
changes_about-++ path [] ys = refl
changes_about-++ path (c ∷ xs) ys = ground (arith, changes_about-++ path xs ys)

changes_about-new_changes :
    (path : Bytes) (old m : BTreeMap Bytes ManifestEntry)
    → NodupKeys m
    → changes_about path (new_changes old m)
      ≡ elim (get path m) [ none ↦ [] | some e ↦ push (new_entry_change path (get path old) e) [] ]
unfolding new_changes get
changes_about-new_changes path old [] d = refl
changes_about-new_changes path old ((p, e) ∷ m) (fresh, d) =
    ground (arith, changes_about-new_changes path old m d, fresh, bytes_cmp_iff path p)

changes_about-deletions :
    (path : Bytes) (new m : BTreeMap Bytes ManifestEntry)
    → NodupKeys m
    → changes_about path (deletions new m) ≡ elim (get path m) [
      | none ↦ []
      | some e ↦ if contains_key path new then [] else deleted path ∷ []
    ]
unfolding deletions get
changes_about-deletions path new [] d = refl
changes_about-deletions path new ((p, e) ∷ m) (fresh, d) =
    ground (arith, changes_about-deletions path new m d, fresh, bytes_cmp_iff path p)

changes_about-diff_manifests :
    (old new : Manifest) (path : Bytes)
    → NodupKeys old.entries
    → NodupKeys new.entries
    → changes_about path (diff_manifests old new).changes
      ≡ push (change_between path (get path old.entries) (get path new.entries)) []
unfolding diff_manifests
changes_about-diff_manifests old new path od nd = ground (
  arith,
  changes_about-++ path (new_changes old.entries new.entries) (deletions new.entries old.entries),
  changes_about-new_changes path old.entries new.entries nd,
  changes_about-deletions path new.entries old.entries od,
)

-- Where keys are unique, the difference of two manifests lists about each path what its entries
-- before and after tell: one addition, one deletion, one modification if the kind, the size or the
-- content hash differs, and nothing else.
pub diff_manifests-Tells :
    (old new : Manifest) (path : Bytes)
    → NodupKeys old.entries
    → NodupKeys new.entries
    → Tells path
        (get path old.entries)
        (get path new.entries)
        (changes_about path (diff_manifests old new).changes)
diff_manifests-Tells old new path od nd =
    subst (Tells path (get path old.entries) (get path new.entries))
      (sym (changes_about-diff_manifests old new path od nd))
      (change_between-Tells path (get path old.entries) (get path new.entries))
