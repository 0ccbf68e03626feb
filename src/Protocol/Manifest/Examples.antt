-- ===== src/Protocol/Manifest/Examples.antt =====
-- A path of two components.
use rustsync.Base.{Bytes, bytes, [], ◌∷◌, ◌≡◌, refl, ◌↔◌, bytes_ord, bytes_cmp}
use rustsync.Base.Map.{insert}
use rustsync.Base.Exec.{ok, err, Settles, ◌>>=◌}
use rustsync.Protocol.Error.{invalid_manifest_path, path_not_normalized}
use rustsync.Protocol.Manifest.{Manifest, new, new_file, insert_entry, validate_manifest_path}
use rustsync.Protocol.Manifest.Paths.{
  IsPath, validate_manifest_path_iff, Inserted, insert_entry-Settles,
}

abbrev notes : Bytes
notes = bytes "docs/notes.md"

abbrev fresh : Manifest
fresh = new (bytes "home")

inserted :
    insert_entry notes (new_file 10 (bytes "1") 1700000000) fresh
    ≡ (ok tt, record fresh { entries = (notes, new_file 10 (bytes "1") 1700000000) ∷ [] })
unfolding insert_entry ◌>>=◌ bytes_cmp insert
inserted = refl

escaping :
    validate_manifest_path (bytes "docs/../x")
    ≡ err (invalid_manifest_path (bytes "docs/../x") path_not_normalized)
unfolding validate_manifest_path bytes_cmp
escaping = refl

validate_manifest_path_iff_example : (validate_manifest_path notes ≡ ok tt) ↔ IsPath notes
validate_manifest_path_iff_example = validate_manifest_path_iff notes

insert_entry-Settles_example :
    Settles
      (λ u t. Inserted notes (new_file 10 (bytes "1") 1700000000) fresh t)
      fresh
      (insert_entry notes (new_file 10 (bytes "1") 1700000000) fresh)
insert_entry-Settles_example = insert_entry-Settles notes (new_file 10 (bytes "1") 1700000000) fresh
