-- ===== src/Protocol/Manifest/Paths.antt =====
-- Which paths `Manifest::insert` takes.
use rustsync.Base.{ℕ, false, ◌||◌, if◌then◌else◌, ◌==◌, bytes_ord, nat_ord, nat_cmp_iff}
use rustsync.Base.{
  List, [], ◌∷◌, ◌++◌, Bytes, any, All, is_empty, ◌≡◌, refl, ◌↔◌, ◌≢◌, arith, sym, ap, ◌∙◌,
  Bool-cases, inl, inr,
}
use rustsync.Base.Map.{get-insert}
use rustsync.Base.Exec.{ok, Settles, Settles-reads}
use rustsync.Base.{some, any-++}
use rustsync.Protocol.Manifest.{Manifest, ManifestEntry, insert_entry, get_entry}
use rustsync.Protocol.Manifest.{
  split, prepend, is_special, validate_manifest_path, starts_with_slash,
}

-- The pieces with slashes between them
abbrev pub joined : List Bytes → Bytes
joined [] = []
joined (piece ∷ []) = piece
joined (piece ∷ next ∷ pieces) = piece ++ (b'/' ∷ joined (next ∷ pieces))

-- A component of a path: not empty, not `.` nor `..`, with no slash nor backslash in it.
abbrev pub IsComponent : Bytes → Type 0
IsComponent piece = (is_special piece ≡ false) × (any (λ b. b == b'/' || b == b'\\') piece ≡ false)

-- A path: one component or more, with slashes between them.
abbrev pub IsPath : Bytes → Type 0
IsPath path =
    (pieces : List Bytes) × (pieces ≢ []) × All IsComponent pieces × (path ≡ joined pieces)

joined-prepend : (b : ℕ) (pieces : List Bytes) → joined (prepend b pieces) ≡ b ∷ joined pieces
joined-prepend b [] = refl
joined-prepend b (piece ∷ []) = refl
joined-prepend b (piece ∷ next ∷ pieces) = refl

split-cons :
    (path : Bytes) → (piece : Bytes) × (pieces : List Bytes) × (split path ≡ piece ∷ pieces)
unfolding split
split-cons [] = ([], [], refl)
split-cons (b ∷ rest) =
    let (piece, pieces, at) = split-cons rest in
    (
      (if b == b'/' then [] else b ∷ piece),
      (if b == b'/' then split rest else pieces),
      ground (arith, at),
    )

joined-split : (path : Bytes) → joined (split path) ≡ path
unfolding split
joined-split [] = refl
joined-split (b ∷ rest) =
    let (piece, pieces, at) = split-cons rest in
    ground (arith, at, joined-split rest, joined-prepend b (split rest), nat_cmp_iff b b'/')

-- No piece of a split path has a slash, nor a backslash if the path has none.
split-All :
    (path : Bytes)
    → any (λ b. b == b'\\') path ≡ false
    → All (λ piece. any (λ b. b == b'/' || b == b'\\') piece ≡ false) (split path)
unfolding split
split-All [] h = (refl, tt)
split-All (b ∷ rest) h =
    let (piece, pieces, at) = split-cons rest in
    let more = split-All rest (ground (arith, h)) in
    let (first, others) = rw at at more in
    elim (Bool-cases (b == b'/')) [
      | inl y ↦ rw y (refl, more)
      | inr n ↦ rw (n, at) (ground (arith, h, n, first), others)
    ]

All-plain :
    (pieces : List Bytes)
    → any is_special pieces ≡ false
    → All (λ piece. any (λ b. b == b'/' || b == b'\\') piece ≡ false) pieces
    → All IsComponent pieces
All-plain [] h a = tt
All-plain (piece ∷ pieces) h (plain, a) =
    ((ground (arith, h), plain), All-plain pieces (ground (arith, h)) a)

split_last :
    (piece : Bytes) → any (λ b. b == b'/' || b == b'\\') piece ≡ false → split piece ≡ piece ∷ []
unfolding split
split_last [] h = refl
split_last (b ∷ piece) h = ground (arith, h, split_last piece)

split-++ :
    (piece rest : Bytes)
    → any (λ b. b == b'/' || b == b'\\') piece ≡ false
    → split (piece ++ (b'/' ∷ rest)) ≡ piece ∷ split rest
unfolding split
split-++ [] rest h = refl
split-++ (b ∷ piece) rest h = ground (arith, h, split-++ piece rest)

split-joined :
    (pieces : List Bytes) → pieces ≢ [] → All IsComponent pieces → split (joined pieces) ≡ pieces
split-joined [] e a = absurd (e refl)
split-joined (piece ∷ []) e ((special, plain), a) = split_last piece plain
split-joined (piece ∷ next ∷ pieces) e ((special, plain), a) =
    split-++ piece (joined (next ∷ pieces)) plain
    ∙ ap (λ r. piece ∷ r) (split-joined (next ∷ pieces) (λ h. cc) a)

no_backslash :
    (piece : Bytes)
    → any (λ b. b == b'/' || b == b'\\') piece ≡ false
    → any (λ b. b == b'\\') piece ≡ false
no_backslash [] h = refl
no_backslash (b ∷ piece) h = ground (arith, h, no_backslash piece)

joined-plain :
    (pieces : List Bytes) → All IsComponent pieces → any (λ b. b == b'\\') (joined pieces) ≡ false
joined-plain [] a = refl
joined-plain (piece ∷ []) ((special, plain), a) = no_backslash piece plain
joined-plain (piece ∷ next ∷ pieces) ((special, plain), a) = ground (
  arith,
  no_backslash piece plain,
  joined-plain (next ∷ pieces) a,
  any-++ (λ b. b == b'\\') piece (b'/' ∷ joined (next ∷ pieces)),
)

no_special : (pieces : List Bytes) → All IsComponent pieces → any is_special pieces ≡ false
no_special [] a = refl
no_special (piece ∷ pieces) ((special, plain), a) = ground (arith, special, no_special pieces a)

-- A path whose pieces are no special ones is not empty and does not start with a slash.
starts_plain :
    (path : Bytes)
    → any is_special (split path) ≡ false
    → (is_empty path ≡ false) × (starts_with_slash path ≡ false)
unfolding split
starts_plain [] h = cc
starts_plain (b ∷ rest) h = (refl, ground (arith, h))

-- A path is taken exactly when it is one component or more, with slashes between them, none of them
-- empty, `.` or `..`, and none with a backslash.
pub validate_manifest_path_iff :
    (path : Bytes) → (validate_manifest_path path ≡ ok tt) ↔ IsPath path
unfolding validate_manifest_path
validate_manifest_path_iff path = (
  λ h.
      let (piece, pieces, at) = split-cons path in
      (
        split path,
        (λ e. ground (arith, at, e)),
        All-plain (split path) (ground (arith, h)) (split-All path (ground (arith, h))),
        sym (joined-split path),
      ),
  λ q.
      let (pieces, some_piece, components, at) = q in
      let pieces_back : split path ≡ pieces =
        ap split at ∙ split-joined pieces some_piece components in
      let plain : any is_special (split path) ≡ false =
        ap (any is_special) pieces_back ∙ no_special pieces components in
      let (not_empty, relative) = starts_plain path plain in
      let forward : any (λ b. b == b'\\') path ≡ false =
        ap (any (λ b. b == b'\\')) at ∙ joined-plain pieces components in
      ground (arith, plain, not_empty, relative, forward),
)

-- What an insertion leaves: the entry at the path, which is one, and all others as they were.
abbrev pub Inserted : Bytes → ManifestEntry → Manifest → Manifest → Type 0
Inserted path entry m t =
    IsPath path
    × (t.workspace_id ≡ m.workspace_id)
    × ((other : Bytes)
        → get_entry t other ≡ (if other == path then some entry else get_entry m other))

-- Inserting an entry either puts it at the path, which is one, and leaves all other paths as they
-- were, or is refused and leaves the manifest as it was.
pub insert_entry-Settles :
    (path : Bytes) (entry : ManifestEntry) (m : Manifest)
    → Settles (λ u t. Inserted path entry m t) m (insert_entry path entry m)
unfolding insert_entry get_entry
insert_entry-Settles path entry m = Settles-reads _ m _ _ λ u valid. (
  (validate_manifest_path_iff path).0 valid,
  refl,
  λ other. get-insert other path entry m.entries,
)
