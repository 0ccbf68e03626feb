-- ===== src/Core/Reconciliation/Entries.antt =====
-- The equality of entries and of subtrees.
use rustsync.Base.{Bool, true, ◌&&◌, ◌||◌, ◌==◌, bytes_ord, nat_ord}
use rustsync.Base.{
  List, [], ◌∷◌, ◌++◌, Bytes, all, Option, none, some, ◌≡◌, refl, ◌↔◌, arith, bytes_cmp_iff,
}
use rustsync.Base.Map.{BTreeMap, get, keys}
use rustsync.Protocol.Manifest.{Manifest, ManifestEntry, file, directory}
use rustsync.Core.Reconciliation.{entries_equal, is_directory, agrees_at, subtrees_equal, is_below}

pub entries_equal_refl : (a : Option ManifestEntry) → entries_equal a a ≡ true
unfolding entries_equal
entries_equal_refl none = refl
entries_equal_refl (some directory) = refl
entries_equal_refl (some (file f)) = ground (arith, bytes_cmp_iff f.content_hash f.content_hash)

pub entries_equal_comm : (a b : Option ManifestEntry) → entries_equal a b ≡ entries_equal b a
unfolding entries_equal
entries_equal_comm none none = refl
entries_equal_comm none (some directory) = refl
entries_equal_comm none (some (file g)) = refl
entries_equal_comm (some directory) none = refl
entries_equal_comm (some directory) (some directory) = refl
entries_equal_comm (some directory) (some (file g)) = refl
entries_equal_comm (some (file f)) none = refl
entries_equal_comm (some (file f)) (some directory) = refl
entries_equal_comm (some (file f)) (some (file g)) = ground (
  arith,
  bytes_cmp_iff f.content_hash g.content_hash,
  bytes_cmp_iff g.content_hash f.content_hash,
)

pub entries_equal_trans :
    (a b c : Option ManifestEntry)
    → entries_equal a b ≡ true
    → entries_equal a c ≡ true
    → entries_equal b c ≡ true
unfolding entries_equal
entries_equal_trans none none none h i = refl
entries_equal_trans (some directory) (some directory) (some directory) h i = refl
entries_equal_trans (some (file f)) (some (file g)) (some (file k)) h i = ground (
  arith,
  h,
  i,
  bytes_cmp_iff f.content_hash g.content_hash,
  bytes_cmp_iff f.content_hash k.content_hash,
  bytes_cmp_iff g.content_hash k.content_hash,
)
entries_equal_trans none none (some c) h i = cc
entries_equal_trans none (some b) c h i = cc
entries_equal_trans (some (file f)) none c h i = cc
entries_equal_trans (some (file f)) (some (file g)) none h i = cc
entries_equal_trans (some (file f)) (some (file g)) (some directory) h i = cc
entries_equal_trans (some (file f)) (some directory) c h i = cc
entries_equal_trans (some directory) none c h i = cc
entries_equal_trans (some directory) (some (file g)) c h i = cc
entries_equal_trans (some directory) (some directory) none h i = cc
entries_equal_trans (some directory) (some directory) (some (file k)) h i = cc

-- Equal entries are both directories or both not.
pub entries_equal-is_directory :
    (a b : Option ManifestEntry) → entries_equal a b ≡ true → is_directory a ≡ is_directory b
unfolding entries_equal
entries_equal-is_directory none none h = refl
entries_equal-is_directory (some directory) (some directory) h = refl
entries_equal-is_directory (some (file f)) (some (file g)) h = refl
entries_equal-is_directory none (some b) h = cc
entries_equal-is_directory (some (file f)) none h = cc
entries_equal-is_directory (some (file f)) (some directory) h = cc
entries_equal-is_directory (some directory) none h = cc
entries_equal-is_directory (some directory) (some (file g)) h = cc

all-++ : {A : Type 0} (p : A → Bool) (xs ys : List A) → all p (xs ++ ys) ≡ (all p xs && all p ys)
all-++ p [] ys = refl
all-++ p (x ∷ xs) ys = ground (arith, all-++ p xs ys)

all-keys :
    {V : Type 0} (p : Bytes → Bool) (k : Bytes) (v : V) (m : BTreeMap Bytes V)
    → get k m ≡ some v
    → all p (keys m) ≡ true
    → p k ≡ true
unfolding get
all-keys p k v [] at h = cc
all-keys p k v ((j, w) ∷ m) at h = ground (arith, at, h, all-keys p k v m, bytes_cmp_iff k j)

all-always : {A : Type 0} (p : A → Bool) (xs : List A) → ((x : A) → p x ≡ true) → all p xs ≡ true
all-always p [] h = refl
all-always p (x ∷ xs) h = ground (arith, h x, all-always p xs h)

-- The root of a subtree or a path below it
abbrev pub Covers : Bytes → Bytes → Type 0
Covers root path = (path == root || is_below root path) ≡ true

pub Covers-refl : (root : Bytes) → Covers root root
Covers-refl root = ground (arith, bytes_cmp_iff root root)

module _ (left right : Manifest) (root : Bytes) where
  agrees_at-known :
      (path : Bytes) (a b : Option ManifestEntry)
      → get path left.entries ≡ a
      → get path right.entries ≡ b
      → all (agrees_at left right root) (keys left.entries) ≡ true
      → all (agrees_at left right root) (keys right.entries) ≡ true
      → Covers root path
      → entries_equal a b ≡ true
  unfolding entries_equal
  agrees_at-known path none none la rb l r c = refl
  agrees_at-known path (some a) b la rb l r c =
      ground (arith, la, rb, c, all-keys (agrees_at left right root) path a left.entries la l)
  agrees_at-known path none (some b) la rb l r c =
      ground (arith, la, rb, c, all-keys (agrees_at left right root) path b right.entries rb r)

  -- Two subtrees are equal when the entries at their root and at every path below it are.
  pub subtrees_equal_iff : (subtrees_equal left right root ≡ true) ↔ (
      (path : Bytes)
      → Covers root path
      → entries_equal (get path left.entries) (get path right.entries) ≡ true)
  unfolding subtrees_equal
  subtrees_equal_iff = (
    λ h path c.
        let both = all-++ (agrees_at left right root) (keys left.entries) (keys right.entries) in
        agrees_at-known path _ _ refl refl (ground (arith, h, both)) (ground (arith, h, both)) c,
    λ h.
        all-always (agrees_at left right root) (keys left.entries ++ keys right.entries)
          λ path. ground (arith, h path),
  )
