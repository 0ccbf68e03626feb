-- ===== src/Core/Reconciliation/Merge.antt =====
-- `merge_text_three_way` of `crates/rustsync-core/src/reconciliation.rs`.
pub mod Lines
use rustsync.Base.{ℕ, Bool, true, false, not, ◌&&◌, ◌||◌, if◌then◌else◌, ◌==◌, bytes_ord, nat_ord}
use rustsync.Base.{List, [], ◌∷◌, ◌++◌, Bytes, length, Option, none, some}
use rustsync.Base.Utf8.{is_utf8}

-- A byte in front of the first line
abbrev pub prepend : ℕ → List Bytes → List Bytes
prepend b [] = (b ∷ []) ∷ []
prepend b (line ∷ lines) = (b ∷ line) ∷ lines

-- `text.split_inclusive('\n')`
unfoldable pub split_inclusive : Bytes → List Bytes
split_inclusive [] = []
split_inclusive (b ∷ rest) =
    let lines = split_inclusive rest in if b == b'\n' then (b ∷ []) ∷ lines else prepend b lines

-- The match on which side has changed a line
unfoldable pub merge_line : (base local remote : Bytes) → Option Bytes
merge_line base local remote =
    let local_changed = not (local == base) in
    let remote_changed = not (remote == base) in
    if not local_changed && not remote_changed
    then some base
    else if local_changed && not remote_changed
    then some local
    else if not local_changed && remote_changed
    then some remote
    else if local == remote
    then some local
    else none

abbrev pub push_line : Option Bytes → Option Bytes → Option Bytes
push_line (some line) (some merged) = some (line ++ merged)
push_line _ _ = none

-- The loop over the lines of the three versions side by side
unfoldable pub merge_lines : (base local remote : List Bytes) → Option Bytes
unfolding merge_line
merge_lines (b ∷ base) (l ∷ local) (r ∷ remote) =
    let merged = merge_lines base local remote in push_line (merge_line b l r) merged
merge_lines _ _ _ = some []

unfoldable pub merge_text_three_way : (base local remote : Bytes) → Option Bytes
unfolding merge_lines split_inclusive
merge_text_three_way base local remote =
    let base_lines = split_inclusive base in
    let local_lines = split_inclusive local in
    let remote_lines = split_inclusive remote in
    if not (is_utf8 base)
    then none
    else if not (is_utf8 local)
    then none
    else if not (is_utf8 remote)
    then none
    else if not (length base_lines == length local_lines)
        || not (length base_lines == length remote_lines)
    then none
    else merge_lines base_lines local_lines remote_lines
