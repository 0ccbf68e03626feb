-- ===== src/Protocol/Access/Validity/Owners.antt =====
-- `active_owner_count` and the changes of the memberships.
use rustsync.Base.{ℕ, ◌+◌, ◌≤◌, ◌≡◌, refl, ◌≢◌, true, arith, if◌then◌else◌}
use rustsync.Base.{[], ◌∷◌, Bytes, none, some, bytes_ord, bytes_cmp_iff}
use rustsync.Base.Map.{BTreeMap, NodupKeys, get, insert, adjust}
use rustsync.Protocol.Access.State.{Membership, is_active_owner, count_owners}

pub count_owners-pos :
    (id : Bytes) (ms : BTreeMap Bytes Membership) (m : Membership)
    → get id ms ≡ some m
    → is_active_owner m ≡ true
    → count_owners ms ≢ 0
unfolding count_owners get
count_owners-pos id [] m e o = cc
count_owners-pos id ((j, w) ∷ ms) m e o = ground (arith, count_owners-pos id ms m)

-- A new member takes no owner away.
pub count_owners-insert :
    (id : Bytes) (m : Membership) (ms : BTreeMap Bytes Membership)
    → get id ms ≡ none
    → count_owners ms ≤ count_owners (insert id m ms)
unfolding count_owners get insert
count_owners-insert id m [] e = omega arith
count_owners-insert id m ((j, w) ∷ ms) e = ground (arith, count_owners-insert id m ms)

adjust_absent :
    (id : Bytes) (f : Membership → Membership) (ms : BTreeMap Bytes Membership)
    → get id ms ≡ none
    → adjust id f ms ≡ ms
unfolding adjust get
adjust_absent id f [] e = refl
adjust_absent id f ((j, w) ∷ ms) e = ground (arith, adjust_absent id f ms)

-- 1 for an active owner
abbrev pub weight : Membership → ℕ
weight m = if is_active_owner m then 1 else 0

-- A change of one membership changes the count by that member's weight.
pub count_owners-adjust :
    (id : Bytes) (f : Membership → Membership) (ms : BTreeMap Bytes Membership) (m : Membership)
    → NodupKeys ms
    → get id ms ≡ some m
    → count_owners (adjust id f ms) + weight m ≡ count_owners ms + weight (f m)
unfolding count_owners adjust get
count_owners-adjust id f [] m u e = cc
count_owners-adjust id f ((j, w) ∷ ms) m (fresh, u) e =
    ground (arith, count_owners-adjust id f ms m u, adjust_absent id f ms, bytes_cmp_iff id j)
