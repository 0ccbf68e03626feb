-- ===== src/Server/Replay/Refusal.antt =====
-- Requests that `ReplayCache::check_and_record` has taken, and later ones.
use rustsync.Server.Error.{replay_detected}
use rustsync.Base.{ℕ, ◌+◌, ◌-◌, ◌≤◌, Bool, true, leb, List, [], ◌∷◌, ◌≡◌, All, arith, some}
use rustsync.Base.Map.{get, get-insert}
use rustsync.Base.Exec.{ok, err, ◌>>=◌}
use rustsync.Server.Replay.{
  replay_detected, ReplayKey, replay_key_ord, replay_key_cmp_iff, Seen, retain,
}
use rustsync.Server.Replay.{check_and_record}

-- A request that comes to the cache
pub record Request : Type 0 where
  pub key : ReplayKey
  pub timestamp : ℕ

-- The cache after requests, taken or refused
abbrev pub after_requests : ℕ → List Request → Seen → Seen
after_requests max_age [] seen = seen
after_requests max_age (r ∷ rs) seen =
    after_requests max_age rs (check_and_record r.key r.timestamp max_age seen).1

get-retain :
    (keep : ℕ → Bool) (key : ReplayKey) (t : ℕ) (seen : Seen)
    → get key seen ≡ some t
    → keep t ≡ true
    → get key (retain keep seen) ≡ some t
unfolding get retain
get-retain keep key t [] at kept = at
get-retain keep key t ((k, u) ∷ seen) at kept = ground (arith, at, kept, get-retain keep key t seen)

pub check_and_record-fresh :
    (key : ReplayKey) (t max_age : ℕ) (s u : Seen)
    → check_and_record key t max_age s ≡ (ok tt, u)
    → get key u ≡ some t
unfolding check_and_record ◌>>=◌
check_and_record-fresh key t max_age s u h = ground (
  arith,
  h,
  get-insert key key t (retain (λ seen_at. leb (t - max_age) seen_at) s),
  replay_key_cmp_iff key key,
)

check_and_record-keeps :
    (key : ReplayKey) (t max_age : ℕ) (r : Request) (s : Seen)
    → get key s ≡ some t
    → r.timestamp ≤ t + max_age
    → get key (check_and_record r.key r.timestamp max_age s).1 ≡ some t
unfolding check_and_record ◌>>=◌
check_and_record-keeps key t max_age r s at soon =
    let keep : ℕ → Bool = λ seen_at. leb (r.timestamp - max_age) seen_at in
    ground (
      arith,
      soon,
      get-retain keep key t s at (ground (arith, soon)),
      get-insert key r.key r.timestamp (retain keep s),
      replay_key_cmp_iff key r.key,
    )

after_requests-keeps :
    (key : ReplayKey) (t max_age : ℕ) (rs : List Request) (s : Seen)
    → get key s ≡ some t
    → All (λ r. r.timestamp ≤ t + max_age) rs
    → get key (after_requests max_age rs s) ≡ some t
after_requests-keeps key t max_age [] s at soon = at
after_requests-keeps key t max_age (r ∷ rs) s at (soon, more) =
    after_requests-keeps key t max_age rs _ (check_and_record-keeps key t max_age r s at soon) more

refused :
    (key : ReplayKey) (t later max_age : ℕ) (s : Seen)
    → get key s ≡ some t
    → later ≤ t + max_age
    → (check_and_record key later max_age s).0 ≡ err replay_detected
unfolding check_and_record ◌>>=◌
refused key t later max_age s at soon =
    let keep : ℕ → Bool = λ seen_at. leb (later - max_age) seen_at in
    ground (arith, get-retain keep key t s at (ground (arith, soon)))

-- After a request was taken, and whatever requests came after it whose timestamps are at most the
-- maximal age above its own, a request with the same key is refused as a replay, if its timestamp is
-- at most that far above too.
pub check_and_record-replayed :
    (key : ReplayKey) (t later max_age : ℕ) (s u : Seen) (rs : List Request)
    → check_and_record key t max_age s ≡ (ok tt, u)
    → All (λ r. r.timestamp ≤ t + max_age) rs
    → later ≤ t + max_age
    → (check_and_record key later max_age (after_requests max_age rs u)).0 ≡ err replay_detected
check_and_record-replayed key t later max_age s u rs taken between soon =
    refused key t later max_age (after_requests max_age rs u)
      (after_requests-keeps key t max_age rs u (check_and_record-fresh key t max_age s u taken)
        between)
      soon
