-- ===== src/Server/Replay.antt =====
-- `crates/rustsync-server/src/auth/replay.rs`, and the timestamp test of
-- `crates/rustsync-server/src/auth/middleware.rs` that comes before it. The clock is an argument.
pub mod Refusal
pub mod Examples
use rustsync.Server.Error.{ServerError, replay_detected, auth_timestamp_outside_window}
use rustsync.Base.{
  ℕ, ◌+◌, ◌-◌, Bool, true, false, if◌then◌else◌, leb, ltb, List, [], ◌∷◌, Bytes, ◌≡◌, ◌↔◌, arith,
}
use rustsync.Base.{Ord, Ordering, then_cmp, bytes_cmp, bytes_cmp_iff}
use rustsync.Base.Map.{BTreeMap, get, insert, contains_key}
use rustsync.Base.Exec.{Exec, Result, ok, err, reject, reads, modify, ◌>>=◌, ◌>>◌}

pub record ReplayKey : Type 0 where
  pub workspace_id : Bytes
  pub device_id : Bytes
  pub nonce : Bytes

-- An order whose equality is the derived `==`; the source hashes the keys.
abbrev pub replay_key_cmp : ReplayKey → ReplayKey → Ordering
replay_key_cmp a b =
    then_cmp (bytes_cmp a.workspace_id b.workspace_id)
      (then_cmp (bytes_cmp a.device_id b.device_id) (bytes_cmp a.nonce b.nonce))

pub replay_key_cmp_iff : (a b : ReplayKey) → (replay_key_cmp a b ≡ Ordering.eq) ↔ (a ≡ b)
replay_key_cmp_iff a b = (
  λ h. ground (
    arith,
    bytes_cmp_iff a.workspace_id b.workspace_id,
    bytes_cmp_iff a.device_id b.device_id,
    bytes_cmp_iff a.nonce b.nonce,
  ),
  λ h. ground (
    arith,
    bytes_cmp_iff a.workspace_id b.workspace_id,
    bytes_cmp_iff a.device_id b.device_id,
    bytes_cmp_iff a.nonce b.nonce,
  ),
)

instance abbrev pub replay_key_ord : Ord ReplayKey
replay_key_ord = record { cmp = replay_key_cmp; cmp_iff = replay_key_cmp_iff }

-- What the mutex of the cache guards: when each key was seen
abbrev pub Seen : Type 0
Seen = BTreeMap ReplayKey ℕ

-- `HashMap::retain` by the value
unfoldable pub retain : (ℕ → Bool) → Seen → Seen
retain keep [] = []
retain keep ((key, timestamp) ∷ seen) =
    let rest = retain keep seen in if keep timestamp then (key, timestamp) ∷ rest else rest

-- `ReplayCache::check_and_record`; the subtraction of the source stops at 0 too.
unfoldable pub check_and_record :
    ReplayKey → (timestamp max_age_seconds : ℕ) → Exec ServerError Seen (Unit {0})
unfolding retain
check_and_record key timestamp max_age_seconds = do
  modify (retain (λ seen_at. leb (timestamp - max_age_seconds) seen_at))
  reads λ seen. reject (contains_key key seen) replay_detected (ok tt)
  modify (insert key timestamp)

abbrev pub max_timestamp_skew_seconds : ℕ
max_timestamp_skew_seconds = 300

-- `u64::abs_diff`
abbrev pub abs_diff : ℕ → ℕ → ℕ
abs_diff a b = (a - b) + (b - a)

unfoldable pub validate_timestamp : (now timestamp : ℕ) → Result ServerError (Unit {0})
validate_timestamp now timestamp =
    reject (ltb max_timestamp_skew_seconds (abs_diff now timestamp)) auth_timestamp_outside_window
      (ok tt)
