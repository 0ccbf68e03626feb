-- ===== src/Server/Replay/Examples.antt =====
-- Three requests of two devices.
use rustsync.Server.Error.{replay_detected}
use rustsync.Base.{bytes, [], ◌∷◌, ◌≡◌, refl, bytes_cmp, arith}
use rustsync.Base.Map.{get, insert}
use rustsync.Base.Exec.{ok, err, ◌>>=◌}
use rustsync.Server.Replay.{ReplayKey, Seen, check_and_record, validate_timestamp}
use rustsync.Server.Replay.{max_timestamp_skew_seconds}
use rustsync.Server.Replay.Refusal.{after_requests, check_and_record-replayed}

abbrev first : ReplayKey
first = record {
  workspace_id = bytes "home";
  device_id = bytes "device_laptop";
  nonce = bytes "n1";
}

abbrev second : ReplayKey
second = record {
  workspace_id = bytes "home";
  device_id = bytes "device_phone";
  nonce = bytes "n2";
}

abbrev seen_first : Seen
seen_first = (first, 990) ∷ []

first_taken : check_and_record first 990 max_timestamp_skew_seconds [] ≡ (ok tt, seen_first)
unfolding check_and_record ◌>>=◌ get insert
first_taken = refl

check_and_record-replayed_example :
    (check_and_record first 990 max_timestamp_skew_seconds (
      after_requests max_timestamp_skew_seconds
        (record { key = second; timestamp = 1200 } ∷ [])
        seen_first)).0
    ≡ err replay_detected
check_and_record-replayed_example =
    check_and_record-replayed first 990 990 max_timestamp_skew_seconds [] seen_first
      (record { key = second; timestamp = 1200 } ∷ []) first_taken (omega arith, tt) (omega arith)

-- At the time 1000 all these timestamps are in the window, yet the first request is taken twice when
-- one that is stamped 1300 comes between.
in_window : validate_timestamp 1000 990 ≡ ok tt
unfolding validate_timestamp
in_window = refl

ahead_in_window : validate_timestamp 1000 1300 ≡ ok tt
unfolding validate_timestamp
ahead_in_window = refl

taken_twice :
    (check_and_record first 990 max_timestamp_skew_seconds (
      after_requests max_timestamp_skew_seconds
        (record { key = second; timestamp = 1300 } ∷ [])
        seen_first)).0
    ≡ ok tt
unfolding check_and_record ◌>>=◌ get insert bytes_cmp
taken_twice = refl
