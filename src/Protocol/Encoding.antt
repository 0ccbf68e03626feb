-- ===== src/Protocol/Encoding.antt =====
-- The length-prefixed byte strings that signatures cover: `push_bytes` and its companions, which
-- device/record.rs, device/join.rs, access/event.rs and object/envelope.rs each declare.
pub mod Frames
use rustsync.Base.{ℕ, ◌/◌, ◌%◌, ◌^◌, List, [], ◌∷◌, ◌++◌, Bytes, length}

-- `u64::to_be_bytes`
unfoldable pub to_be_bytes : ℕ → Bytes
to_be_bytes v =
    v / 2 ^ 56 % 256
    ∷ v / 2 ^ 48 % 256
    ∷ v / 2 ^ 40 % 256
    ∷ v / 2 ^ 32 % 256
    ∷ v / 2 ^ 24 % 256
    ∷ v / 2 ^ 16 % 256
    ∷ v / 2 ^ 8 % 256
    ∷ v % 256
    ∷ []

unfoldable pub push_bytes : Bytes → Bytes → Bytes
push_bytes out value = (out ++ to_be_bytes (length value)) ++ value

unfoldable pub push_str : Bytes → Bytes → Bytes
push_str out value = push_bytes out value

unfoldable pub push_u64 : Bytes → ℕ → Bytes
push_u64 out value = push_bytes out (to_be_bytes value)

unfoldable pub push_u8 : Bytes → ℕ → Bytes
push_u8 out value = push_bytes out (value ∷ [])
