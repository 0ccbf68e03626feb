-- ===== src/Protocol/Encoding/Frames.antt =====
-- Sequences of length-prefixed fields, and how to read them back.
use rustsync.Base.{ℕ, ◌+◌, ◌*◌, ◌<◌, ◌^◌, ◌≡◌, refl, ap, sym, ◌∙◌, List, [], ◌∷◌, ◌++◌, Bytes}
use rustsync.Base.{length, All, u64_mod, arith, take, drop, take-append, drop-append}
use rustsync.Protocol.Encoding.{to_be_bytes, push_bytes}
use mathlib.Core.List.{append_assoc, append-nil}

-- `u64::from_be_bytes` on the first eight bytes
abbrev read_u64 : Bytes → ℕ
read_u64 (a ∷ b ∷ c ∷ d ∷ e ∷ f ∷ g ∷ h ∷ rest) =
    a * 2 ^ 56 + b * 2 ^ 48 + c * 2 ^ 40 + d * 2 ^ 32 + e * 2 ^ 24 + f * 2 ^ 16 + g * 2 ^ 8 + h
read_u64 _ = 0

read_u64-to_be_bytes : (v : ℕ) (rest : Bytes) → v < u64_mod → read_u64 (to_be_bytes v ++ rest) ≡ v
unfolding to_be_bytes
read_u64-to_be_bytes v rest h = omega arith

-- The fields in order, each behind its length.
pub frames : List Bytes → Bytes
unfolding to_be_bytes
frames [] = []
frames (f ∷ fs) = to_be_bytes (length f) ++ (f ++ frames fs)

-- A length that `u64` holds.
abbrev pub IsShort : Bytes → Type 0
IsShort f = length f < u64_mod

drop_u64 : (v : ℕ) (rest : Bytes) → drop 8 (to_be_bytes v ++ rest) ≡ rest
unfolding to_be_bytes
drop_u64 v rest = refl

append_inj : (f g r t : Bytes) → length f ≡ length g → f ++ r ≡ g ++ t → (f ≡ g) × (r ≡ t)
append_inj f g r t n e = (
  sym (take-append f r) ∙ ap (take (length f)) e ∙ rw n (take-append g t),
  sym (drop-append f r) ∙ ap (drop (length f)) e ∙ rw n (drop-append g t),
)

frame_inj :
    (f g r t : Bytes)
    → IsShort f
    → IsShort g
    → to_be_bytes (length f) ++ (f ++ r) ≡ to_be_bytes (length g) ++ (g ++ t)
    → (f ≡ g) × (r ≡ t)
frame_inj f g r t sf sg e =
    append_inj f g r t
      (sym (read_u64-to_be_bytes (length f) (f ++ r) sf)
        ∙ ap read_u64 e
        ∙ read_u64-to_be_bytes (length g) (g ++ t) sg)
      (sym (drop_u64 (length f) (f ++ r)) ∙ ap (drop 8) e ∙ drop_u64 (length g) (g ++ t))

pub frames_inj :
    (fs gs : List Bytes) → All IsShort fs → All IsShort gs → frames fs ≡ frames gs → fs ≡ gs
unfolding frames
frames_inj [] [] sf sg e = refl
frames_inj [] (g ∷ gs) sf sg e = cc
frames_inj (f ∷ fs) [] sf sg e = cc
frames_inj (f ∷ fs) (g ∷ gs) (sf, sfs) (sg, sgs) e =
    let (same, rest) = frame_inj f g (frames fs) (frames gs) sf sg e in
    cc (same, frames_inj fs gs sfs sgs rest)

frames-append : (fs gs : List Bytes) → frames (fs ++ gs) ≡ frames fs ++ frames gs
unfolding frames
frames-append [] gs = refl
frames-append (f ∷ fs) gs = rw (frames-append fs gs) (simp append_assoc)

-- One more field behind those already written.
pub push_bytes-frames :
    (fs : List Bytes) (value : Bytes) → push_bytes (frames fs) value ≡ frames (fs ++ value ∷ [])
unfolding push_bytes
push_bytes-frames fs value = rw frames-append (unfold frames in simp (append_assoc, append-nil))

pub push_bytes-nil : (value : Bytes) → push_bytes [] value ≡ frames (value ∷ [])
unfolding frames
push_bytes-nil value = push_bytes-frames [] value

pub ruleset framing = (push_bytes-nil, push_bytes-frames)

-- `u64::from_be_bytes` of a field
pub read_u64_field : Bytes → ℕ
read_u64_field f = read_u64 f

pub read_u64_field-to_be_bytes : (v : ℕ) → v < u64_mod → read_u64_field (to_be_bytes v) ≡ v
unfolding read_u64_field
read_u64_field-to_be_bytes v h =
    ap read_u64 (sym (append-nil (to_be_bytes v))) ∙ read_u64-to_be_bytes v [] h
