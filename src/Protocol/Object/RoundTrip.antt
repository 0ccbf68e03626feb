-- ===== src/Protocol/Object/RoundTrip.antt =====
-- `encode` and `decode` of `crates/rustsync-protocol/src/object/binary.rs`, one after the other.
use rustsync.Base.{ℕ, ◌+◌, ◌*◌, ◌/◌, ◌%◌, ◌≤◌, ◌<◌, ◌≡◌, refl, ap, [], ◌∷◌, ◌++◌, Bytes}
use rustsync.Base.{length, arith, length-append, true}
use rustsync.Base.{ltb, all, bytes_ord, bytes_cmp_iff, nat_ord}
use rustsync.Base.Utf8.{is_utf8-ascii}
use rustsync.Base.Exec.{ok, >>=-of_ok}
use rustsync.Protocol.Id.{parse_key_id, is_id_byte}
use rustsync.Protocol.Object.{Cursor, EncryptedObject, validate, encode, decode, read_object, byte}
use rustsync.Protocol.Object.{array, take_or_invalid, read_magic, key_id_of, read_algorithm, magic}
use rustsync.Protocol.Object.{
  max_encrypted_object_bytes, xchacha20_poly1305, u16_bytes, frame_version,
}
use rustsync.Protocol.Object.{xchacha20_poly1305_tag, ContentEncryptionAlgorithm, remaining}
use rustsync.Protocol.Object.Reads.{IsInside, ahead, take_or_invalid-ahead}

-- The frame of an object
abbrev pub frame : EncryptedObject → Bytes
frame o =
    magic
    ++ (frame_version
        ∷ xchacha20_poly1305_tag
        ∷ (u16_bytes (length o.key_id)
            ++ (length o.nonce ∷ (o.key_id ++ (o.nonce ++ o.ciphertext)))))

-- What `encode` asks of an object.
pub encode_iff :
    (o : EncryptedObject) (bytes : Bytes)
    → encode o ≡ ok bytes
    → (validate o ≡ ok tt)
      × (bytes ≡ frame o)
      × (length o.key_id < 65536)
      × (9 + length o.key_id + length o.nonce + length o.ciphertext ≤ max_encrypted_object_bytes)
unfolding encode
encode_iff o bytes h = ground arith

module _ (c : Cursor) (i : IsInside c) where
  byte-ahead :
      (b : ℕ) (rest : Bytes)
      → ahead c ≡ b ∷ rest
      → (d : Cursor) × (byte c ≡ (ok b, d)) × IsInside d × (ahead d ≡ rest)
  unfolding byte
  byte-ahead b rest e =
      let (d, run, inside, left) = take_or_invalid-ahead c (b ∷ []) rest i e in
      (d, >>=-of_ok _ _ c (b ∷ []) d run refl, inside, left)

  array-ahead :
      (high low : ℕ) (rest : Bytes)
      → ahead c ≡ high ∷ low ∷ rest
      → (d : Cursor) × (array c ≡ (ok (high * 256 + low), d)) × IsInside d × (ahead d ≡ rest)
  unfolding array
  array-ahead high low rest e =
      let (d, run, inside, left) = take_or_invalid-ahead c (high ∷ low ∷ []) rest i e in
      (d, >>=-of_ok _ _ c (high ∷ low ∷ []) d run refl, inside, left)

  read_magic-ahead :
      (rest : Bytes)
      → ahead c ≡ magic ++ rest
      → (d : Cursor) × (read_magic c ≡ (ok tt, d)) × IsInside d × (ahead d ≡ rest)
  unfolding read_magic take_or_invalid
  read_magic-ahead rest e =
      let (d, run, inside, left) = take_or_invalid-ahead c magic rest i e in
      (d, ground (arith, run, bytes_cmp_iff magic magic), inside, left)

-- The text of a key identifier is made of the bytes that identifiers may have.
id_bytes-ascii : (bs : Bytes) → all is_id_byte bs ≡ true → all (λ b. ltb b 0x80) bs ≡ true
id_bytes-ascii [] h = refl
id_bytes-ascii (b ∷ bs) h = ground (arith, id_bytes-ascii bs)

pub parse_key_id-bytes :
    (text id : Bytes)
    → parse_key_id text ≡ ok id
    → (id ≡ text) × (all is_id_byte text ≡ true) × (length text ≤ 64)
unfolding parse_key_id
parse_key_id-bytes text id h = ground arith

key_id_of-parsed : (id : Bytes) → parse_key_id id ≡ ok id → key_id_of id ≡ ok id
unfolding key_id_of
key_id_of-parsed id h =
    ground (arith, h, is_utf8-ascii id (id_bytes-ascii id (parse_key_id-bytes id id h).1))

-- What a valid object has: a nonce of 24 bytes.
validate-nonce : (o : EncryptedObject) → validate o ≡ ok tt → length o.nonce ≡ 24
unfolding validate
validate-nonce o h = ground arith

only_algorithm : (a : ContentEncryptionAlgorithm) → xchacha20_poly1305 ≡ a
only_algorithm xchacha20_poly1305 = refl

read_object-frame :
    (o : EncryptedObject) (c : Cursor)
    → IsInside c
    → parse_key_id o.key_id ≡ ok o.key_id
    → validate o ≡ ok tt
    → length o.key_id < 65536
    → ahead c ≡ frame o
    → (d : Cursor) × (read_object c ≡ (ok o, d))
unfolding read_object read_algorithm remaining
read_object-frame o c i id v short e =
    let (c1, r1, i1, a1) = read_magic-ahead c i _ e in
    let (c2, r2, i2, a2) = byte-ahead c1 i1 _ _ a1 in
    let (c3, r3, i3, a3) = byte-ahead c2 i2 _ _ a2 in
    let (c4, r4, i4, a4) = array-ahead c3 i3 _ _ _ a3 in
    let (c5, r5, i5, a5) = byte-ahead c4 i4 _ _ a4 in
    let (c6, r6, i6, a6) = take_or_invalid-ahead c5 o.key_id _ i5 a5 in
    let (c7, r7, i7, a7) = take_or_invalid-ahead c6 o.nonce _ i6 a6 in
    let len : length o.key_id / 256 % 256 * 256 + length o.key_id % 256 ≡ length o.key_id =
      omega arith in
    (
      c7,
      >>=-of_ok _ _ c tt c1 r1 (
          >>=-of_ok _ _ c1 _ c2 r2 (
            >>=-of_ok _ _ c2 tt c2 refl (
              >>=-of_ok _ _ c2 _ c3 r3 (
                >>=-of_ok _ _ c3 o.algorithm c3 (ap (λ a. (ok a, c3)) (only_algorithm o.algorithm))
                  (>>=-of_ok _ _ c3 _ c4 r4 (
                    >>=-of_ok _ _ c4 _ c5 r5 (
                      rw len (
                        >>=-of_ok _ _ c5 o.key_id c6 r6 (
                          >>=-of_ok _ _ c6 o.key_id c6
                            (ap (λ r. (r, c6)) (key_id_of-parsed o.key_id id))
                            (>>=-of_ok _ _ c6 o.nonce c7 r7 (
                              >>=-of_ok _ _ c7 o.ciphertext c7 (ap (λ r. (ok r, c7)) a7)
                                (>>=-of_ok _ _ c7 tt c7 (ap (λ r. (r, c7)) v) refl)))))))))))),
    )

-- An object that has an identifier for its key, and that encodes, decodes to itself.
pub decode-encode :
    (o : EncryptedObject) (bytes : Bytes)
    → parse_key_id o.key_id ≡ ok o.key_id
    → encode o ≡ ok bytes
    → decode bytes ≡ ok o
unfolding decode
decode-encode o bytes id h =
    let (v, is_frame, short, fits) = encode_iff o bytes h in
    let size : length bytes ≡ 9 + length o.key_id + length o.nonce + length o.ciphertext =
      rw is_frame (
        omega (
          arith,
          length-append o.key_id (o.nonce ++ o.ciphertext),
          length-append o.nonce o.ciphertext,
        )) in
    let start : Cursor = record { bytes = bytes; position = 0 } in
    let (d, run) =
      read_object-frame o start (record { inside = omega arith; addressable = omega arith }) id v
        short is_frame in
    ground (arith, size, fits, run)
