-- ===== src/Protocol/Auth/Payload.antt =====
-- The lines of a canonical request payload.
use rustsync.Base.{ℕ, false, ◌==◌, nat_ord, nat_cmp_iff, [], ◌∷◌, Bytes, any, ◌≡◌, refl}
use rustsync.Base.{◌<◌, arith, u64_mod}
use rustsync.Base.Decimal.{to_decimal, to_decimal_inj, to_decimal-any}
use rustsync.Protocol.Auth.{HttpRequestSignatureInput, canonical_payload, line_of, auth_domain}

-- A text without a line end
abbrev pub IsLine : Bytes → Type 0
IsLine text = any (λ b. b == b'\n') text ≡ false

line_inj : (f g r s : Bytes) → IsLine f → IsLine g → line_of f r ≡ line_of g s → (f ≡ g) × (r ≡ s)
line_inj [] [] r s hf hg e = ground (arith, e)
line_inj [] (y ∷ g) r s hf hg e = ground (arith, hg, e, nat_cmp_iff y b'\n')
line_inj (x ∷ f) [] r s hf hg e = ground (arith, hf, e, nat_cmp_iff x b'\n')
line_inj (x ∷ f) (y ∷ g) r s hf hg e =
    let (heads, tails) : (x ≡ y) × (line_of f r ≡ line_of g s) = ground (arith, e) in
    let (same, rest) = line_inj f g r s (ground (arith, hf)) (ground (arith, hg)) tails in
    (cc (heads, same), rest)

decimal-IsLine : (n : ℕ) → IsLine (to_decimal n)
decimal-IsLine n = to_decimal-any _ n (λ b low high. ground (arith, low, high))

-- The numbers fit 64 bits, and no field has a line end.
pub record IsPrintable (i : HttpRequestSignatureInput) : Type 0 where
  pub method : IsLine i.method
  pub path_and_query : IsLine i.path_and_query
  pub body_sha256_hex : IsLine i.body_sha256_hex
  pub device_id : IsLine i.device_id
  pub nonce : IsLine i.nonce
  pub timestamp : i.timestamp < u64_mod
  pub content_length : i.content_length < u64_mod

-- The signed payload of a request tells the request: requests whose numbers fit 64 bits and whose
-- fields have no line ends, with the same payload, are the same.
pub canonical_payload_inj :
    (i j : HttpRequestSignatureInput)
    → IsPrintable i
    → IsPrintable j
    → canonical_payload i ≡ canonical_payload j
    → i ≡ j
unfolding canonical_payload
canonical_payload_inj i j p q e =
    let (domain, e1) = line_inj auth_domain auth_domain _ _ refl refl e in
    let (method, e2) = line_inj i.method j.method _ _ p.method q.method e1 in
    let (path, e3) =
      line_inj i.path_and_query j.path_and_query _ _ p.path_and_query q.path_and_query e2 in
    let (hash, e4) =
      line_inj i.body_sha256_hex j.body_sha256_hex _ _ p.body_sha256_hex q.body_sha256_hex e3 in
    let (at, e5) =
      line_inj (to_decimal i.timestamp) (to_decimal j.timestamp) _ _ (decimal-IsLine i.timestamp)
        (decimal-IsLine j.timestamp) e4 in
    let (device, e6) = line_inj i.device_id j.device_id _ _ p.device_id q.device_id e5 in
    let (nonce, e7) = line_inj i.nonce j.nonce _ _ p.nonce q.nonce e6 in
    let (long, e8) =
      line_inj (to_decimal i.content_length) (to_decimal j.content_length) _ _
        (decimal-IsLine i.content_length) (decimal-IsLine j.content_length) e7 in
    cc (
      method,
      path,
      hash,
      to_decimal_inj i.timestamp j.timestamp p.timestamp q.timestamp at,
      device,
      nonce,
      to_decimal_inj i.content_length j.content_length p.content_length q.content_length long,
    )
