-- ===== src/Protocol/Auth/Headers.antt =====
-- The headers of a signed request, printed and read.
use rustsync.Base.{◌<◌, ◌≡◌, some, arith, u64_mod}
use rustsync.Base.Decimal.{parse_u64-to_decimal}
use rustsync.Base.Exec.{ok}
use rustsync.Protocol.Device.{Crypto}
use rustsync.Protocol.Id.{parse_device_id}
use rustsync.Protocol.Auth.{AuthHeaders, to_header_values, from_header_values, parse_nonce}

-- Headers with identifiers that parse and a timestamp of 64 bits come back from their values, if
-- the base64 text of the signature decodes to it.
pub from_header_values-to_header_values :
    (c : Crypto) (h : AuthHeaders)
    → parse_device_id h.device_id ≡ ok h.device_id
    → parse_nonce h.nonce ≡ ok h.nonce
    → h.timestamp < u64_mod
    → c.base64_url_decode (c.base64_url h.signature) ≡ some h.signature
    → let v = to_header_values c h in
      from_header_values c v.device_id v.timestamp v.nonce v.signature ≡ ok h
unfolding from_header_values to_header_values
from_header_values-to_header_values c h device nonce fits text =
    ground (arith, device, nonce, text, parse_u64-to_decimal h.timestamp fits)
