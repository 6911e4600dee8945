-- ===== src/Proxies/Bodies.antt =====
-- `get_decompressed_body` of the proxies, on bodies that were compressed as their header says.
use bb_monitor.Base.{
  ℕ, ◌+◌, ◌*◌, ◌^◌, ◌≤◌, ◌<◌, ◌≡◌, refl, ap, ◌∙◌, Bool, true, Option, none, some, Bytes, bytes_eq,
  codes, ℤ, length,
}
use bb_monitor.Compression.{
  Zlib, Result, returned, compress_gzip, compress_deflate, decompress_gzip, decompress_deflate,
}
use bb_monitor.Compression.RoundTrip.{IsZlib, is_level, decompress-compress}
use bb_monitor.Proxies.{HttpMethod, HttpRequest, get_decompressed_body}

-- How a client sends a text.
pub data Encoding : Type 0 where
  identity : Encoding
  snappy : Encoding
  deflate : ℤ → Encoding
  gzip : ℤ → Encoding

abbrev pub header_of : Encoding → Option Bytes
header_of identity = none
header_of snappy = some (codes "snappy")
header_of (deflate level) = some (codes "deflate")
header_of (gzip level) = some (codes "gzip")

abbrev pub is_offered : Encoding → Bool
is_offered identity = true
is_offered snappy = true
is_offered (deflate level) = is_level level
is_offered (gzip level) = is_level level

abbrev pub request : HttpMethod → Bytes → Encoding → Bytes → HttpRequest
request method path e body = record {
  method = method;
  path = path;
  content_encoding = header_of e;
  body = body;
}

module _ {S : Type 0} (zlib : Zlib S) (uncompress : Bytes → Bool × Bytes)
    (compress : Bytes → Bytes) where
  abbrev pub encode : ℕ → Bytes → Encoding → Bytes → Result
  encode n garbage identity s = returned s
  encode n garbage snappy s = returned (compress s)
  encode n garbage (deflate level) s = compress_deflate zlib n garbage s level
  encode n garbage (gzip level) s = compress_gzip zlib n garbage s level

  module _ (method : HttpMethod) (path : Bytes) where
    get_decompressed_body-identity :
        (n : ℕ) (garbage s : Bytes)
        → get_decompressed_body zlib uncompress n garbage (request method path identity s)
          ≡ returned s
    unfolding get_decompressed_body
    get_decompressed_body-identity n garbage s = refl

    get_decompressed_body-snappy :
        (n : ℕ) (garbage s : Bytes)
        → uncompress (compress s) ≡ (true, s)
        → get_decompressed_body zlib uncompress n garbage (request method path snappy (compress s))
          ≡ returned s
    unfolding get_decompressed_body bytes_eq
    get_decompressed_body-snappy n garbage s e = ap (λ r. returned r.1) e

    get_decompressed_body-deflate :
        (n : ℕ) (garbage body : Bytes) (level : ℤ)
        → get_decompressed_body zlib uncompress n garbage (request method path (deflate level) body)
          ≡ decompress_deflate zlib n garbage body
    unfolding get_decompressed_body bytes_eq
    get_decompressed_body-deflate n garbage body level = refl

    get_decompressed_body-gzip :
        (n : ℕ) (garbage body : Bytes) (level : ℤ)
        → get_decompressed_body zlib uncompress n garbage (request method path (gzip level) body)
          ≡ decompress_gzip zlib n garbage body
    unfolding get_decompressed_body bytes_eq
    get_decompressed_body-gzip n garbage body level = refl

    pub get_decompressed_body-encode :
        IsZlib zlib
        → ((s : Bytes) → uncompress (compress s) ≡ (true, s))
        → (e : Encoding) (s : Bytes) → is_offered e ≡ true
        → 2 * length s + 64 < 2 ^ 32
        → (body : Bytes) × (enough : ℕ) × ((n : ℕ) (garbage garbage' : Bytes)
            → enough ≤ n
            → (encode n garbage e s ≡ returned body)
              × (get_decompressed_body zlib uncompress n garbage' (request method path e body)
                  ≡ returned s))
    get_decompressed_body-encode z lossless identity s h short =
        (s, 0, λ n garbage garbage' k. (refl, get_decompressed_body-identity n garbage' s))
    get_decompressed_body-encode z lossless snappy s h short = (
      compress s,
      0,
      λ n garbage garbage' k. (refl, get_decompressed_body-snappy n garbage' s (lossless s)),
    )
    get_decompressed_body-encode z lossless (deflate level) s h short =
        let (body, enough, both) = (decompress-compress zlib z level s h short).1 in
        (
          body,
          enough,
          λ n garbage garbage' k.
              let (there, back) = both n garbage garbage' k in
              (there, get_decompressed_body-deflate n garbage' body level ∙ back),
        )
    get_decompressed_body-encode z lossless (gzip level) s h short =
        let (body, enough, both) = (decompress-compress zlib z level s h short).0 in
        (
          body,
          enough,
          λ n garbage garbage' k.
              let (there, back) = both n garbage garbage' k in
              (there, get_decompressed_body-gzip n garbage' body level ∙ back),
        )
