-- ===== src/Tests/Tokens.antt =====
-- A token's payload, a token and a dispatch URL at the checks.
use decent_render.Prelude.{◌≡◌, ◌↔◌, none, some, Text, codes, text_eq, arith}
use decent_render.Os.{Fallible, pass}
use decent_render.Token.{
  Json, ParsedUrl, base64url_decode, validate_worker_token_shape, validate_dispatch_url,
}
use decent_render.Token.Base64.{encode, base64url_decode-encode}
use decent_render.Token.Shape.{IsFleetToken, validate_worker_token_shape_iff}
use decent_render.Token.Dispatch.{IsSafeUrl, validate_dispatch_url_iff}

base64url_decode-encode_example :
    base64url_decode (encode (codes "{\"a\":1}")) ≡ some (codes "{\"a\":1}")
base64url_decode-encode_example = base64url_decode-encode (codes "{\"a\":1}") (ground arith)

-- A reader that takes every text for an object, which has the keys that it is equal to.
abbrev json : Json
json = record { Value = Text; from_slice = λ text. some text; has = λ value key. text_eq value key }

-- The segments hold `{}`, `tenant` and a signature of 36 bytes.
abbrev token : Text
token = codes "e30.dGVuYW50.sig-sig-sig-sig-sig-sig-sig-sig-sig"

validate_worker_token_shape_iff_example :
    (validate_worker_token_shape json token ≡ none) ↔ IsFleetToken json token
validate_worker_token_shape_iff_example = validate_worker_token_shape_iff json token

abbrev remote : ParsedUrl
remote = record {
  scheme = codes "ws";
  host = some (codes "dispatch.example.com");
  path = codes "/ws";
}

abbrev reader : Text → Fallible ParsedUrl
reader url = pass remote

validate_dispatch_url_iff_example :
    (validate_dispatch_url reader (codes "ws://dispatch.example.com/ws") ≡ none)
    ↔ ((u : ParsedUrl) × (reader (codes "ws://dispatch.example.com/ws") ≡ pass u) × IsSafeUrl u)
validate_dispatch_url_iff_example =
    validate_dispatch_url_iff reader (codes "ws://dispatch.example.com/ws")
