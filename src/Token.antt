-- ===== src/Token.antt =====
-- crates/supervisor-core/src/worker_token.rs and dispatch_url.rs: what the front ends check of a
-- worker token and of the dispatch URL before anything is dialled. JSON and URL parsing are those of
-- serde_json and of the `url` crate, parameters of the checks.
pub mod Base64
pub mod Shape
pub mod Dispatch
use decent_render.Prelude.{
  ℕ, suc, ◌+◌, ◌-◌, ◌*◌, ◌/◌, ◌%◌, ◌^◌, Bool, true, false, not, ◌||◌, ◌&&◌, List, [], ◌∷◌, ◌++◌,
  Option, none, some, Text, codes, ltb, leb, ◌==◌, length, any, map_option, if◌then◌else◌, split,
  text_eq, get_or, unwrap_or,
}
use decent_render.Prelude.Decimal.{print}
use decent_render.Os.{Fallible, pass, fail}

abbrev pub alphabet : Text
alphabet = codes "ABCDEFGHIJKLMNOPQRSTUVWXYZabcdefghijklmnopqrstuvwxyz0123456789-_"

-- `iter().position(|&a| a == b)`.
unfoldable pub position : ℕ → Text → Option ℕ
position b [] = none
position b (a ∷ rest) =
    let later = position b rest in if a == b then some 0 else map_option suc later

-- `if bits >= 8 { bits -= 8; ... }` with the bits of one more character.
pub bits_left : ℕ → ℕ
bits_left bits = if leb 8 (bits + 6) then bits + 6 - 8 else bits + 6

-- `out.push((buf >> bits) as u8)` in that branch.
pub push : ℕ → ℕ → Option Text → Option Text
push buf bits rest =
    if leb 8 (bits + 6)
    then map_option (λ out. (buf / 2 ^ (bits + 6 - 8) % 256) ∷ out) rest
    else rest

-- The loop of `base64url_decode`: `buf` is a u32, which a shift cuts off.
pub decode_from : ℕ → ℕ → Text → Option Text
unfolding position bits_left push
decode_from buf bits [] = some []
decode_from buf bits (b ∷ s) = if b == b'=' then some [] else elim (position b alphabet) [
  | none ↦ none
  | some v ↦
      push (buf * 64 % 2 ^ 32 + v) bits (decode_from (buf * 64 % 2 ^ 32 + v) (bits_left bits) s)
]

unfoldable pub base64url_decode : Text → Option Text
unfolding decode_from
base64url_decode s = decode_from 0 0 s

-- `is_ascii_alphanumeric() || b == b'.' || ...`.
pub is_token_byte : ℕ → Bool
is_token_byte b =
    leb b'0' b && leb b b'9'
    || leb b'A' b && leb b b'Z'
    || leb b'a' b && leb b b'z'
    || b == b'.'
    || b == b'-'
    || b == b'_'
    || b == b'='

-- Why a token is refused; the messages name what was wrong and never the token.
pub data Refusal : Type 0 where
  part_count : ℕ → Refusal
  empty_part : Refusal
  too_short : ℕ → Refusal
  foreign_bytes : Refusal
  no_base64url : Refusal
  header_no_json : Refusal
  payload_no_json : Refusal
  no_claims : Refusal

-- The text of each refusal.
pub message : Refusal → Text
message (part_count n) =
    codes "not a worker token: expected three dot-separated parts, got "
    ++ (print n ++ codes " (a JWT looks like <header>.<payload>.<signature>)")
message empty_part = codes "not a worker token: one of the three parts is empty (truncated paste?)"
message (too_short n) =
    codes "not a worker token: "
    ++ (print n ++ codes " characters is too short for any JWT this fleet issues")
message foreign_bytes =
    codes
      "not a worker token: contains characters outside base64url + dots (whitespace, quotes, or a paste artifact)"
message no_base64url = codes "a segment is not valid base64url"
message header_no_json = codes "token header is not JSON (wrong paste?)"
message payload_no_json = codes "token payload is not JSON (wrong paste?)"
message no_claims =
    codes "this JWT carries no worker claims (service/tenant/workerId) "
    ++ (226 ∷ 128 ∷ 148 ∷ codes " it is probably a token for a different system")

abbrev pub claims : List Text
claims =
    codes "service"
    ∷ codes "tenant"
    ∷ codes "workerId"
    ∷ codes "worker_id"
    ∷ codes "platform"
    ∷ codes "deviceId"
    ∷ []

-- `bytes().all(p)`.
pub all_bytes : (ℕ → Bool) → Text → Bool
all_bytes p [] = true
all_bytes p (b ∷ s) = p b && all_bytes p s

-- `parts[i]`, in range.
pub part : List Text → ℕ → Text
part parts i = get_or parts i []

-- serde_json: `from_slice`, and `get(key).is_some()` of a value.
pub record Json : Type 1 where
  pub Value : Type 0
  pub from_slice : Text → Option Value
  pub has : Value → Text → Bool

module _ (json : Json) where
  open json use {from_slice, has}

  -- From the decoded header and payload on; `none` is `Ok(())`.
  pub check_claims : Text → Text → Option Refusal
  check_claims header payload = elim (from_slice header) [
    | none ↦ some header_no_json
    | some h ↦ elim (from_slice payload) [
      | none ↦ some payload_no_json
      | some value ↦ if any (λ k. has value k) claims then none else some no_claims
    ]
  ]

  -- From the length of the parts on.
  pub check_segments : List Text → Option Refusal
  unfolding part base64url_decode check_claims
  check_segments parts = elim (base64url_decode (part parts 0)) [
    | none ↦ some no_base64url
    | some header ↦ elim (base64url_decode (part parts 1)) [
      | none ↦ some no_base64url
      | some payload ↦ check_claims header payload
    ]
  ]

  unfoldable pub validate_worker_token_shape : Text → Option Refusal
  unfolding all_bytes is_token_byte check_segments
  validate_worker_token_shape token =
      let parts = split b'.' token in
      if not (length parts == 3)
      then some (part_count (length parts))
      else if any (λ p. text_eq p []) parts
      then some empty_part
      else if ltb (length token) 40
      then some (too_short (length token))
      else if not (all_bytes is_token_byte token)
      then some foreign_bytes
      else check_segments parts

-- What the `url` crate reads of a URL: its scheme, its host, and its path.
pub record ParsedUrl : Type 0 where
  pub scheme : Text
  pub host : Option Text
  pub path : Text

pub is_local_host : Option Text → Bool
is_local_host none = true
is_local_host (some h) =
    text_eq h (codes "localhost") || text_eq h (codes "127.0.0.1") || text_eq h (codes "[::1]")

unfoldable pub is_local : ParsedUrl → Bool
unfolding is_local_host
is_local parsed = is_local_host parsed.host

cleartext : ParsedUrl → Text
cleartext parsed =
    codes
      "refusing to use ws:// to a non-local host: the worker token would be sent in CLEARTEXT. Use wss://"
    ++ (unwrap_or (codes "<unknown>") parsed.host
        ++ (parsed.path ++ codes " (or a localhost URL for local development)."))

-- The match on the scheme; `none` is `Ok(())`.
pub check_scheme : ParsedUrl → Option Text
unfolding is_local cleartext
check_scheme parsed =
    if text_eq parsed.scheme (codes "wss")
    then none
    else if text_eq parsed.scheme (codes "ws") && is_local parsed
    then none
    else if text_eq parsed.scheme (codes "ws")
    then some (cleartext parsed)
    else some (
        codes "--dispatch-url must be wss:// (or ws:// for localhost); got '"
        ++ (parsed.scheme ++ codes "://'"))

-- `url` is given by what the crate parses it to, with the crate's error where it does not parse.
pub validate_dispatch_url : (Text → Fallible ParsedUrl) → Text → Option Text
unfolding check_scheme
validate_dispatch_url parse url = elim (parse url) [
  | fail e ↦ some (codes "--dispatch-url is not a valid URL (" ++ (e ++ (codes "): " ++ url)))
  | pass parsed ↦ check_scheme parsed
]
