-- ===== src/Token/Base64.antt =====
-- The round trip of base64url (`base64url_decode` of crates/supervisor-core/src/worker_token.rs).
use decent_render.Prelude.{
  ℕ, zero, suc, ◌+◌, ◌*◌, ◌/◌, ◌%◌, ◌^◌, ◌<◌, ◌≡◌, refl, ◌∙◌, ap, inl, inr, Bool, true, false, not,
  ◌&&◌, [], ◌∷◌, some, Text, ◌==◌, get_or, All, map_option, arith, Bool-cases, option_eq,
  option_eq_iff,
}
use decent_render.Token.{alphabet, position, bits_left, push, decode_from, base64url_decode}

-- base64url without padding, as RFC 4648 defines it: six bits for a character, the highest first.
pub char : ℕ → ℕ
char v = get_or alphabet v 0

pub encode : Text → Text
unfolding char
encode [] = []
encode (a ∷ []) = char (a / 4) ∷ char (a % 4 * 16) ∷ []
encode (a ∷ b ∷ []) = char (a / 4) ∷ char (a % 4 * 16 + b / 16) ∷ char (b % 16 * 4) ∷ []
encode (a ∷ b ∷ c ∷ rest) =
    char (a / 4)
    ∷ char (a % 4 * 16 + b / 16)
    ∷ char (b % 16 * 4 + c / 64)
    ∷ char (c % 64)
    ∷ encode rest

abbrev all_below : (ℕ → Bool) → ℕ → Bool
all_below p zero = true
all_below p (suc n) = p n && all_below p n

all_below_lem : (p : ℕ → Bool) (n v : ℕ) → all_below p n ≡ true → v < n → p v ≡ true
all_below_lem p zero v h b = elim b [ ]
all_below_lem p (suc n) v h b = elim (Bool-cases (v == n)) [
  | inl same ↦ ground (arith, same, h)
  | inr differs ↦ all_below_lem p n v (ground (arith, h)) (ground (arith, differs))
]

-- A character stands for its value alone, and is no padding.
abbrev is_faithful : ℕ → Bool
is_faithful v = option_eq (position (char v) alphabet) (some v) && not (char v == b'=')

faithful : all_below is_faithful 64 ≡ true
unfolding position char option_eq
faithful = refl

position-char : (v : ℕ) → v < 64 → position (char v) alphabet ≡ some v
position-char v h = ground (
  arith,
  all_below_lem is_faithful 64 v faithful h,
  option_eq_iff (position (char v) alphabet) (some v),
)

char_plain : (v : ℕ) → v < 64 → (char v == b'=') ≡ false
char_plain v h = ground (arith, all_below_lem is_faithful 64 v faithful h)

decode_step :
    (buf bits v : ℕ) (s : Text)
    → v < 64
    → decode_from buf bits (char v ∷ s)
      ≡ push (buf * 64 % 2 ^ 32 + v) bits (decode_from (buf * 64 % 2 ^ 32 + v) (bits_left bits) s)
unfolding decode_from
decode_step buf bits v s h = rw (char_plain v h, position-char v h) refl

-- What is pushed of the buffer is the bytes that the characters were made of, whatever the buffer
-- held before.
abbrev after : ℕ → ℕ → ℕ
after buf v = buf * 64 % 2 ^ 32 + v

first_byte :
    (buf a b : ℕ) → a < 256 → b < 16 → after (after buf (a / 4)) (a % 4 * 16 + b) / 2 ^ 4 % 256 ≡ a
first_byte buf a b ha hb = omega arith

second_byte :
    (buf b c : ℕ) (r : ℕ)
    → b < 256
    → c < 4
    → after (after buf (r * 16 + b / 16)) (b % 16 * 4 + c) / 2 ^ 2 % 256 ≡ b
second_byte buf b c r hb hc = omega arith

third_byte : (buf c r : ℕ) → c < 256 → after (after buf (r * 4 + c / 64)) (c % 64) / 2 ^ 0 % 256 ≡ c
third_byte buf c r hc = omega arith

-- The first byte of a group, from its first two characters.
decode_first :
    (buf a b : ℕ) (s : Text)
    → a < 256
    → b < 16
    → decode_from buf 0 (char (a / 4) ∷ char (a % 4 * 16 + b) ∷ s)
      ≡ map_option (λ out. a ∷ out) (decode_from (after (after buf (a / 4)) (a % 4 * 16 + b)) 4 s)
unfolding push bits_left
decode_first buf a b s ha hb =
    decode_step buf 0 (a / 4) (char (a % 4 * 16 + b) ∷ s) (omega (arith, ha))
    ∙ decode_step (after buf (a / 4)) 6 (a % 4 * 16 + b) s (omega (arith, hb))
    ∙ ap
        (λ x.
          map_option (λ out. x ∷ out)
            (decode_from (after (after buf (a / 4)) (a % 4 * 16 + b)) 4 s))
        (first_byte buf a b ha hb)

decode_second :
    (buf r b c : ℕ) (s : Text)
    → b < 256
    → c < 4
    → decode_from (after buf (r * 16 + b / 16)) 4 (char (b % 16 * 4 + c) ∷ s)
      ≡ map_option
          (λ out. b ∷ out)
          (decode_from (after (after buf (r * 16 + b / 16)) (b % 16 * 4 + c)) 2 s)
unfolding push bits_left
decode_second buf r b c s hb hc =
    decode_step (after buf (r * 16 + b / 16)) 4 (b % 16 * 4 + c) s (omega (arith, hc))
    ∙ ap
        (λ x.
          map_option (λ out. x ∷ out)
            (decode_from (after (after buf (r * 16 + b / 16)) (b % 16 * 4 + c)) 2 s))
        (second_byte buf b c r hb hc)

decode_third :
    (buf r c : ℕ) (s : Text)
    → c < 256
    → decode_from (after buf (r * 4 + c / 64)) 2 (char (c % 64) ∷ s)
      ≡ map_option (λ out. c ∷ out) (decode_from (after (after buf (r * 4 + c / 64)) (c % 64)) 0 s)
unfolding push bits_left
decode_third buf r c s hc =
    decode_step (after buf (r * 4 + c / 64)) 2 (c % 64) s (omega arith)
    ∙ ap
        (λ x.
          map_option (λ out. x ∷ out)
            (decode_from (after (after buf (r * 4 + c / 64)) (c % 64)) 0 s))
        (third_byte buf c r hc)

plus_zero : (n : ℕ) → n ≡ n + 0
plus_zero n = omega arith

decode-encode_from :
    (bytes : Text) (buf : ℕ)
    → All (λ b. b < 256) bytes
    → decode_from buf 0 (encode bytes) ≡ some bytes
unfolding encode decode_from
decode-encode_from [] buf h = refl
decode-encode_from (a ∷ []) buf (ha, h) =
    ap (λ v. decode_from buf 0 (char (a / 4) ∷ char v ∷ [])) (plus_zero (a % 4 * 16))
    ∙ decode_first buf a 0 [] ha (omega arith)
decode-encode_from (a ∷ b ∷ []) buf (ha, (hb, h)) =
    decode_first buf a (b / 16) (char (b % 16 * 4) ∷ []) ha (omega (arith, hb))
    ∙ ap (λ o. map_option (λ out. a ∷ out) o)
        (ap (λ v. decode_from (after (after buf (a / 4)) (a % 4 * 16 + b / 16)) 4 (char v ∷ []))
            (plus_zero (b % 16 * 4))
          ∙ decode_second (after buf (a / 4)) (a % 4) b 0 [] hb (omega arith))
decode-encode_from (a ∷ b ∷ c ∷ rest) buf (ha, (hb, (hc, h))) =
    let buf1 = after buf (a / 4) in
    let buf2 = after buf1 (a % 4 * 16 + b / 16) in
    let buf3 = after buf2 (b % 16 * 4 + c / 64) in
    decode_first buf a (b / 16) (char (b % 16 * 4 + c / 64) ∷ char (c % 64) ∷ encode rest) ha
      (omega (arith, hb))
    ∙ ap (λ o. map_option (λ out. a ∷ out) o)
        (decode_second buf1 (a % 4) b (c / 64) (char (c % 64) ∷ encode rest) hb (omega (arith, hc))
          ∙ ap (λ o. map_option (λ out. b ∷ out) o)
              (decode_third buf2 (b % 16) c (encode rest) hc
                ∙ ap (λ o. map_option (λ out. c ∷ out) o)
                    (decode-encode_from rest (after buf3 (c % 64)) h)))

-- What RFC 4648 encodes without padding decodes to the same bytes, for every sequence of bytes.
pub base64url_decode-encode :
    (bytes : Text) → All (λ b. b < 256) bytes → base64url_decode (encode bytes) ≡ some bytes
unfolding base64url_decode
base64url_decode-encode bytes h = decode-encode_from bytes 0 h
