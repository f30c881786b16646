-- ===== src/Artifact/Hex.antt =====
-- The hexadecimal digest that a download returns (crates/supervisor-core/src/artifact_fetch.rs).
use decent_render.Prelude.{ℕ, ◌/◌, ◌%◌, ◌<◌, ◌≡◌, ◌↔◌, refl, ap, [], ◌∷◌, Text, All, arith}
use decent_render.Artifact.{hex_digit, hex_lower}

hex_digit_injective : (a b : ℕ) → a < 16 → b < 16 → hex_digit a ≡ hex_digit b → a ≡ b
unfolding hex_digit
hex_digit_injective a b ha hb e = ground arith

byte_parts : (a b : ℕ) → a < 256 → b < 256 → a / 16 ≡ b / 16 → a % 16 ≡ b % 16 → a ≡ b
byte_parts a b ha hb e f = omega arith

hex_lower_injective :
    (d e : Text) → All (λ b. b < 256) d → All (λ b. b < 256) e → hex_lower d ≡ hex_lower e → d ≡ e
unfolding hex_lower
hex_lower_injective [] [] hd he h = refl
hex_lower_injective [] (b ∷ e) hd he h = cc
hex_lower_injective (a ∷ d) [] hd he h = cc
hex_lower_injective (a ∷ d) (b ∷ e) hd he h = ground (
  arith,
  h,
  hd,
  he,
  hex_digit_injective (a / 16) (b / 16),
  hex_digit_injective (a % 16) (b % 16),
  byte_parts a b,
  hex_lower_injective d e,
)

-- Two digests of bytes have the same text exactly if they are the same digest.
pub hex_lower_iff :
    (d e : Text)
    → All (λ b. b < 256) d
    → All (λ b. b < 256) e
    → (hex_lower d ≡ hex_lower e) ↔ (d ≡ e)
hex_lower_iff d e hd he = (hex_lower_injective d e hd he, λ s. ap hex_lower s)
