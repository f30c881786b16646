-- ===== src/Prelude/Decimal.antt =====
-- Decimal numerals: what `format!("{n}")` prints and what `str::parse::<u32 | u64>` reads. Both
-- are the standard library's. An unsigned `parse` takes one leading `+`, and refuses the empty text,
-- any other byte and a value above the type's maximum.
use Prim.Native.Nat.{ℕ, zero, suc, ◌+◌, ◌-◌, ◌*◌, ◌/◌, ◌%◌, ◌^◌, ◌≤◌, ◌<◌}
use mathlib.Core.Path.{◌≡◌}
use mathlib.Core.Bool.{◌||◌}
use mathlib.Core.List.{[], ◌∷◌}
use mathlib.Core.Option.{Option, none, some}
use native.Mathlib.Decide.{dec_lt}
use native.Mathlib.Omega.{arith}
use decent_render.Prelude.Tests.{ltb, ◌==◌, if◌then◌else◌}
use decent_render.Prelude.Lists.{All}
use decent_render.Prelude.Bytes.{Text}

abbrev pub u32_max : ℕ
u32_max = 2 ^ 32 - 1

abbrev pub u64_max : ℕ
u64_max = 2 ^ 64 - 1

-- The digits of `n` in front of `out`, on fuel.
digits : ℕ → ℕ → Text → Text
digits zero n out = out
digits (suc f) n out =
    let more = digits f (n / 10) ((b'0' + n % 10) ∷ out) in
    if ltb n 10 then (b'0' + n) ∷ out else more

unfoldable pub print : ℕ → Text
unfolding digits
print n = digits (suc n) n []

-- Digits behind the value read so far, each step checked against `max`.
scan : ℕ → Text → ℕ → Option ℕ
scan max [] n = some n
scan max (c ∷ s) n =
    if ltb c b'0' || ltb b'9' c
    then none
    else if ltb max (n * 10 + (c - b'0'))
    then none
    else scan max s (n * 10 + (c - b'0'))

unsigned : ℕ → Text → Option ℕ
unfolding scan
unsigned max [] = none
unsigned max (c ∷ s) = scan max (c ∷ s) 0

unfoldable pub parse : ℕ → Text → Option ℕ
unfolding unsigned
parse max [] = none
parse max (c ∷ s) = if c == b'+' then unsigned max s else unsigned max (c ∷ s)

abbrev pub IsDigit : ℕ → Type 0
IsDigit c = (b'0' ≤ c) × (c ≤ b'9')

-- Reading the digits of `n` from 0 gets to `n`.
scan-digits :
    (max f n : ℕ) (out : Text) → n < f → n ≤ max → scan max (digits f n out) 0 ≡ scan max out n
unfolding scan digits
scan-digits max zero n out h fits = elim h [ ]
scan-digits max (suc f) n out h fits =
    ground (arith, scan-digits max f (n / 10) ((b'0' + n % 10) ∷ out))

-- The print begins with a digit.
digits_head :
    (f n : ℕ) (out : Text) → n < f → (c : ℕ) × (s : Text) × (digits f n out ≡ c ∷ s) × IsDigit c
unfolding digits
digits_head zero n out h = elim h [ ]
digits_head (suc zero) n out h = (b'0' + n, out, ground arith, ground arith)
digits_head (suc (suc f)) n out h = elim (dec_lt n 10) [
  | yes small ↦ (b'0' + n, out, ground arith, omega arith)
  | no large ↦
      (let ih = digits_head (suc f) (n / 10) ((b'0' + n % 10) ∷ out) (omega arith) in
        (ih.0, ih.1, ground (arith, ih.2), ih.3))
]

-- What is printed is read back, if it fits the type.
pub parse-print : (max n : ℕ) → n ≤ max → parse max (print n) ≡ some n
unfolding parse print unsigned
parse-print max n fits =
    let head = digits_head (suc n) n [] (omega arith) in
    let (c, s, e, d) = head in ground (arith, e, d, scan-digits max (suc n) n [])

digits-All : (f n : ℕ) (out : Text) → n < f → All IsDigit out → All IsDigit (digits f n out)
unfolding digits
digits-All zero n out h d = elim h [ ]
digits-All (suc f) n out h d = ground (arith, digits-All f (n / 10) ((b'0' + n % 10) ∷ out))

-- A print holds digits only.
pub print-All : (n : ℕ) → All IsDigit (print n)
unfolding print
print-All n = digits-All (suc n) n [] (omega arith) tt
