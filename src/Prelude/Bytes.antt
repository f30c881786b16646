-- ===== src/Prelude/Bytes.antt =====
-- Text as its UTF-8 bytes, and equality of texts.
use Prim.Native.Nat.{ℕ, ◌≤◌}
use Prim.Native.Char.{code}
use Prim.Native.String.{String}
use mathlib.Core.Path.{◌≡◌, refl}
use mathlib.Core.Logic.{◌↔◌, ◌≢◌}
use mathlib.Core.Bool.{Bool, true, false, ◌&&◌}
use mathlib.Core.List.{List, [], ◌∷◌, ◌++◌}
use mathlib.Core.Option.{Option, none, some}
use native.Mathlib.Omega.{arith}
use decent_render.Prelude.Tests.{◌==◌, if◌then◌else◌}
use decent_render.Prelude.Lists.{All, length}

-- `String`, `&str` and `PathBuf`, as bytes.
abbrev pub Text : Type 0
Text = List ℕ

-- The bytes of an ASCII literal.
abbrev pub codes : String → Text
codes String.[] = []
codes (String.◌∷◌ c s) = code c ∷ codes s

unfoldable pub text_eq : Text → Text → Bool
text_eq [] [] = true
text_eq [] (b ∷ t) = false
text_eq (a ∷ s) [] = false
text_eq (a ∷ s) (b ∷ t) = (a == b) && text_eq s t

pub text_eq_refl : (s : Text) → text_eq s s ≡ true
unfolding text_eq
text_eq_refl [] = refl
text_eq_refl (a ∷ s) = ground (arith, text_eq_refl s)

pub text_eq_sound : (s t : Text) → text_eq s t ≡ true → s ≡ t
unfolding text_eq
text_eq_sound [] [] h = refl
text_eq_sound [] (b ∷ t) h = cc
text_eq_sound (a ∷ s) [] h = cc
text_eq_sound (a ∷ s) (b ∷ t) h = ground (arith, text_eq_sound s t)

pub text_eq_iff : (s t : Text) → (text_eq s t ≡ true) ↔ (s ≡ t)
text_eq_iff s t = (text_eq_sound s t, λ e. cc (text_eq_refl s))

-- `Option<u32> == Option<u32>`.
unfoldable pub option_eq : Option ℕ → Option ℕ → Bool
option_eq none none = true
option_eq none (some b) = false
option_eq (some a) none = false
option_eq (some a) (some b) = a == b

pub option_eq_iff : (a b : Option ℕ) → (option_eq a b ≡ true) ↔ (a ≡ b)
unfolding option_eq
option_eq_iff a b = ground arith

-- `Option<&str> == Option<&str>`.
unfoldable pub option_text_eq : Option Text → Option Text → Bool
option_text_eq none none = true
option_text_eq none (some b) = false
option_text_eq (some a) none = false
option_text_eq (some a) (some b) = text_eq a b

pub option_text_eq_iff : (a b : Option Text) → (option_text_eq a b ≡ true) ↔ (a ≡ b)
unfolding option_text_eq
option_text_eq_iff none none = ground arith
option_text_eq_iff none (some b) = ground arith
option_text_eq_iff (some a) none = ground arith
option_text_eq_iff (some a) (some b) = ground (arith, text_eq_iff a b)

-- `str::starts_with`.
unfoldable pub starts_with : Text → Text → Bool
starts_with [] s = true
starts_with (a ∷ p) [] = false
starts_with (a ∷ p) (b ∷ s) = (a == b) && starts_with p s

push_front : ℕ → List Text → List Text
push_front c [] = (c ∷ []) ∷ []
push_front c (p ∷ ps) = (c ∷ p) ∷ ps

-- `str::split` at one byte.
unfoldable pub split : ℕ → Text → List Text
unfolding push_front
split sep [] = [] ∷ []
split sep (c ∷ s) = let rest = split sep s in if c == sep then [] ∷ rest else push_front c rest

push_front-append :
    (c : ℕ) (ps qs : List Text) → ps ≢ [] → push_front c (ps ++ qs) ≡ push_front c ps ++ qs
unfolding push_front
push_front-append c [] qs h = absurd (h refl)
push_front-append c (p ∷ ps) qs h = refl

split-ne-nil : (sep : ℕ) (s : Text) → split sep s ≢ []
unfolding split
split-ne-nil sep [] e = cc
split-ne-nil sep (c ∷ s) e = ground (arith, split-ne-nil sep s)

pub length-split : (sep : ℕ) (s : Text) → 1 ≤ length (split sep s)
length-split sep s = grind (arith, split-ne-nil sep s)

-- A separator splits the parts before it from those behind it.
pub split-append : (sep : ℕ) (s t : Text) → split sep (s ++ sep ∷ t) ≡ split sep s ++ split sep t
unfolding split
split-append sep [] t = ground arith
split-append sep (c ∷ s) t = ground (
  arith,
  split-append sep s t,
  push_front-append c (split sep s) (split sep t) (split-ne-nil sep s),
)

-- A text without the separator is its own only part.
pub split_one : (sep : ℕ) (s : Text) → All (λ c. c ≢ sep) s → split sep s ≡ s ∷ []
unfolding split
split_one sep [] h = refl
split_one sep (c ∷ s) h = ground (arith, split_one sep s h.1, h.0)
