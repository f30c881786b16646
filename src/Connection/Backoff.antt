-- ===== src/Connection/Backoff.antt =====
-- The jittered exponential backoff of crates/supervisor-core/src/connection.rs. Durations count
-- nanoseconds. The uniform draws are a parameter: the source seeds a generator from the clock, clamps
-- each draw to [0, 1] and scales the target by `Duration::mul_f64`.
use decent_render.Prelude.{
  ℕ, ◌+◌, ◌-◌, ◌*◌, ◌^◌, ◌≤◌, ◌<◌, ◌≡◌, refl, List, [], ◌∷◌, leb, min, length, All, if◌then◌else◌,
  arith,
}
use native.Mathlib.Decide.{dec_le}
use native.Mathlib.Nat.{min-eq_left, pow-le-pow_right}

pub record ReconnectBackoff : Type 0 where
  pub base : ℕ
  pub max : ℕ
  pub attempt : ℕ

-- `Duration::MAX`.
abbrev pub duration_max : ℕ
duration_max = 2 ^ 64 * 1_000_000_000 - 1

abbrev u32_max : ℕ
u32_max = 2 ^ 32 - 1

unfoldable pub new : ℕ → ℕ → ReconnectBackoff
new base max = record { base = base; max = max; attempt = 0 }

-- `1u32.checked_shl(shift)`, `none` for a shift of 32 or more.
shifted : ℕ → ℕ
shifted shift = if leb 32 shift then u32_max else 2 ^ shift

-- `base.saturating_mul(factor).min(max)` with the shift capped at 31.
pub target : ReconnectBackoff → ℕ
unfolding shifted
target b = min (min (b.base * shifted (min b.attempt 31)) duration_max) b.max

pub session_lasted : ℕ → ReconnectBackoff → ReconnectBackoff
session_lasted connected_for b = if leb b.max connected_for then record b { attempt = 0 } else b

module _ {Draw : Type 0} (mul_f64 : ℕ → Draw → ℕ) where
  -- The draw comes clamped.
  unfoldable pub next_delay : Draw → ReconnectBackoff → ℕ × ReconnectBackoff
  unfolding target
  next_delay u b = (mul_f64 (target b) u, record b { attempt = min (b.attempt + 1) u32_max })

  -- One disconnect: how long the session lasted, and the draw.
  pub disconnect : ℕ × Draw → ReconnectBackoff → ℕ × ReconnectBackoff
  unfolding next_delay session_lasted
  disconnect (connected_for, u) b = next_delay u (session_lasted connected_for b)

  -- A series of disconnects, the latest first: the delays, and the state behind them.
  pub delays : ReconnectBackoff → List (ℕ × Draw) → List ℕ × ReconnectBackoff
  unfolding disconnect
  delays b [] = ([], b)
  delays b (d ∷ ds) =
      let (earlier, b') = delays b ds in
      let (delay, b'') = disconnect d b' in (delay ∷ earlier, b'')

mul-le-mul : (a b c : ℕ) → b ≤ c → a * b ≤ a * c
mul-le-mul a b c h = grind arith

-- At every attempt the target is the doubled base or the cap, whichever is less, if the cap is below
-- 2^31 times the base: the capped shift and the saturation never show.
pub target_lem :
    (b : ReconnectBackoff)
    → b.max ≤ duration_max
    → b.max ≤ b.base * 2 ^ 31
    → target b ≡ min (b.base * 2 ^ b.attempt) b.max
unfolding target shifted
target_lem b fits low = elim (dec_le b.attempt 31) [
  | yes few ↦ rw (min-eq_left few) (ground arith)
  | no many ↦
      let capped : min b.attempt 31 ≡ 31 = omega arith in
      let grows =
        mul-le-mul b.base (2 ^ 31) (2 ^ b.attempt)
          (pow-le-pow_right {n = 2} (omega arith) {i = 31} {j = b.attempt} (omega arith)) in
      rw capped (omega arith)
]

pub target-le : (b : ReconnectBackoff) → target b ≤ b.max
unfolding target
target-le b = omega arith

pub session_lasted-max : (c : ℕ) (b : ReconnectBackoff) → (session_lasted c b).max ≡ b.max
unfolding session_lasted
session_lasted-max c b = ground arith

-- A session that lasted as long as the cap starts the curve anew, at the base or the cap.
pub target-session_lasted :
    (c : ℕ) (b : ReconnectBackoff)
    → b.max ≤ duration_max
    → b.max ≤ c
    → target (session_lasted c b) ≡ min b.base b.max
unfolding target session_lasted shifted
target-session_lasted c b fits healthy = ground arith

module _ {Draw : Type 0} (mul_f64 : ℕ → Draw → ℕ) where
  -- The disconnected sessions were all shorter than the cap.
  abbrev pub IsShort : ℕ → ℕ × Draw → Type 0
  IsShort max (connected_for, u) = connected_for < max

  delays-kept :
      (b : ReconnectBackoff) (ds : List (ℕ × Draw))
      → let b' = (delays mul_f64 b ds).1 in (b'.base ≡ b.base) × (b'.max ≡ b.max)
  unfolding delays disconnect next_delay session_lasted
  delays-kept b [] = (refl, refl)
  delays-kept b (d ∷ ds) = ground (arith, delays-kept b ds)

  -- No delay is above the cap, in any series of disconnects, if scaling by a draw never grows.
  pub delays-le-max :
      (b : ReconnectBackoff) (ds : List (ℕ × Draw))
      → ((t : ℕ) (u : Draw) → mul_f64 t u ≤ t)
      → All (λ delay. delay ≤ b.max) (delays mul_f64 b ds).0
  unfolding delays disconnect next_delay
  delays-le-max b [] shrinks = tt
  delays-le-max b ((c, u) ∷ ds) shrinks =
      let b' = session_lasted c (delays mul_f64 b ds).1 in
      (
        omega (
          arith,
          shrinks (target b') u,
          target-le (session_lasted c (delays mul_f64 b ds).1),
          session_lasted-max c (delays mul_f64 b ds).1,
          (delays-kept b ds).1,
        ),
        delays-le-max b ds shrinks,
      )

  -- Each short session raises the attempt by one, so that the targets climb along the curve.
  pub delays-attempt :
      (b : ReconnectBackoff) (ds : List (ℕ × Draw))
      → b.attempt + length ds ≤ u32_max
      → All (IsShort b.max) ds
      → (delays mul_f64 b ds).1.attempt ≡ b.attempt + length ds
  unfolding delays disconnect next_delay session_lasted
  delays-attempt b [] h short = omega arith
  delays-attempt b ((c, u) ∷ ds) h short =
      ground (arith, delays-attempt b ds (omega arith) short.1, delays-kept b ds, short.0)

  -- From a fresh start, after any number of sessions shorter than the cap, the delay behind a further
  -- one is the scaling, by its draw, of the base doubled that many times, or of the cap if that is
  -- less; the cap is at most 2^31 times the base.
  pub delays-target :
      (base max : ℕ) (ds : List (ℕ × Draw)) (connected_for : ℕ) (u : Draw)
      → max ≤ duration_max
      → max ≤ base * 2 ^ 31
      → length ds ≤ u32_max
      → All (IsShort max) ds
      → connected_for < max
      → (delays mul_f64 (new base max) ((connected_for, u) ∷ ds)).0
        ≡ mul_f64 (min (base * 2 ^ length ds) max) u ∷ (delays mul_f64 (new base max) ds).0
  unfolding new delays disconnect next_delay session_lasted
  delays-target base max ds connected_for u fits low few short last =
      let kept = delays-kept (new base max) ds in
      let counted = delays-attempt (new base max) ds (omega arith) short in
      let b = (delays mul_f64 (new base max) ds).1 in
      let same : target (session_lasted connected_for b) ≡ min (base * 2 ^ length ds) max =
        ground (arith, kept, counted, last, target_lem b) in
      rw same refl
