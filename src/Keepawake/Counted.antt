-- ===== src/Keepawake/Counted.antt =====
-- The two counters of guards and the guards that are alive: what exact counters say
-- (crates/supervisor-core/src/keepawake.rs).
use decent_render.Prelude.{
  ℕ, zero, suc, ◌≡◌, inl, inr, refl, List, [], ◌∷◌, Option, none, some, Option-cases, text_eq, any,
  ltb, if◌then◌else◌, ◌+◌, ◌^◌, ◌<◌, arith,
}
use decent_render.Keepawake.{
  KeepAwakeState, held, failed_to_acquire, unavailable, as_token, from_token, Counters,
  JobKeepAwake, is_positive, fetch_add, fetch_sub, saturating, current_state, is_held,
}

-- The guard at a position, and the others.
pub take_out : ℕ → List JobKeepAwake → Option (JobKeepAwake × List JobKeepAwake)
take_out n [] = none
take_out zero (g ∷ gs) = some (g, gs)
take_out (suc n) (g ∷ gs) = elim (take_out n gs) [
  | none ↦ none
  | some (found, others) ↦ some (found, g ∷ others)
]

-- What a status surface should say of these guards.
pub honest : List JobKeepAwake → Option KeepAwakeState
honest [] = none
honest (g ∷ gs) = if any is_held (g ∷ gs) then some held else some failed_to_acquire

unfoldable pub count_held : List JobKeepAwake → ℕ
count_held [] = 0
count_held (g ∷ gs) = if is_held g then suc (count_held gs) else count_held gs

unfoldable pub count_childless : List JobKeepAwake → ℕ
count_childless [] = 0
count_childless (g ∷ gs) = if is_held g then count_childless gs else suc (count_childless gs)

pub fetch_add_lem : (n : ℕ) → n + 1 < 2 ^ 63 → fetch_add n ≡ suc n
unfolding fetch_add
fetch_add_lem n h = omega arith

pub fetch_sub_lem : (n : ℕ) → suc n < 2 ^ 63 → fetch_sub (suc n) ≡ n
unfolding fetch_sub
fetch_sub_lem n h = omega arith

pub saturating_lem : (n : ℕ) → suc n < 2 ^ 63 → saturating (suc n) ≡ n
unfolding saturating
saturating_lem n h = ground (arith, fetch_sub_lem n h)

-- The guard that is taken out was counted.
pub take_out-count :
    (n : ℕ) (gs : List JobKeepAwake) (g : JobKeepAwake) (rest : List JobKeepAwake)
    → take_out n gs ≡ some (g, rest)
    → (count_held gs ≡ count_held (g ∷ rest)) × (count_childless gs ≡ count_childless (g ∷ rest))
unfolding take_out count_held count_childless
take_out-count n [] g rest h = ground (arith, h)
take_out-count zero (x ∷ xs) g rest h = ground (arith, h)
take_out-count (suc n) (x ∷ xs) g rest h = elim (Option-cases (take_out n xs)) [
  | inl gone ↦ absurd (ground (arith, h, gone))
  | inr ((found, others), e) ↦
      let ih = take_out-count n xs found others e in ground (arith, h, e, ih)
]

any-count : (gs : List JobKeepAwake) → any is_held gs ≡ ltb 0 (count_held gs)
unfolding count_held
any-count [] = refl
any-count (g ∷ gs) = let ih = any-count gs in ground (arith, ih)

count-honest :
    (gs : List JobKeepAwake)
    → honest gs ≡ (
        if ltb 0 (count_held gs)
        then some held
        else if ltb 0 (count_childless gs)
        then some failed_to_acquire
        else none)
unfolding honest count_held count_childless
count-honest [] = refl
count-honest (g ∷ gs) = let e = any-count gs in ground (arith, e)

from_token-as_token : (s : KeepAwakeState) → from_token (as_token s) ≡ some s
unfolding from_token as_token text_eq
from_token-as_token held = refl
from_token-as_token failed_to_acquire = refl
from_token-as_token unavailable = refl

-- The counters are exact.
unfoldable pub IsExact : Counters → List JobKeepAwake → Type 0
IsExact c gs = (c.active ≡ count_held gs) × (c.failed ≡ count_childless gs)

pub current_state-honest :
    (c : Counters) (gs : List JobKeepAwake)
    → IsExact c gs
    → c.active + c.failed < 2 ^ 63
    → current_state c ≡ honest gs
unfolding IsExact current_state is_positive
current_state-honest c gs (active, failed) small =
    let e = count-honest gs in ground (arith, e, active, failed, small)
