-- ===== src/Keepawake.antt =====
-- The idle-sleep assertion of a job (crates/supervisor-core/src/keepawake.rs), on macOS: a guard with a
-- caffeinate child, and the two counters of guards that a status surface reads. A counter is an i64,
-- written as its two's complement.
pub mod Kill
pub mod Counted
pub mod Honest
use decent_render.Prelude.{
  ℕ, zero, suc, Bool, true, false, List, [], ◌∷◌, Option, none, some, Text, codes, text_eq, ltb,
  leb, is_some, if◌then◌else◌, ◌+◌, ◌*◌, ◌%◌, ◌^◌, ◌&&◌,
}
use decent_render.Os.{Fallible, pass, fail}
use decent_render.Runner.Host.{KillSignal, sigterm, sigkill}

pub data KeepAwakeState : Type 0 where
  held failed_to_acquire unavailable : KeepAwakeState

-- What `Child::try_wait` answers.
pub data Polled : Type 0 where
  exited still_running poll_failed : Polled

-- `/usr/bin/caffeinate -i` and the clock, an `Instant` in nanoseconds.
pub record Caffeine (W : Type 0) : Type 0 where
  pub spawn : W → Fallible ℕ × W
  pub kill : ℕ → KillSignal → W → W
  pub try_wait : ℕ → W → Polled × W
  pub wait : ℕ → W → W
  pub instant : W → ℕ
  pub sleep : ℕ → W → W

-- `ACTIVE_GUARDS` and `FAILED_GUARDS`.
pub record Counters : Type 0 where
  pub active : ℕ
  pub failed : ℕ

pub record JobKeepAwake : Type 0 where
  pub child : Option ℕ

pub as_token : KeepAwakeState → Text
as_token held = codes "held"
as_token failed_to_acquire = codes "failed"
as_token unavailable = codes "unavailable"

pub from_token : Text → Option KeepAwakeState
unfolding as_token
from_token token =
    if text_eq token (codes "held")
    then some held
    else if text_eq token (codes "failed")
    then some failed_to_acquire
    else if text_eq token (codes "unavailable")
    then some unavailable
    else none

-- `n > 0` of an i64.
pub is_positive : ℕ → Bool
is_positive n = ltb 0 n && ltb n (2 ^ 63)

pub fetch_add : ℕ → ℕ
fetch_add n = (n + 1) % 2 ^ 64

pub fetch_sub : ℕ → ℕ
fetch_sub n = (n + 18446744073709551615) % 2 ^ 64

-- `(n - 1).max(0)` of an i64.
pub saturating : ℕ → ℕ
unfolding fetch_sub
saturating n = let m = fetch_sub n in if ltb m (2 ^ 63) then m else 0

pub current_state : Counters → Option KeepAwakeState
unfolding is_positive
current_state c =
    if is_positive c.active
    then some held
    else if is_positive c.failed
    then some failed_to_acquire
    else none

unfoldable pub is_held : JobKeepAwake → Bool
is_held guard = is_some guard.child

-- `JobKeepAwake::state`.
pub state : JobKeepAwake → KeepAwakeState
unfolding is_held
state guard = if is_held guard then held else failed_to_acquire

-- Twenty milliseconds and a second.
abbrev pub pause : ℕ
pause = 20 * 10 ^ 6

abbrev pub grace : ℕ
grace = 10 ^ 9

-- The polls of a teardown, as `Kill` shows.
abbrev pub most_polls : ℕ
most_polls = 51

module _ {W : Type 0} (caffeine : Caffeine W) where
  open caffeine use {spawn, kill, try_wait, wait, instant, sleep}

  -- The loop of `kill_child_tree`; `none` where the fuel is used up.
  unfoldable pub poll : ℕ → ℕ → ℕ → W → Option W
  poll zero pid deadline w = none
  poll (suc fuel) pid deadline w =
      let (polled, v) = try_wait pid w in
      let rest = poll fuel pid deadline (sleep pause v) in
      elim polled [
        | exited ↦ some v
        | poll_failed ↦ some v
        | still_running ↦
            if leb deadline (instant v) then some (wait pid (kill pid sigkill v)) else rest
      ]

  unfoldable pub kill_child_tree : ℕ → W → Option W
  unfolding poll
  kill_child_tree pid w = let w' = kill pid sigterm w in poll most_polls pid (instant w' + grace) w'

  unfoldable pub acquire : Counters → W → JobKeepAwake × Counters × W
  unfolding fetch_add
  acquire c w =
      let (spawned, w') = spawn w in
      elim spawned [
        | pass pid ↦ (record { child = some pid }, record c { active = fetch_add c.active }, w')
        | fail e ↦ (record { child = none }, record c { failed = fetch_add c.failed }, w')
      ]

  -- `Drop for JobKeepAwake`.
  unfoldable pub drop_child : Option ℕ → Counters → W → Counters × Option W
  unfolding fetch_sub saturating kill_child_tree
  drop_child none c w = (record c { failed = saturating c.failed }, some w)
  drop_child (some pid) c w = (record c { active = fetch_sub c.active }, kill_child_tree pid w)

  unfoldable pub release : JobKeepAwake → Counters → W → Counters × Option W
  unfolding drop_child
  release guard c w = drop_child guard.child c w
