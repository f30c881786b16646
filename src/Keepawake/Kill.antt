-- ===== src/Keepawake/Kill.antt =====
-- The teardown of a caffeinate child ends (`kill_child_tree` of
-- crates/supervisor-core/src/keepawake.rs).
use decent_render.Prelude.{ℕ, zero, suc, ◌≢◌, none, ◌+◌, ◌*◌, ◌≤◌, arith}
use decent_render.Runner.Host.{sigterm}
use decent_render.Keepawake.{Caffeine, pause, grace, poll, kill_child_tree}

module _ {W : Type 0} (caffeine : Caffeine W) where
  open caffeine use {spawn, kill, try_wait, wait, instant, sleep}

  -- The documented behaviour of the clock: it does not go back, and a sleep takes its time.
  pub record Clocked : Type 0 where
    pub steady : (pid : ℕ) (w : W) → instant w ≤ instant (try_wait pid w).1
    pub slept : (d : ℕ) (w : W) → instant w + d ≤ instant (sleep d w)

  module _ (clocked : Clocked) where
    open clocked use {steady, slept}

    poll_lem :
        (fuel pid deadline : ℕ) (w : W)
        → deadline ≤ instant w + pause * fuel
        → poll caffeine (suc fuel) pid deadline w ≢ none
    unfolding poll
    poll_lem zero pid deadline w h =
        let polled-steady = steady pid w in ground (arith, h, polled-steady)
    poll_lem (suc fuel) pid deadline w h =
        let v = (try_wait pid w).1 in
        let after_poll = steady pid w in
        let after_sleep = slept pause v in
        let ih = poll_lem fuel pid deadline (sleep pause v) (omega arith) in
        ground (arith, after_poll, ih)

    pub kill_child_tree_lem : (pid : ℕ) (w : W) → kill_child_tree caffeine pid w ≢ none
    unfolding kill_child_tree
    kill_child_tree_lem pid w =
        let w' = kill pid sigterm w in poll_lem 50 pid (instant w' + grace) w' (omega arith)
