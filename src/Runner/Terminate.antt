-- ===== src/Runner/Terminate.antt =====
-- The end of a job's process tree (`terminate_child` of crates/supervisor-core/src/runner.rs), on
-- Unix. Each definition returns what it did, in order, as a list of acts.
use decent_render.Prelude.{ℕ, List, [], ◌∷◌, ◌++◌, Option, none, some, Text, if◌then◌else◌}
use decent_render.Os.{as_pid_t}
use decent_render.Protocol.{WorkerMessage}
use decent_render.Runner.Host.{Host, KillSignal, sigterm, sigkill, WaitResult}
use decent_render.Runner.Browser.{is_safe_signal_target, kill_recorded_browsers}

-- What a job does that another process, dispatch or the file system sees. `waited` is a wait for the
-- child that returned, with what it returned.
pub data Act : Type 0 where
  awake_acquired awake_released : Act
  spawned : Act
  waited : WaitResult → Act
  signalled : ℕ → KillSignal → Act
  swept : List ℕ → Act
  purged : Text → Act
  sent : WorkerMessage → Act

module _ {W : Type 0} (host : Host W) where
  open host use {
    os, killpg, child_id, wait_in_grace, wait, exit, vars, spawn, write_all, shutdown, from_str,
    to_vec, format_secs,
  }

  -- A signal to the child's process group, if it has not been waited for and is safe.
  unfoldable pub signal_group : KillSignal → W → List Act × W
  unfolding is_safe_signal_target
  signal_group s w = elim (child_id w) [
    | none ↦ ([], w)
    | some pid ↦
        if is_safe_signal_target pid os.process_id
        then (signalled pid s ∷ [], killpg (as_pid_t pid) s w)
        else ([], w)
  ]

  unfoldable pub sweep_pidfile : Option Text → W → List Act × W
  sweep_pidfile none w = ([], w)
  sweep_pidfile (some pidfile) w =
      let (killed, w') = kill_recorded_browsers host pidfile w in (swept killed ∷ [], w')

  unfoldable pub escalate : W → List Act × W
  unfolding signal_group
  escalate w =
      let (in_time, w') = wait_in_grace w in
      let (kill, w'') = signal_group sigkill w' in
      let (result, w3) = wait w'' in
      elim in_time [
        | some early ↦ (waited early ∷ [], w')
        | none ↦ (kill ++ waited result ∷ [], w3)
      ]

  unfoldable pub terminate_child : Option Text → W → List Act × W
  unfolding signal_group escalate sweep_pidfile
  terminate_child pidfile w =
      let (term, w1) = signal_group sigterm w in
      let (reap, w2) = escalate w1 in
      let (sweep, w3) = sweep_pidfile pidfile w2 in (term ++ (reap ++ sweep), w3)
