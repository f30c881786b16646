-- ===== src/Runner/Child.antt =====
-- The runner child from its spawn to its result (`run_job_inner` of
-- crates/supervisor-core/src/runner.rs), on Unix.
use decent_render.Prelude.{
  ℕ, List, [], ◌∷◌, ◌++◌, Option, none, some, Text, codes, if◌then◌else◌, not,
}
use decent_render.Os.{IoResult, ok, err, Fallible, pass, fail}
use decent_render.Protocol.{JobAssignMessage, JobMetrics}
use decent_render.Runner.Host.{Host, exited, wait_failed, Pipes}
use decent_render.Runner.Environment.{spawn_env}
use decent_render.Runner.Terminate.{Act, spawned, waited, terminate_child, sweep_pidfile}
use decent_render.Runner.Loop.{Turn, Context, goes_on, ended, fails, run_loop}

unexplained : Option Text → Text
unexplained none = codes "runner exited without done event"
unexplained (some e) = codes "runner never received its assignment: " ++ e

-- The job's result when the runner has exited with success.
unfoldable pub verdict : Option JobMetrics → Option Text → Fallible JobMetrics
unfolding unexplained
verdict (some m) stdin_error = pass m
verdict none stdin_error = fail (unexplained stdin_error)

module _ {W : Type 0} (host : Host W) where
  open host use {
    os, killpg, child_id, wait_in_grace, wait, exit, vars, spawn, write_all, shutdown, from_str,
    to_vec, format_secs,
  }

  -- From the end of stdout on: the wait, which nothing cuts off, and the sweep behind it; `none` while
  -- the child lives on.
  unfoldable pub reap :
      Context → Option JobMetrics → Option Text → W → Option (Fallible JobMetrics) × List Act × W
  unfolding terminate_child sweep_pidfile verdict
  reap ctx metrics stdin_error w =
      let (result, w') = exit w in
      let (acts, w'') = terminate_child host ctx.pidfile w' in
      let (sweep, w3) = sweep_pidfile host ctx.pidfile w' in
      elim result [
        | none ↦ (none, [], w')
        | some (wait_failed e) ↦ (some (fail (codes "runner wait failed")), acts, w'')
        | some (exited status) ↦ (
          some (
              if status.success
              then verdict metrics stdin_error
              else fail (codes "runner exited with " ++ status.display)),
          waited (exited status) ∷ sweep,
          w3,
        )
      ]

  -- The loop and what follows it; `none` while the job runs.
  unfoldable pub supervise :
      Context → List (Turn W) → Option Text → W → Option (Fallible JobMetrics) × List Act × W
  unfolding run_loop reap
  supervise ctx turns stdin_error w =
      let (after, acts, w') = run_loop host ctx turns none w in
      elim after [
        | goes_on metrics ↦ (none, acts, w')
        | fails message ↦ (some (fail message), acts, w')
        | ended metrics ↦
            let (result, acts', w'') = reap ctx metrics stdin_error w' in
            (result, acts ++ acts', w'')
      ]

  io_error : IoResult → Option Text
  io_error ok = none
  io_error (err e) = some e.message

  -- The job frame is written to stdin; an error of it is kept.
  unfoldable pub write_frame : Text → W → Option Text × W
  unfolding io_error
  write_frame input w =
      let (written, w') = write_all input w in
      let (closed, w'') = shutdown w' in
      elim written [ ok ↦ (io_error closed, w'') | err e ↦ (some e.message, w') ]

  -- With the child spawned.
  unfoldable pub attend :
      Context → Text → Pipes → List (Turn W) → W → Option (Fallible JobMetrics) × List Act × W
  unfolding terminate_child write_frame supervise
  attend ctx input pipes turns w =
      let (acts, w') = terminate_child host ctx.pidfile w in
      let (stdin_error, v) = write_frame input w in
      let (acts', v') = terminate_child host ctx.pidfile v in
      if not pipes.stdin
      then (some (fail (codes "runner stdin missing")), acts, w')
      else if not pipes.stdout
      then (some (fail (codes "runner stdout missing")), acts', v')
      else supervise ctx turns stdin_error v

  -- With the working directory made: a failure before the spawn returns at once.
  unfoldable pub launch :
      JobAssignMessage
      → Text
      → Text
      → Option Text
      → Option Text
      → ℕ
      → ℕ
      → List (Turn W)
      → W
      → Option (Fallible JobMetrics) × List Act × W
  unfolding attend
  launch assign runner workdir wrapper pidfile wall_clock_limit workdir_cap_bytes turns w =
      let ctx : Context = record {
        assign = assign;
        workdir = workdir;
        pidfile = pidfile;
        wall_clock_limit = wall_clock_limit;
        workdir_cap_bytes = workdir_cap_bytes;
      } in
      elim (to_vec assign) [
        | fail message ↦ (some (fail message), [], w)
        | pass input ↦
            let (child, w') = spawn runner (spawn_env vars wrapper) workdir w in
            elim child [
              | fail message ↦ (some (fail (codes "spawn runner " ++ runner)), [], w')
              | pass pipes ↦
                  let (result, acts, w'') = attend ctx input pipes turns w' in
                  (result, spawned ∷ acts, w'')
            ]
      ]
