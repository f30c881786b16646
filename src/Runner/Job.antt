-- ===== src/Runner/Job.antt =====
-- One job from its assignment to its terminal frame: `run_job` and `run_job_inner`
-- (crates/supervisor-core/src/runner.rs), on Unix.
pub mod Lifecycle
pub mod Phases
pub mod Ordered
pub mod Reported
pub mod Comes
pub mod Outcome
use decent_render.Prelude.{
  ℕ, Bool, true, false, List, [], ◌∷◌, ◌++◌, Option, none, some, Text, codes, ltb, unwrap_or,
  map_option, is_some, if◌then◌else◌, not,
}
use decent_render.Prelude.Decimal.{print}
use decent_render.Os.{Os, IoResult, ok, err, Fallible, pass, fail, join}
use decent_render.Purge.{PurgeFailure, NewResult, made, refused, new_workdir, drop_workdir}
use decent_render.Protocol.{
  JobAssignMessage, JobMetrics, JobCompleteMessage, JobFailedMessage, WorkerMessage, job_complete,
  job_failed,
}
use decent_render.Runner.{JobOutcome, complete, failed, progress_to_wire}
use decent_render.Runner.Event.{RunnerEvent, progress, heartbeat, done, error}
use decent_render.Runner.Host.{
  Host, KillSignal, sigterm, sigkill, ExitStatus, WaitResult, exited, wait_failed, Pipes,
}
use decent_render.Runner.Environment.{spawn_env}
use decent_render.Runner.Browser.{
  is_safe_signal_target, write_browser_wrapper, kill_recorded_browsers,
}
use decent_render.Runner.Artifact.{ensure_payload, ensure_browser}
use decent_render.Runner.Workdir.{workdir_bytes}
use decent_render.Runner.Terminate.{
  Act, spawned, waited, swept, purged, sent, awake_acquired, awake_released, terminate_child,
  sweep_pidfile,
}
use decent_render.Runner.Loop.{Turn, Context, After, goes_on, ended, fails, run_loop}
use decent_render.Runner.Child.{launch}

-- The world, the counter of `WorkDir::new` and the purge failures on record.
pub record Machine (W : Type 0) : Type 0 where
  pub world : W
  pub counter : ℕ
  pub purge_failures : List PurgeFailure

module _ {W : Type 0} (host : Host W) where
  open host use {
    os, killpg, child_id, wait_in_grace, wait, exit, vars, spawn, write_all, shutdown, from_str,
    to_vec, format_secs,
  }

  -- The browser's exec wrapper and its pidfile, where the assignment names a browser.
  unfoldable pub install_wrapper : Text → Option Text → W → Fallible (Option (Text × Text)) × W
  install_wrapper workdir none w = (pass none, w)
  install_wrapper workdir (some executable) w =
      let (installed, w') = write_browser_wrapper host workdir executable w in
      elim installed [
        | fail message ↦ (fail (codes "install browser exec wrapper"), w')
        | pass paths ↦ (pass (some paths), w')
      ]

  unfoldable pub in_workdir :
      JobAssignMessage
      → Text
      → Option Text
      → Text
      → ℕ
      → ℕ
      → List (Turn W)
      → W
      → Option (Fallible JobMetrics) × List Act × W
  unfolding install_wrapper launch
  in_workdir assign runner browser workdir limit max_bytes turns w =
      let (installed, w') = install_wrapper workdir browser w in
      elim installed [
        | fail message ↦ (some (fail message), [], w')
        | pass paths ↦
            launch host assign runner workdir (map_option (λ p. p.0) paths)
              (map_option (λ p. p.1) paths) limit max_bytes turns w'
      ]

  -- The drop of the working directory, when the body has returned.
  unfoldable pub dispose :
      Text
      → ℕ
      → List PurgeFailure
      → Option (Fallible JobMetrics)
      → List Act
      → W
      → Option (Fallible JobMetrics) × List Act × Machine W
  dispose workdir counter failures none acts w =
      (none, acts, record { world = w; counter = counter; purge_failures = failures })
  dispose workdir counter failures (some result) acts w =
      let (failures', w') = drop_workdir os workdir failures w in
      (
        some result,
        acts ++ purged workdir ∷ [],
        record { world = w'; counter = counter; purge_failures = failures' },
      )

  -- With the payload and the browser found.
  unfoldable pub run_prepared :
      JobAssignMessage
      → Text
      → Option Text
      → ℕ
      → ℕ
      → List (Turn W)
      → Machine W
      → Option (Fallible JobMetrics) × List Act × Machine W
  unfolding in_workdir dispose
  run_prepared assign runner browser limit max_bytes turns m =
      let (created, counter, w) =
        new_workdir os (codes "job-" ++ assign.job_id) m.counter m.world in
      elim created [
        | refused e ↦
            (some (fail (codes "create workdir")), [], record m { world = w; counter = counter })
        | made workdir ↦
            let (result, acts, w') =
              in_workdir assign runner browser workdir limit max_bytes turns w in
            dispose workdir counter m.purge_failures result acts w'
      ]

  unfoldable pub run_job_inner :
      Option Text
      → JobAssignMessage
      → ℕ
      → ℕ
      → List (Turn W)
      → Machine W
      → Option (Fallible JobMetrics) × List Act × Machine W
  unfolding run_prepared
  run_job_inner home assign limit max_bytes turns m =
      let (payload, w) = ensure_payload host home assign m.world in
      elim payload [
        | fail message ↦ (some (fail message), [], record m { world = w })
        | pass payload_dir ↦
            let runner = join payload_dir (codes "decent-render-runner") in
            let (browser, w') = ensure_browser host home assign w in
            if not (os.exists runner w)
            then (
              some (fail (codes "payload missing decent-render-runner at " ++ runner)),
              [],
              record m { world = w },
            )
            else elim browser [
              | fail message ↦ (some (fail message), [], record m { world = w' })
              | pass executable ↦
                  run_prepared assign runner executable limit max_bytes turns
                    (record m { world = w' })
            ]
      ]

-- The terminal frame of a result, and the outcome that `run_job` returns.
unfoldable pub terminal : JobAssignMessage → Fallible JobMetrics → WorkerMessage
terminal assign (pass metrics) = job_complete (record {
  tenant = assign.tenant;
  job_id = assign.job_id;
  attempt = assign.attempt;
  output_key = assign.output_key;
  metrics = metrics;
})
terminal assign (fail reason) = job_failed (record {
  tenant = assign.tenant;
  job_id = assign.job_id;
  attempt = assign.attempt;
  reason = reason;
})

unfoldable pub outcome : Fallible JobMetrics → JobOutcome
outcome (pass metrics) = complete
outcome (fail reason) = failed

-- `none` while the job runs.
unfoldable pub run_job :
    {W : Type 0}
    → Host W
    → Option Text
    → JobAssignMessage
    → ℕ
    → ℕ
    → List (Turn W)
    → Machine W
    → Option JobOutcome × List Act × Machine W
unfolding run_job_inner terminal outcome
run_job host home assign limit max_bytes turns m =
    let (result, acts, m') = run_job_inner host home assign limit max_bytes turns m in
    elim result [
      | none ↦ (none, awake_acquired ∷ acts, m')
      | some r ↦ (
        some (outcome r),
        awake_acquired ∷ (acts ++ awake_released ∷ sent (terminal assign r) ∷ []),
        m',
      )
    ]
