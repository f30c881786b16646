-- ===== src/Tests/Jobs.antt =====
-- A job on the node, and what its artifacts, its browser and its environment are.
use decent_render.Prelude.{
  any, ◌%◌, ◌^◌, text_eq, ◌≡◌, ◌≢◌, refl, ◌⊎◌, true, List, [], ◌∷◌, ◌++◌, none, some, Text, codes,
  split, All, arith,
}
use decent_render.Os.{pass, join}
use decent_render.Runner.{complete}
use decent_render.Runner.Environment.{spawn_env}
use decent_render.Runner.Environment.Allowed.{Reads, read_var, spawn_env_lem}
use decent_render.Runner.Browser.{kill_recorded_browsers, browser_executable_in}
use decent_render.Runner.Browser.Sweep.{Sweep, kill_recorded_browsers_lem}
use decent_render.Runner.Browser.Contained.{browser_executable_in_contained}
use decent_render.Cache.{touch_last_use}
use decent_render.Runner.Workdir.{workdir_bytes, contents, apparent_all, workdir_bytes_lem}
use decent_render.Purge.{new_workdir, new_from, create_private_dir}
use decent_render.Runner.Job.{
  run_job, run_job_inner, run_prepared, in_workdir, dispose, install_wrapper, terminal, outcome,
}
use decent_render.Runner.Child.{launch, attend, supervise, reap, write_frame, verdict}
use decent_render.Runner.Loop.{run_loop, on_turn, on_line, on_event, on_sample}
use decent_render.Runner.Terminate.{sweep_pidfile}
use decent_render.Runner.Artifact.{
  ensure_payload, ensure_browser, ensure_artifact, ensure_under, worker_root,
}
use decent_render.Runner.Job.Lifecycle.{phases, start, phase_of_job}
use decent_render.Runner.Job.Ordered.{run_job_ordered}
use decent_render.Protocol.{job_complete}
use decent_render.Os.{leaf, dir, nil, cons, is_separated}
use decent_render.Runner.Browser.{is_absolute, has_parent_dir}
use decent_render.Runner.Terminate.{Act, sent}
use decent_render.Runner.Silence.{
  Rounds, here, next, sample, armed, FiresSilence, silence_never_fires,
}
use decent_render.Runner.Job.Reported.{Report, metrics_for, last_done}
use decent_render.Runner.Job.Outcome.{exited_well, run_job_complete}
use decent_render.Tests.World.{file}
use decent_render.Tests.Machine.{node, home, assigned, machine, good_turns}

run_job_ordered_example :
    phases start (run_job node (some home) assigned 3600000 1073741824 good_turns machine).1
    ≡ some
        (phase_of_job (run_job node (some home) assigned 3600000 1073741824 good_turns machine).0)
run_job_ordered_example =
    run_job_ordered node (some home) assigned 3600000 1073741824 good_turns machine

completes :
    (run_job node (some home) assigned 3600000 1073741824 good_turns machine).0 ≡ some complete
unfolding run_job run_job_inner run_prepared in_workdir dispose install_wrapper terminal outcome
    launch attend supervise reap write_frame verdict run_loop on_turn on_line on_event on_sample
    sweep_pidfile ensure_payload ensure_browser ensure_artifact ensure_under worker_root new_workdir
    new_from create_private_dir touch_last_use workdir_bytes
completes = refl

run_job_complete_example :
    (report : Report) × (last_done node good_turns none ≡ some report)
    × (front : List Act) × ((run_job node
          (some home)
          assigned
          3600000
          1073741824
          good_turns
          machine).1
        ≡ front
          ++ sent (
              job_complete (record {
                tenant = codes "t";
                job_id = codes "j";
                attempt = some 1;
                output_key = codes "k";
                metrics = metrics_for assigned report;
              }))
            ∷ [])
    × (any exited_well front ≡ true)
run_job_complete_example =
    run_job_complete node (some home) assigned 3600000 1073741824 good_turns machine completes

-- The first sample of a job is over after five milliseconds.
sampled_once :
    Rounds (armed 0 3_600_000) (record { now = 5; sample_due = 2000; deadline_at = 3_600_000 })
unfolding armed
sampled_once = next here (sample _ 5 (omega arith) (omega arith))

silence_never_fires_example :
    ¬ FiresSilence (record { now = 5; sample_due = 2000; deadline_at = 3_600_000 })
silence_never_fires_example =
    silence_never_fires 0 3_600_000 (record { now = 5; sample_due = 2000; deadline_at = 3_600_000 })
      sampled_once

kill_recorded_browsers_lem_example :
    let swept = kill_recorded_browsers node (codes "/tmp/pids") (true, codes "7 noon") in
    ((some (codes "7 noon") ≡ none) × (swept ≡ ([], (true, codes "7 noon"))))
    ⊎ ((contents : Text) × (some (codes "7 noon") ≡ some contents)
        × Sweep node (split b'\n' contents) (true, codes "7 noon") swept.0 swept.1)
kill_recorded_browsers_lem_example =
    kill_recorded_browsers_lem node (codes "/tmp/pids") (true, codes "7 noon")

resolves :
    browser_executable_in node (codes "/b") (true, codes "chrome/bin")
    ≡ pass (codes "/b/chrome/bin")
unfolding browser_executable_in is_absolute has_parent_dir join text_eq split
resolves = refl

browser_executable_in_contained_example :
    (true ≡ true)
    × (relative : Text) × (relative ≢ [])
    × (split b'/' (codes "/b/chrome/bin") ≡ split b'/' (codes "/b") ++ split b'/' relative)
    × All (λ part. part ≢ codes "..") (split b'/' relative)
unfolding is_separated
browser_executable_in_contained_example =
    browser_executable_in_contained node (codes "/b") (codes "/b/chrome/bin")
      (true, codes "chrome/bin") refl resolves

spawn_env_lem_example :
    ((wrapper : Text) × (some (codes "/w") ≡ some wrapper)
      × (codes "WORKER_TOKEN" ≡ codes "DECENT_BROWSER_EXECUTABLE")
      × (read_var (codes "WORKER_TOKEN") (spawn_env node.vars (some (codes "/w"))) ≡ some wrapper))
    ⊎ (((some (codes "/w") ≡ none) ⊎ (codes "WORKER_TOKEN" ≢ codes "DECENT_BROWSER_EXECUTABLE"))
        × Reads node.vars
            (codes "WORKER_TOKEN")
            (read_var (codes "WORKER_TOKEN") (spawn_env node.vars (some (codes "/w")))))
spawn_env_lem_example = spawn_env_lem node.vars (some (codes "/w")) (codes "WORKER_TOKEN")

workdir_bytes_lem_example :
    workdir_bytes (dir file (cons (leaf file) nil))
    ≡ apparent_all (contents (dir file (cons (leaf file) nil))) % 2 ^ 64
workdir_bytes_lem_example = workdir_bytes_lem (dir file (cons (leaf file) nil))
