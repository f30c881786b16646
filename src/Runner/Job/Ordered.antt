-- ===== src/Runner/Job/Ordered.antt =====
-- The order of what a job does, against a lifecycle (`run_job` of
-- crates/supervisor-core/src/runner.rs).
use decent_render.Prelude.{
  ℕ, ◌≡◌, refl, ◌⊎◌, inl, inr, List, [], ◌∷◌, ◌++◌, Option, none, some, Text, codes, map_option,
  arith, Bool-cases, Option-cases,
}
use mathlib.Core.Path.{subst}
use decent_render.Runner.Artifact.{ensure_payload, ensure_browser}
use decent_render.Os.{join, Fallible, Fallible-cases, pass, fail}
use decent_render.Purge.{PurgeFailure, new_workdir}
use decent_render.Protocol.{JobAssignMessage, JobMetrics}
use decent_render.Runner.Host.{Host}
use decent_render.Runner.Environment.{spawn_env}
use decent_render.Runner.Terminate.{Act, awake_released, spawned, purged, sent}
use decent_render.Runner.Loop.{Turn, Context}
use decent_render.Runner.Child.{attend, launch}
use decent_render.Runner.Job.{
  Machine, install_wrapper, in_workdir, dispose, run_prepared, run_job_inner, terminal, run_job,
}
use decent_render.Runner.Job.Lifecycle.{
  start, setup, live, reaped, clean, finished, phases, phases-append, phase_of_result, phase_of_job,
  NewResult-cases,
}
use decent_render.Runner.Job.Phases.{attend-phase}

module _ {W : Type 0} (host : Host W) where
  -- With the working directory made, the phase that the child is in.
  IsDisposable : Option (Fallible JobMetrics) → List Act → Type 0
  IsDisposable none acts = phases setup acts ≡ some live
  IsDisposable (some r) acts = (phases setup acts ≡ some setup) ⊎ (phases setup acts ≡ some reaped)

  attended :
      (result : Option (Fallible JobMetrics)) (acts : List Act)
      → phases live acts ≡ some (phase_of_result reaped result)
      → IsDisposable result (spawned ∷ acts)
  unfolding IsDisposable
  attended none acts h = h
  attended (some r) acts h = inr h

  launch-IsDisposable :
      (assign : JobAssignMessage) (runner workdir : Text) (wrapper pidfile : Option Text)
      (limit max_bytes : ℕ) (turns : List (Turn W)) (w : W)
      → let (result, acts, _) =
          launch host assign runner workdir wrapper pidfile limit max_bytes turns w in
        IsDisposable result acts
  unfolding launch IsDisposable
  launch-IsDisposable assign runner workdir wrapper pidfile limit max_bytes turns w =
      let (child, w') = host.spawn runner (spawn_env host.vars wrapper) workdir w in
      let ctx : Context = record {
        assign = assign;
        workdir = workdir;
        pidfile = pidfile;
        wall_clock_limit = limit;
        workdir_cap_bytes = max_bytes;
      } in
      elim (Fallible-cases (host.to_vec assign)) [
        | inr (m, mute) ↦ rw (launch, mute) (inl refl)
        | inl (input, encoded) ↦ elim (Fallible-cases child) [
          | inr (m, barren) ↦ rw (launch, encoded, barren) (inl refl)
          | inl (pipes, born) ↦
              let (result, acts, _) = attend host ctx input pipes turns w' in
              rw (launch, encoded, born)
                (attended result acts (attend-phase host ctx input pipes turns w'))
        ]
      ]

  in_workdir-IsDisposable :
      (assign : JobAssignMessage) (runner : Text) (browser : Option Text) (workdir : Text)
      (limit max_bytes : ℕ) (turns : List (Turn W)) (w : W)
      → let (result, acts, _) =
          in_workdir host assign runner browser workdir limit max_bytes turns w in
        IsDisposable result acts
  unfolding in_workdir IsDisposable
  in_workdir-IsDisposable assign runner browser workdir limit max_bytes turns w =
      let (installed, w') = install_wrapper host workdir browser w in
      elim (Fallible-cases installed) [
        | inr (m, bare) ↦ rw (in_workdir, bare) (inl refl)
        | inl (paths, fitted) ↦
            rw (in_workdir, fitted)
              (launch-IsDisposable assign runner workdir (map_option (λ p. p.0) paths)
                (map_option (λ p. p.1) paths) limit max_bytes turns w')
      ]

  dispose-phase :
      (workdir : Text) (counter : ℕ) (failures : List PurgeFailure)
      (result : Option (Fallible JobMetrics)) (acts : List Act) (w : W)
      → IsDisposable result acts
      → let (result', acts', _) = dispose host workdir counter failures result acts w in
        phases setup acts' ≡ some (phase_of_result clean result')
  unfolding dispose IsDisposable
  dispose-phase workdir counter failures none acts w h = h
  dispose-phase workdir counter failures (some r) acts w (inl h) =
      phases-append setup setup acts (purged workdir ∷ []) h
  dispose-phase workdir counter failures (some r) acts w (inr h) =
      phases-append setup reaped acts (purged workdir ∷ []) h

  -- With a working directory it was purged, and without one there was no child.
  abbrev IsSettled : Option (Fallible JobMetrics) → List Act → Type 0
  IsSettled result acts =
      (phases setup acts ≡ some (phase_of_result clean result))
      ⊎ (phases setup acts ≡ some (phase_of_result setup result))

  run_prepared-phase :
      (assign : JobAssignMessage) (runner : Text) (browser : Option Text) (limit max_bytes : ℕ)
      (turns : List (Turn W)) (m : Machine W)
      → let (result, acts, _) = run_prepared host assign runner browser limit max_bytes turns m in
        IsSettled result acts
  unfolding run_prepared
  run_prepared-phase assign runner browser limit max_bytes turns m =
      let (created, counter, w) =
        new_workdir host.os (codes "job-" ++ assign.job_id) m.counter m.world in
      elim (NewResult-cases created) [
        | inl (e, none_left) ↦ rw (run_prepared, none_left) (inr refl)
        | inr (workdir, fresh) ↦
            let (result, acts, w') =
              in_workdir host assign runner browser workdir limit max_bytes turns w in
            rw (run_prepared, fresh)
              (inl (
                dispose-phase workdir counter m.purge_failures result acts w'
                  (in_workdir-IsDisposable assign runner browser workdir limit max_bytes turns w)))
      ]

  run_job_inner-IsSettled :
      (home : Option Text) (assign : JobAssignMessage) (limit max_bytes : ℕ) (turns : List (Turn W))
      (m : Machine W)
      → let (result, acts, _) = run_job_inner host home assign limit max_bytes turns m in
        IsSettled result acts
  unfolding run_job_inner
  run_job_inner-IsSettled home assign limit max_bytes turns m =
      let (payload, w) = ensure_payload host home assign m.world in
      let (browser, w') = ensure_browser host home assign w in
      elim (Fallible-cases payload) [
        | inr (e, bare) ↦ rw (run_job_inner, bare) (inr refl)
        | inl (dir, got) ↦
            let there = host.os.exists (join dir (codes "decent-render-runner")) w in
            elim (Bool-cases there) [
              | inr missing ↦ rw (run_job_inner, got, missing) (inr refl)
              | inl fine ↦ elim (Fallible-cases browser) [
                | inr (e, unusable) ↦ rw (run_job_inner, got, fine, unusable) (inr refl)
                | inl (executable, usable) ↦
                    rw (run_job_inner, got, fine, usable)
                      (run_prepared-phase assign (join dir (codes "decent-render-runner"))
                        executable limit max_bytes turns (record m { world = w' }))
              ]
            ]
      ]

  closing :
      (assign : JobAssignMessage) (r : Fallible JobMetrics) (acts : List Act)
      → IsSettled (some r) acts
      → phases setup (acts ++ awake_released ∷ sent (terminal assign r) ∷ []) ≡ some finished
  unfolding terminal
  closing assign (pass metrics) acts (inl h) = phases-append setup clean acts _ h
  closing assign (pass metrics) acts (inr h) = phases-append setup setup acts _ h
  closing assign (fail reason) acts (inl h) = phases-append setup clean acts _ h
  closing assign (fail reason) acts (inr h) = phases-append setup setup acts _ h

  -- On every path, errors included, a job goes through the lifecycle in order. Its child is spawned at
  -- most once; its group is signalled, and progress sent, only while the child lives; browsers are
  -- swept only behind the wait for it, and the working directory is purged only when no child lives;
  -- the machine may sleep again only then; and dispatch gets exactly one terminal frame, last. A job
  -- that has returned has sent it, and one that has not has a live child.
  pub run_job_ordered :
      (home : Option Text) (assign : JobAssignMessage) (limit max_bytes : ℕ) (turns : List (Turn W))
      (m : Machine W)
      → let (o, acts, _) = run_job host home assign limit max_bytes turns m in
        phases start acts ≡ some (phase_of_job o)
  unfolding run_job
  run_job_ordered home assign limit max_bytes turns m =
      let (result, acts, m') = run_job_inner host home assign limit max_bytes turns m in
      let settled = run_job_inner-IsSettled home assign limit max_bytes turns m in
      elim (Option-cases result) [
        | inl running ↦ rw (run_job, running) (ground (arith, settled, running))
        | inr (r, over) ↦
            rw (run_job, over) (closing assign r acts (subst (λ x. IsSettled x acts) over settled))
      ]
