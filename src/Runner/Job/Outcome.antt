-- ===== src/Runner/Job/Outcome.antt =====
-- When a job returns, and when it is complete
-- (`run_job` of crates/supervisor-core/src/runner.rs).
use mathlib.Core.Path.{subst}
use decent_render.Prelude.{
  ℕ, Bool, false, any, map_option, ◌≡◌, refl, sym, ◌∙◌, ap, inl, inr, true, List, [], ◌∷◌, ◌++◌,
  Option, none, some, Text, arith, Option-cases, append_assoc,
}
use decent_render.Os.{Fallible-cases, pass}
use decent_render.Protocol.{JobAssignMessage, JobMetrics, job_complete}
use decent_render.Runner.{complete}
use decent_render.Runner.Host.{Host, exited}
use decent_render.Runner.Terminate.{Act, sent, waited, awake_acquired, awake_released}
use decent_render.Runner.Loop.{Turn, Context, run_loop}
use decent_render.Runner.Child.{reap, supervise, verdict}
use decent_render.Runner.Job.{Machine, run_job_inner, terminal, outcome, run_job}
use decent_render.Runner.Job.Lifecycle.{After-cases, WaitResult-cases}
use decent_render.Runner.Job.Reported.{Report, metrics_for, last_done, run_loop-last_done}
use decent_render.Runner.Job.Comes.{any-append, run_job_inner-Comes}

-- A wait for the child returned that it exited with success.
abbrev pub exited_well : Act → Bool
exited_well (waited (exited status)) = status.success
exited_well _ = false

module _ {W : Type 0} (host : Host W) where
  reap_complete :
      (ctx : Context) (metrics : Option JobMetrics) (stdin_error : Option Text) (m : JobMetrics)
      (w : W)
      → (reap host ctx metrics stdin_error w).0 ≡ some (pass m)
      → (metrics ≡ some m) × (any exited_well (reap host ctx metrics stdin_error w).1 ≡ true)
  unfolding reap verdict
  reap_complete ctx metrics stdin_error m w h = elim (Option-cases (host.exit w).0) [
    | inl alive ↦ absurd (ground (arith, h, alive))
    | inr (result, over) ↦ elim (WaitResult-cases result) [
      | inr (e, lost) ↦ absurd (ground (arith, h, over, lost))
      | inl (status, e) ↦ (ground (arith, h, over, e), ground (arith, h, over, e))
    ]
  ]

  supervise_complete :
      (ctx : Context) (turns : List (Turn W)) (stdin_error : Option Text) (m : JobMetrics) (w : W)
      → (supervise host ctx turns stdin_error w).0 ≡ some (pass m)
      → (some m ≡ map_option (metrics_for ctx.assign) (last_done host turns none))
        × (any exited_well (supervise host ctx turns stdin_error w).1 ≡ true)
  unfolding supervise
  supervise_complete ctx turns stdin_error m w h =
      let (after, acts, v) = run_loop host ctx turns none w in
      elim (After-cases after) [
        | inl (m', on) ↦ absurd (ground (arith, h, on))
        | inr (inr (message, broken)) ↦ absurd (ground (arith, h, broken))
        | inr (inl (m', over)) ↦
            let (same, well) = reap_complete ctx m' stdin_error m v (ground (arith, h, over)) in
            let told = run_loop-last_done host ctx turns none none m' w refl over in
            (
              sym same ∙ told,
              rw (supervise, over)
                  (any-append exited_well acts (reap host ctx m' stdin_error v).1 (inr well)),
            )
      ]

  -- A job completes only if a wait for its child returned that it exited with success, and the child
  -- reported `done` before the end of its stdout. Its last frame is then the completion, with the
  -- assignment's ids and output key and the metrics of the last `done`: the runner's own, or its wall
  -- time and the assignment's frames, and in either case the output size of that `done`.
  pub run_job_complete :
      (home : Option Text) (assign : JobAssignMessage) (limit max_bytes : ℕ) (turns : List (Turn W))
      (m : Machine W)
      → (run_job host home assign limit max_bytes turns m).0 ≡ some complete
      → (report : Report) × (last_done host turns none ≡ some report)
        × (front : List Act) × ((run_job host home assign limit max_bytes turns m).1
            ≡ front
              ++ sent (
                  job_complete (record {
                    tenant = assign.tenant;
                    job_id = assign.job_id;
                    attempt = assign.attempt;
                    output_key = assign.output_key;
                    metrics = metrics_for assign report;
                  }))
                ∷ [])
        × (any exited_well front ≡ true)
  unfolding run_job outcome terminal
  run_job_complete home assign limit max_bytes turns m h =
      let (result, acts, m') = run_job_inner host home assign limit max_bytes turns m in
      elim (run_job_inner-Comes host home assign limit max_bytes turns m) [
        | inl (message, early) ↦ absurd (ground (arith, h, early))
        | inr (ctx, stdin_error, v, same, e, keeps) ↦ elim (Option-cases result) [
          | inl running ↦ absurd (ground (arith, h, running))
          | inr (r, over) ↦ elim (Fallible-cases r) [
            | inr (message, bad) ↦ absurd (ground (arith, h, over, bad))
            | inl (metrics, good) ↦
                let (told, well) =
                  supervise_complete ctx turns stdin_error metrics v
                    (ground (arith, e, over, good)) in
                let told' : some metrics
                    ≡ map_option (metrics_for assign) (last_done host turns none) =
                  subst (λ a. some metrics ≡ map_option (metrics_for a) (last_done host turns none))
                    same told in
                elim (Option-cases (last_done host turns none)) [
                  | inl nothing ↦ absurd (ground (arith, told', nothing))
                  | inr (report, last) ↦
                      let owed : metrics ≡ metrics_for assign report =
                        ground (arith, told', last) in
                      (
                        report,
                        last,
                        awake_acquired ∷ (acts ++ awake_released ∷ []),
                        rw (run_job, over, good, ← owed)
                            (ap (λ l. awake_acquired ∷ l)
                              (sym (
                                append_assoc acts (awake_released ∷ [])
                                  (sent (terminal assign (pass metrics)) ∷ [])))),
                        any-append exited_well acts (awake_released ∷ [])
                            (inl (keeps exited_well well)),
                      )
                ]
          ]
        ]
      ]
