-- ===== src/Runner/Job/Phases.antt =====
-- The phases that a job's child goes through (crates/supervisor-core/src/runner.rs).
use decent_render.Prelude.{
  ◌≡◌, refl, ◌∙◌, inl, inr, List, [], ◌∷◌, ◌++◌, Option, none, some, Text, arith, Option-cases,
}
use decent_render.Protocol.{JobMetrics}
use decent_render.Runner.{progress_to_wire}
use decent_render.Runner.Host.{Host, KillSignal, sigterm, sigkill, Pipes}
use decent_render.Runner.Terminate.{waited, signal_group, sweep_pidfile, escalate, terminate_child}
use decent_render.Runner.Loop.{
  Event, Turn, Context, stop, on_event, on_line, on_sample, on_turn, run_loop,
}
use decent_render.Runner.Child.{reap, supervise, attend, write_frame}
use decent_render.Runner.Job.Lifecycle.{
  live, reaped, phases, phases-append, phase_of, phase_of_result, After-cases, WaitResult-cases,
}

module _ {W : Type 0} (host : Host W) where
  signal_group-live : (s : KillSignal) (w : W) → phases live (signal_group host s w).0 ≡ some live
  unfolding signal_group
  signal_group-live s w = ground arith

  sweep_pidfile-reaped :
      (pidfile : Option Text) (w : W) → phases reaped (sweep_pidfile host pidfile w).0 ≡ some reaped
  unfolding sweep_pidfile
  sweep_pidfile-reaped pidfile w = ground arith

  escalate-reaped : (w : W) → phases live (escalate host w).0 ≡ some reaped
  unfolding escalate
  escalate-reaped w =
      let w' = (host.wait_in_grace w).1 in
      let (kill, w'') = signal_group host sigkill w' in
      elim (Option-cases (host.wait_in_grace w).0) [
        | inr (early, in_time) ↦ rw (escalate, in_time) refl
        | inl late ↦
            rw (escalate, late)
              (phases-append live live kill (waited (host.wait w'').0 ∷ [])
                (signal_group-live sigkill w'))
      ]

  terminate_child-reaped :
      (pidfile : Option Text) (w : W) → phases live (terminate_child host pidfile w).0 ≡ some reaped
  unfolding terminate_child
  terminate_child-reaped pidfile w =
      let (term, w1) = signal_group host sigterm w in
      let (reap, w2) = escalate host w1 in
      let (sweep, w3) = sweep_pidfile host pidfile w2 in
      phases-append live live term (reap ++ sweep) (signal_group-live sigterm w)
      ∙ phases-append live reaped reap sweep (escalate-reaped w1)
      ∙ sweep_pidfile-reaped pidfile w2

  on_turn-phase :
      (ctx : Context) (event : Event) (metrics : Option JobMetrics) (w : W)
      → let (after, acts, _) = on_turn host ctx event metrics w in
        phases live acts ≡ some (phase_of after)
  unfolding on_turn stop on_line on_event on_sample progress_to_wire
  on_turn-phase ctx event metrics w = ground (arith, terminate_child-reaped ctx.pidfile w)

  run_loop-phase :
      (ctx : Context) (turns : List (Turn W)) (metrics : Option JobMetrics) (w : W)
      → let (after, acts, _) = run_loop host ctx turns metrics w in
        phases live acts ≡ some (phase_of after)
  unfolding run_loop
  run_loop-phase ctx [] metrics w = refl
  run_loop-phase ctx (turn ∷ turns) metrics w =
      let (after, acts, w') = on_turn host ctx turn.event metrics (turn.happened w) in
      let here = on_turn-phase ctx turn.event metrics (turn.happened w) in
      elim (After-cases after) [
        | inl (m, on) ↦
            let (after', acts', _) = run_loop host ctx turns m w' in
            let now : phases live acts ≡ some live = ground (arith, here, on) in
            rw (run_loop, on)
              (phases-append live live acts acts' now ∙ run_loop-phase ctx turns m w')
        | inr (inl (m, over)) ↦ rw (run_loop, over) (ground (arith, here, over))
        | inr (inr (message, broken)) ↦ rw (run_loop, broken) (ground (arith, here, broken))
      ]

  reap-phase :
      (ctx : Context) (metrics : Option JobMetrics) (stdin_error : Option Text) (w : W)
      → let (result, acts, _) = reap host ctx metrics stdin_error w in
        phases live acts ≡ some (phase_of_result reaped result)
  unfolding reap
  reap-phase ctx metrics stdin_error w =
      let w' = (host.exit w).1 in
      elim (Option-cases (host.exit w).0) [
        | inl alive ↦ rw (reap, alive) refl
        | inr (result, over) ↦ elim (WaitResult-cases result) [
          | inl (status, e) ↦ rw (reap, over, e) (sweep_pidfile-reaped ctx.pidfile w')
          | inr (m, e) ↦ rw (reap, over, e) (terminate_child-reaped ctx.pidfile w')
        ]
      ]

  supervise-phase :
      (ctx : Context) (turns : List (Turn W)) (stdin_error : Option Text) (w : W)
      → let (result, acts, _) = supervise host ctx turns stdin_error w in
        phases live acts ≡ some (phase_of_result reaped result)
  unfolding supervise
  supervise-phase ctx turns stdin_error w =
      let (after, acts, w') = run_loop host ctx turns none w in
      let here = run_loop-phase ctx turns none w in
      elim (After-cases after) [
        | inl (m, on) ↦ rw (supervise, on) (ground (arith, here, on))
        | inr (inl (m, over)) ↦
            let now : phases live acts ≡ some live = ground (arith, here, over) in
            let (result, acts', _) = reap host ctx m stdin_error w' in
            rw (supervise, over)
              (phases-append live live acts acts' now ∙ reap-phase ctx m stdin_error w')
        | inr (inr (message, broken)) ↦ rw (supervise, broken) (ground (arith, here, broken))
      ]

  pub attend-phase :
      (ctx : Context) (input : Text) (pipes : Pipes) (turns : List (Turn W)) (w : W)
      → let (result, acts, _) = attend host ctx input pipes turns w in
        phases live acts ≡ some (phase_of_result reaped result)
  unfolding attend
  attend-phase ctx input pipes turns w =
      let (stdin_error, v) = write_frame host input w in
      ground (
        arith,
        terminate_child-reaped ctx.pidfile w,
        terminate_child-reaped ctx.pidfile v,
        supervise-phase ctx turns stdin_error v,
      )
