-- ===== src/Runner/Job/Comes.antt =====
-- Where the result of a job, and what it did, come from (crates/supervisor-core/src/runner.rs).
use decent_render.Prelude.{
  ℕ, Bool, none, true, any, [], ◌∷◌, ◌≡◌, refl, ◌⊎◌, inl, inr, List, ◌++◌, Option, some, Text,
  codes, map_option, arith, Bool-cases,
}
use decent_render.Os.{join, Fallible, Fallible-cases, fail}
use decent_render.Purge.{PurgeFailure, new_workdir}
use decent_render.Protocol.{JobAssignMessage, JobMetrics}
use decent_render.Runner.Host.{Host, Pipes}
use decent_render.Runner.Environment.{spawn_env}
use decent_render.Runner.Artifact.{ensure_payload, ensure_browser}
use decent_render.Runner.Terminate.{Act, spawned, purged}
use decent_render.Runner.Loop.{Turn, Context}
use decent_render.Runner.Child.{supervise, attend, launch, write_frame}
use decent_render.Runner.Job.{
  Machine, install_wrapper, in_workdir, dispose, run_prepared, run_job_inner,
}
use decent_render.Runner.Job.Lifecycle.{NewResult-cases}

-- Every kind of act that the one list has, the other has.
abbrev pub Keeps : List Act → List Act → Type 0
Keeps inner outer = (p : Act → Bool) → any p inner ≡ true → any p outer ≡ true

pub any-append :
    (p : Act → Bool) (xs ys : List Act)
    → (any p xs ≡ true) ⊎ (any p ys ≡ true)
    → any p (xs ++ ys) ≡ true
any-append p [] ys (inl h) = absurd (cc h)
any-append p [] ys (inr h) = h
any-append p (x ∷ xs) ys h = let ih = any-append p xs ys in ground (arith, h, ih)

module _ {W : Type 0} (host : Host W) where
  -- A result that is no early failure is that of the supervised child.
  abbrev pub Comes :
      JobAssignMessage → List (Turn W) → Option (Fallible JobMetrics) → List Act → Type 0
  Comes assign turns r acts =
      ((message : Text) × (r ≡ some (fail message)))
      ⊎ ((ctx : Context) × (stdin_error : Option Text) × (v : W) × (ctx.assign ≡ assign)
          × ((supervise host ctx turns stdin_error v).0 ≡ r)
          × Keeps (supervise host ctx turns stdin_error v).1 acts)

  -- A further act before or behind changes nothing of that.
  Comes-cons :
      (a : Act) (assign : JobAssignMessage) (turns : List (Turn W))
      (r : Option (Fallible JobMetrics)) (acts : List Act)
      → Comes assign turns r acts
      → Comes assign turns r (a ∷ acts)
  Comes-cons a assign turns r acts (inl h) = inl h
  Comes-cons a assign turns r acts (inr (ctx, stdin_error, v, same, e, keeps)) =
      inr (ctx, stdin_error, v, same, e, λ p h. let k = keeps p h in ground (arith, k))

  Comes-append :
      (assign : JobAssignMessage) (turns : List (Turn W)) (r : Option (Fallible JobMetrics))
      (acts more : List Act)
      → Comes assign turns r acts
      → Comes assign turns r (acts ++ more)
  Comes-append assign turns r acts more (inl h) = inl h
  Comes-append assign turns r acts more (inr (ctx, stdin_error, v, same, e, keeps)) =
      inr (ctx, stdin_error, v, same, e, λ p h. any-append p acts more (inl (keeps p h)))

  attend-Comes :
      (ctx : Context) (input : Text) (pipes : Pipes) (turns : List (Turn W)) (w : W)
      → Comes ctx.assign turns
          (attend host ctx input pipes turns w).0
          (attend host ctx input pipes turns w).1
  unfolding attend
  attend-Comes ctx input pipes turns w = elim (Bool-cases pipes.stdin) [
    | inr mute ↦ rw (attend, mute) (inl (_, refl))
    | inl talks ↦ elim (Bool-cases pipes.stdout) [
      | inr deaf ↦ rw (attend, talks, deaf) (inl (_, refl))
      | inl hears ↦
          let (stdin_error, v) = write_frame host input w in
          rw (attend, talks, hears) (inr (ctx, stdin_error, v, refl, refl, λ p h. h))
    ]
  ]

  launch-Comes :
      (assign : JobAssignMessage) (runner workdir : Text) (wrapper pidfile : Option Text)
      (limit max_bytes : ℕ) (turns : List (Turn W)) (w : W)
      → Comes assign turns
          (launch host assign runner workdir wrapper pidfile limit max_bytes turns w).0
          (launch host assign runner workdir wrapper pidfile limit max_bytes turns w).1
  unfolding launch
  launch-Comes assign runner workdir wrapper pidfile limit max_bytes turns w =
      let (child, w') = host.spawn runner (spawn_env host.vars wrapper) workdir w in
      let ctx : Context = record {
        assign = assign;
        workdir = workdir;
        pidfile = pidfile;
        wall_clock_limit = limit;
        workdir_cap_bytes = max_bytes;
      } in
      elim (Fallible-cases (host.to_vec assign)) [
        | inr (m, mute) ↦ rw (launch, mute) (inl (_, refl))
        | inl (input, encoded) ↦ elim (Fallible-cases child) [
          | inr (m, barren) ↦ rw (launch, encoded, barren) (inl (_, refl))
          | inl (pipes, born) ↦
              rw (launch, encoded, born)
                (Comes-cons spawned assign turns _ _ (attend-Comes ctx input pipes turns w'))
        ]
      ]

  in_workdir-Comes :
      (assign : JobAssignMessage) (runner : Text) (browser : Option Text) (workdir : Text)
      (limit max_bytes : ℕ) (turns : List (Turn W)) (w : W)
      → Comes assign turns
          (in_workdir host assign runner browser workdir limit max_bytes turns w).0
          (in_workdir host assign runner browser workdir limit max_bytes turns w).1
  unfolding in_workdir
  in_workdir-Comes assign runner browser workdir limit max_bytes turns w =
      let (installed, w') = install_wrapper host workdir browser w in
      elim (Fallible-cases installed) [
        | inr (m, bare) ↦ rw (in_workdir, bare) (inl (_, refl))
        | inl (paths, fitted) ↦
            rw (in_workdir, fitted)
              (launch-Comes assign runner workdir (map_option (λ p. p.0) paths)
                (map_option (λ p. p.1) paths) limit max_bytes turns w')
      ]

  dispose-Comes :
      (assign : JobAssignMessage) (turns : List (Turn W)) (workdir : Text) (counter : ℕ)
      (failures : List PurgeFailure) (result : Option (Fallible JobMetrics)) (acts : List Act)
      (w : W)
      → Comes assign turns result acts
      → Comes assign turns
          (dispose host workdir counter failures result acts w).0
          (dispose host workdir counter failures result acts w).1
  unfolding dispose
  dispose-Comes assign turns workdir counter failures none acts w h = h
  dispose-Comes assign turns workdir counter failures (some r) acts w h =
      Comes-append assign turns (some r) acts (purged workdir ∷ []) h

  run_prepared-Comes :
      (assign : JobAssignMessage) (runner : Text) (browser : Option Text) (limit max_bytes : ℕ)
      (turns : List (Turn W)) (m : Machine W)
      → Comes assign turns
          (run_prepared host assign runner browser limit max_bytes turns m).0
          (run_prepared host assign runner browser limit max_bytes turns m).1
  unfolding run_prepared
  run_prepared-Comes assign runner browser limit max_bytes turns m =
      let (created, counter, w) =
        new_workdir host.os (codes "job-" ++ assign.job_id) m.counter m.world in
      elim (NewResult-cases created) [
        | inl (e, none_left) ↦ rw (run_prepared, none_left) (inl (_, refl))
        | inr (workdir, fresh) ↦
            let (result, acts, w') =
              in_workdir host assign runner browser workdir limit max_bytes turns w in
            rw (run_prepared, fresh)
              (dispose-Comes assign turns workdir counter m.purge_failures result acts w'
                (in_workdir-Comes assign runner browser workdir limit max_bytes turns w))
      ]

  pub run_job_inner-Comes :
      (home : Option Text) (assign : JobAssignMessage) (limit max_bytes : ℕ) (turns : List (Turn W))
      (m : Machine W)
      → Comes assign turns
          (run_job_inner host home assign limit max_bytes turns m).0
          (run_job_inner host home assign limit max_bytes turns m).1
  unfolding run_job_inner
  run_job_inner-Comes home assign limit max_bytes turns m =
      let (payload, w) = ensure_payload host home assign m.world in
      let (browser, w') = ensure_browser host home assign w in
      elim (Fallible-cases payload) [
        | inr (e, bare) ↦ rw (run_job_inner, bare) (inl (_, refl))
        | inl (dir, got) ↦
            elim (Bool-cases (host.os.exists (join dir (codes "decent-render-runner")) w)) [
              | inr missing ↦ rw (run_job_inner, got, missing) (inl (_, refl))
              | inl fine ↦ elim (Fallible-cases browser) [
                | inr (e, unusable) ↦ rw (run_job_inner, got, fine, unusable) (inl (_, refl))
                | inl (executable, usable) ↦
                    rw (run_job_inner, got, fine, usable)
                      (run_prepared-Comes assign (join dir (codes "decent-render-runner"))
                        executable limit max_bytes turns (record m { world = w' }))
              ]
            ]
      ]
