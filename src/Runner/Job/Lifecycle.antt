-- ===== src/Runner/Job/Lifecycle.antt =====
-- The lifecycle of a job, as the order of its acts, and the ways in which its parts end
-- (crates/supervisor-core/src/runner.rs).
use decent_render.Prelude.{
  ◌≡◌, refl, ◌⊎◌, inl, inr, Bool, true, false, List, [], ◌∷◌, ◌++◌, Option, none, some, Text,
  if◌then◌else◌, arith, Option-cases,
}
use decent_render.Os.{IoError}
use decent_render.Purge.{NewResult, made, refused}
use decent_render.Protocol.{JobMetrics, WorkerMessage, job_progress, job_complete, job_failed}
use decent_render.Runner.{JobOutcome}
use decent_render.Runner.Host.{ExitStatus, WaitResult, exited, wait_failed}
use decent_render.Runner.Terminate.{
  Act, awake_acquired, awake_released, spawned, waited, signalled, swept, purged, sent,
}
use decent_render.Runner.Loop.{After, goes_on, ended, fails}

-- The lifecycle of a job: it has not begun; it is set up; its child lives; a wait for the child returned;
-- the working directory is purged; the machine may sleep again; dispatch was told the end.
pub data Phase : Type 0 where
  start setup live reaped clean released finished : Phase

abbrev pub is_progress : WorkerMessage → Bool
is_progress (job_progress m) = true
is_progress _ = false

abbrev pub is_terminal : WorkerMessage → Bool
is_terminal (job_complete m) = true
is_terminal (job_failed m) = true
is_terminal _ = false

-- The phase that an act leads to, where the lifecycle allows it.
abbrev pub phase_step : Phase → Act → Option Phase
phase_step start awake_acquired = some setup
phase_step setup spawned = some live
phase_step setup (purged path) = some clean
phase_step setup awake_released = some released
phase_step live (signalled pid s) = some live
phase_step live (sent m) = if is_progress m then some live else none
phase_step live (waited result) = some reaped
phase_step reaped (swept pids) = some reaped
phase_step reaped (purged path) = some clean
phase_step clean awake_released = some released
phase_step released (sent m) = if is_terminal m then some finished else none
phase_step _ _ = none

abbrev pub phases : Phase → List Act → Option Phase
phases p [] = some p
phases p (a ∷ acts) = elim (phase_step p a) [ none ↦ none | some q ↦ phases q acts ]

pub phases-append :
    (p q : Phase) (xs bs : List Act) → phases p xs ≡ some q → phases p (xs ++ bs) ≡ phases q bs
phases-append p q [] bs h = ground arith
phases-append p q (a ∷ xs) bs h = elim (Option-cases (phase_step p a)) [
  | inl bad ↦ absurd (ground (arith, h, bad))
  | inr (r, e) ↦ ground (arith, e, phases-append r q xs bs (ground (arith, h, e)))
]

-- Where the child is when a turn has ended, and when the body has.
abbrev pub phase_of : After → Phase
phase_of (goes_on m) = live
phase_of (ended m) = live
phase_of (fails message) = reaped

abbrev pub phase_of_result {ℓ} : {A : Type ℓ} → Phase → Option A → Phase
phase_of_result p none = live
phase_of_result p (some r) = p

-- Of a job that has returned, or not yet.
abbrev pub phase_of_job : Option JobOutcome → Phase
phase_of_job none = live
phase_of_job (some o) = finished

pub After-cases :
    (a : After)
    → ((m : Option JobMetrics) × (a ≡ goes_on m))
      ⊎ (((m : Option JobMetrics) × (a ≡ ended m)) ⊎ ((message : Text) × (a ≡ fails message)))
After-cases (goes_on m) = inl (m, refl)
After-cases (ended m) = inr (inl (m, refl))
After-cases (fails message) = inr (inr (message, refl))

pub WaitResult-cases :
    (r : WaitResult)
    → ((status : ExitStatus) × (r ≡ exited status)) ⊎ ((e : Text) × (r ≡ wait_failed e))
WaitResult-cases (exited status) = inl (status, refl)
WaitResult-cases (wait_failed e) = inr (e, refl)

pub NewResult-cases :
    (r : NewResult) → ((e : IoError) × (r ≡ refused e)) ⊎ ((path : Text) × (r ≡ made path))
NewResult-cases (refused e) = inl (e, refl)
NewResult-cases (made path) = inr (path, refl)
