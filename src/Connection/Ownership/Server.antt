-- ===== src/Connection/Ownership/Server.antt =====
-- What a frame from dispatch makes of the tasks that the session of
-- crates/supervisor-core/src/connection.rs owns, and what every step makes of them.
use decent_render.Prelude.{
  ℕ, ◌≡◌, refl, ap, ◌⊎◌, inl, inr, false, List, [], ◌∷◌, ◌++◌, Option, none, some, Text,
  if◌then◌else◌, Bool-cases, is_some, not, length, ltb, starts_with, codes, text_eq,
}
use decent_render.Protocol.{
  WorkerMessage, ServerMessage, JobAssignMessage, busy, job_assign, cancel, ping, update_available,
  RegisterMessage,
}
use decent_render.Runner.{InFlightJob}
use decent_render.Connection.Session.{
  ConnectionConfig, abnormal, clean, upgrade_required, Effect, joined, Env, Session, goes_on,
  signal_cancel, max_draining_teardowns, cache_swept, leave, send,
}
use decent_render.Connection.Timers.{set_phase}
use decent_render.Connection.Server.{
  Event, shutdown_signal, auto_upgrade_tick, heartbeat_tick, worker_ready, task_sends, text_frame,
  unparseable_frame, other_frame, close_frame, socket_error, stream_end, reject, prepare, start_job,
  assign_arm, cancel_job, cancel_if, accepted, cancel_arm, update_arm, text_arm, close_arm,
  error_arm, receive, step,
}
use decent_render.Connection.Drain.{IsJoined, IsDraining, IsHeld, signal_cancel-IsJoined}
use decent_render.Connection.Ownership.{IsOwned, IsReported, Keeps, if-both, leave-Keeps}
use decent_render.Connection.Ownership.Timers.{shutdown-Keeps, auto_upgrade-Keeps, heartbeat-Keeps}
use decent_render.Connection.Ownership.Worker.{worker-Keeps}

-- A job is started only where none is in flight.
started-IsOwned :
    (h : ℕ) (env : Env) (assign : JobAssignMessage) (s : Session)
    → s.in_flight ≡ none
    → IsOwned h s
    → IsOwned h (start_job env assign (send (accepted assign) (prepare assign s)))
unfolding prepare start_job set_phase send
started-IsOwned h env assign s e (inl (inl f)) = absurd (rw e at f)
started-IsOwned h env assign s e (inl (inr d)) = inl (inr d)
started-IsOwned h env assign s e (inr j) = inr (inr (inr j))

assign-Keeps :
    (h : ℕ) (R : Type 0) (env : Env) (assign : JobAssignMessage) (s : Session)
    → IsOwned h s
    → Keeps h R (assign_arm env assign s)
unfolding assign_arm reject prepare
assign-Keeps h R env assign s own =
    if-both (Keeps h R) (not s.obs.allow_flag) (inl own) (unless_busy s.in_flight refl)
  where
    unless_busy :
        (flying : Option InFlightJob)
        → s.in_flight ≡ flying
        → Keeps h R (
            if is_some flying
            then goes_on (reject busy assign s)
            else if env.send_ok
            then goes_on (start_job env assign (send (accepted assign) (prepare assign s)))
            else leave env abnormal (prepare assign s))
    unless_busy (some job) e = inl own
    unless_busy none e =
        if-both (Keeps h R) env.send_ok (inl (started-IsOwned h env assign s e own))
          (leave-Keeps h R env abnormal (prepare assign s) own)

IsDraining-append :
    (h : ℕ) (job : InFlightJob) (js : List InFlightJob)
    → IsDraining h js ⊎ (job.handle ≡ h)
    → IsDraining h (js ++ job ∷ [])
IsDraining-append h job [] (inl d) = absurd d
IsDraining-append h job [] (inr e) = inl e
IsDraining-append h job (j ∷ js) (inl (inl e)) = inl e
IsDraining-append h job (j ∷ js) (inl (inr d)) = inr (IsDraining-append h job js (inl d))
IsDraining-append h job (j ∷ js) (inr e) = inr (IsDraining-append h job js (inr e))

-- The task of the job canceled is kept for the drain, or joined where there are too many.
cancel_job-IsOwned :
    (h : ℕ) (env : Env) (job : InFlightJob) (s : Session)
    → s.in_flight ≡ some job
    → IsOwned h s
    → IsOwned h (cancel_job env job s)
unfolding cancel_job set_phase
cancel_job-IsOwned h env job s e own =
    elim (Bool-cases (ltb (length s.draining) max_draining_teardowns)) [
      | inl room ↦ rw room (kept own)
      | inr full ↦ rw full (crowded own)
    ]
  where
    effects : List Effect
    effects = cache_swept job.cache_keys ∷ signal_cancel job s.trace

    canceled_entry : InFlightJob
    canceled_entry = record job { cancel_received_at = some env.now; cancel = false }

    kept : IsOwned h s → (⊥ ⊎ IsDraining h (s.draining ++ canceled_entry ∷ [])) ⊎ IsJoined h effects
    kept (inl (inl f)) = inl (inr (IsDraining-append h canceled_entry s.draining (inr (rw e at f))))
    kept (inl (inr d)) = inl (inr (IsDraining-append h canceled_entry s.draining (inl d)))
    kept (inr j) = inr (inr (signal_cancel-IsJoined h job s.trace j))

    crowded : IsOwned h s → (⊥ ⊎ IsDraining h s.draining) ⊎ IsJoined h (joined job.handle ∷ effects)
    crowded (inl (inl f)) = inr (inl (ap joined (rw e at f)))
    crowded (inl (inr d)) = inl (inr d)
    crowded (inr j) = inr (inr (inr (signal_cancel-IsJoined h job s.trace j)))

cancel_if-IsOwned :
    (h : ℕ) (env : Env) (job_id : Text) (flying : Option InFlightJob) (s : Session)
    → s.in_flight ≡ flying
    → IsOwned h s
    → IsOwned h (cancel_if env job_id flying s)
unfolding cancel_if
cancel_if-IsOwned h env job_id none s e own = own
cancel_if-IsOwned h env job_id (some job) s e own =
    if-both (IsOwned h) (text_eq job.job_id job_id) (cancel_job-IsOwned h env job s e own) own

text-Keeps :
    (h : ℕ) (R : Type 0) (env : Env) (msg : ServerMessage) (s : Session)
    → IsOwned h s
    → Keeps h R (text_arm env msg s)
unfolding text_arm cancel_arm update_arm
text-Keeps h R env (job_assign assign) s own = assign-Keeps h R env assign s own
text-Keeps h R env (cancel message) s own =
    inl (cancel_if-IsOwned h env message.job_id s.in_flight s refl own)
text-Keeps h R env (ping message) s own = inl own
text-Keeps h R env (update_available u) s own = inl own

close-Keeps :
    (h : ℕ) (R : Type 0) (env : Env) (reason : Option Text) (s : Session)
    → IsOwned h s
    → Keeps h R (close_arm env reason s)
unfolding close_arm
close-Keeps h R env none s own = leave-Keeps h R env clean s own
close-Keeps h R env (some reason) s own =
    if-both (Keeps h R) (starts_with (codes "upgrade-required") reason)
      (leave-Keeps h R env upgrade_required s own) (leave-Keeps h R env clean s own)

-- Whether an event takes the terminal frame of the task's job, in flight, off the worker queue.
abbrev pub Reports : ℕ → Event → Session → Type 0
Reports h worker_ready s = IsReported h s.in_flight s.worker_queue
Reports h _ s = ⊥

receive-Keeps :
    (h : ℕ) (env : Env) (queue : List WorkerMessage) (s : Session)
    → s.worker_queue ≡ queue
    → IsOwned h s
    → Keeps h (IsReported h s.in_flight queue) (receive env queue s)
unfolding receive
receive-Keeps h env [] s e own = inl own
receive-Keeps h env (msg ∷ rest) s e own =
    worker-Keeps h env msg rest (record s { worker_queue = rest }) own

-- No step strands a job: a task that is held (in flight or being torn down) or joined before a step is
-- held or joined after it, and joined if the step ends the session, unless the step takes the
-- terminal frame of the task's job, in flight, off the worker queue.
pub step_lem :
    (config : ConnectionConfig) (reg : RegisterMessage) (env : Env) (event : Event) (s : Session)
    (h : ℕ)
    → IsHeld h s ⊎ IsJoined h s.trace
    → Keeps h (Reports h event s) (step config reg env event s)
unfolding step error_arm
step_lem config reg env shutdown_signal s h own = shutdown-Keeps h ⊥ env s own
step_lem config reg env auto_upgrade_tick s h own = auto_upgrade-Keeps h ⊥ config env s own
step_lem config reg env heartbeat_tick s h own = heartbeat-Keeps h ⊥ config reg env s own
step_lem config reg env worker_ready s h own = receive-Keeps h env s.worker_queue s refl own
step_lem config reg env (task_sends msg) s h own = inl own
step_lem config reg env (text_frame msg) s h own = text-Keeps h ⊥ env msg s own
step_lem config reg env unparseable_frame s h own = inl own
step_lem config reg env other_frame s h own = inl own
step_lem config reg env (close_frame reason) s h own = close-Keeps h ⊥ env reason s own
step_lem config reg env (socket_error message) s h own = leave-Keeps h ⊥ env abnormal _ own
step_lem config reg env stream_end s h own = leave-Keeps h ⊥ env clean s own
