-- ===== src/Connection/Ownership.antt =====
-- No job is stranded: what becomes of the task of a job that the session holds
-- (crates/supervisor-core/src/connection.rs), with a module for each group of the loop's arms.
pub mod Timers
pub mod Worker
pub mod Server
use decent_render.Prelude.{
  ℕ, ◌+◌, ◌≡◌, refl, sym, ◌∙◌, ap, ◌⊎◌, inl, inr, Bool, true, false, List, [], ◌∷◌, ◌++◌, Option,
  none, some, Text, arith, if◌then◌else◌, Bool-cases, is_some, any, text_eq, length,
}
use decent_render.Protocol.{
  WorkerMessage, job_canceled_ack, ServerMessage, job_assign, cancel, ping, update_available,
  RegisterMessage,
}
use decent_render.Purge.{PurgeFailure}
use decent_render.Status.{disconnected, canceled}
use decent_render.Runner.{InFlightJob}
use decent_render.Connection.CancelAck.{CanceledJob, cancel_ack_for, frame_is_for, frame_is_for_iff}
use decent_render.Connection.Session.{
  ConnectionConfig, Disconnect, shutdown, auto_upgrade, heartbeat_limit_reached, abnormal, clean,
  upgrade_required, Effect, joined, Env, Session, Step, goes_on, ends, signal_cancel,
  set_connection, leave, send, close,
}
use decent_render.Connection.Timers.{
  set_phase, shutdown_arm, auto_upgrade_arm, hand_over, announce_failures, announce_purges,
  heartbeat_arm, heartbeat_frame, count_heartbeat, at_limit,
}
use decent_render.Connection.Worker.{
  terminal, settle_in_flight, settle_canceled, settle_terminal, settle, take_teardown, acknowledge,
  discharge, join_teardown, is_torn_down, canceled_pair, acknowledge_if, suppressed, worker_arm,
}
use decent_render.Connection.Server.{
  Event, shutdown_signal, auto_upgrade_tick, heartbeat_tick, worker_ready, task_sends, text_frame,
  unparseable_frame, other_frame, close_frame, socket_error, stream_end, reject, prepare, start_job,
  assign_arm, cancel_job, cancel_arm, update_arm, text_arm, close_arm, error_arm, receive, step,
}
use decent_render.Connection.Drain.{
  Happened, IsJoined, IsDraining, IsInFlight, IsHeld, drain_lem, signal_cancel-IsJoined,
}

-- The task is held, or its join has returned.
abbrev pub IsOwned : ℕ → Session → Type 0
IsOwned h s = IsHeld h s ⊎ IsJoined h s.trace

-- The head of the worker queue is the terminal frame of the task's job, which is in flight.
abbrev pub IsReported : ℕ → Option InFlightJob → List WorkerMessage → Type 0
IsReported h none queue = ⊥
IsReported h (some job) [] = ⊥
IsReported h (some job) (msg ∷ rest) =
    (job.handle ≡ h) × (terminal msg ≡ some (job.job_id, job.attempt))

-- What a step makes of an owned task, where `R` says that its job has reported its end.
abbrev pub Keeps : ℕ → Type 0 → Step → Type 0
Keeps h R (goes_on s) = IsOwned h s ⊎ R
Keeps h R (ends reason s) = IsJoined h s.trace ⊎ R

pub if-both {ℓ κ} :
    {A : Type ℓ} (P : A → Type κ) (b : Bool) {x y : A} → P x → P y → P (if b then x else y)
if-both P true p q = p
if-both P false p q = q

pub leave-Keeps :
    (h : ℕ) (R : Type 0) (env : Env) (reason : Disconnect) (s : Session)
    → IsOwned h s
    → Keeps h R (leave env reason s)
unfolding leave set_connection
leave-Keeps h R env reason s own = inl ((drain_lem env (set_connection disconnected s)).2 h own)

pub close-IsOwned : (h : ℕ) (s : Session) → IsOwned h s → IsOwned h (close s)
unfolding close
close-IsOwned h s (inl held) = inl held
close-IsOwned h s (inr j) = inr (inr j)

pub send-IsOwned :
    (h : ℕ) (msg : WorkerMessage) (s : Session) → IsOwned h s → IsOwned h (send msg s)
unfolding send
send-IsOwned h msg s (inl held) = inl held
send-IsOwned h msg s (inr j) = inr (inr j)
