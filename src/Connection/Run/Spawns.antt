-- ===== src/Connection/Run/Spawns.antt =====
-- Which steps of a session of crates/supervisor-core/src/connection.rs start a task.
use decent_render.Prelude.{ℕ, ◌≡◌, ◌⊎◌, inl, inr, not, List, ◌∷◌, if◌then◌else◌, is_some}
use decent_render.Protocol.{
  ServerMessage, job_assign, cancel, ping, update_available, RegisterMessage, JobAssignMessage,
}
use decent_render.Status.{canceled}
use decent_render.Connection.Session.{
  ConnectionConfig, Disconnect, shutdown, abnormal, clean, sent, Env, Session, Step, goes_on, ends,
  leave, send, close,
}
use decent_render.Connection.Timers.{set_phase, shutdown_arm, auto_upgrade_arm}
use decent_render.Connection.Server.{
  Event, shutdown_signal, auto_upgrade_tick, heartbeat_tick, worker_ready, task_sends, text_frame,
  unparseable_frame, other_frame, close_frame, socket_error, stream_end, reject, prepare, start_job,
  accepted, assign_arm, cancel_arm, update_arm, text_arm, error_arm, step,
}
use decent_render.Connection.Session.{Effect, spawned}
use decent_render.Connection.Drain.{IsInFlight}
use decent_render.Connection.Ownership.{if-both}
use decent_render.Connection.Run.Started.{
  IsSpawned, IsOld, StartsNone, leave-StartsNone, hand_over-StartsNone, heartbeat-StartsNone,
  receive-StartsNone, close-StartsNone, cancel-IsOld,
}

module _ (h : ℕ) where
  -- A task that a step found not started is started by it only into flight.
  abbrev pub StartsInto : List Effect → Step → Type 0
  StartsInto t (goes_on s) = IsSpawned h s.trace → IsSpawned h t ⊎ IsInFlight h s.in_flight
  StartsInto t (ends reason s) = IsSpawned h s.trace → IsSpawned h t

  weaken : (t : List Effect) (r : Step) → StartsNone h t r → StartsInto t r
  unfolding StartsNone
  weaken t (goes_on s) old = λ new. inl (old new)
  weaken t (ends reason s) old = old

  leave-StartsInto :
      (t : List Effect) (env : Env) (reason : Disconnect) (s : Session)
      → IsOld h t s
      → StartsInto t (leave env reason s)
  leave-StartsInto t env reason s old =
      weaken t (leave env reason s) (leave-StartsNone h t env reason s old)

  assign-StartsInto :
      (env : Env) (assign : JobAssignMessage) (s : Session)
      → StartsInto s.trace (assign_arm env assign s)
  unfolding IsOld StartsNone assign_arm reject prepare start_job set_phase send
  assign-StartsInto env assign s =
      if-both (StartsInto s.trace) (not s.obs.allow_flag) (λ new. inl new)
        (if-both (StartsInto s.trace) (is_some s.in_flight) (λ new. inl new)
          (if-both (StartsInto s.trace) env.send_ok started
            (leave-StartsInto s.trace env abnormal (prepare assign s) (λ new. new))))
    where
      started :
          IsSpawned h (spawned env.next_handle assign ∷ sent (accepted assign) ∷ s.trace)
          → IsSpawned h s.trace ⊎ (env.next_handle ≡ h)
      started (inl e) = inr e
      started (inr old) = inl old

  text-StartsInto :
      (env : Env) (msg : ServerMessage) (s : Session) → StartsInto s.trace (text_arm env msg s)
  unfolding IsOld StartsNone text_arm cancel_arm update_arm
  text-StartsInto env (job_assign assign) s = assign-StartsInto env assign s
  text-StartsInto env (cancel message) s =
      λ new. inl (cancel-IsOld h s.trace env message.job_id s.in_flight s (λ old. old) new)
  text-StartsInto env (ping message) s = λ new. inl new
  text-StartsInto env (update_available u) s = λ new. inl new

  pub step-StartsInto :
      (config : ConnectionConfig) (reg : RegisterMessage) (env : Env) (event : Event) (s : Session)
      → StartsInto s.trace (step config reg env event s)
  unfolding IsOld StartsNone step error_arm shutdown_arm set_phase close auto_upgrade_arm
  step-StartsInto config reg env shutdown_signal s =
      leave-StartsInto s.trace env shutdown
        (close (if is_some s.in_flight then set_phase canceled s else s))
        (if-both (IsOld h s.trace) (is_some s.in_flight) {x = set_phase canceled s} {y = s}
          (λ old. old) (λ old. old))
  step-StartsInto config reg env auto_upgrade_tick s =
      if-both (StartsInto s.trace) (is_some config.auto_upgrade)
        (weaken s.trace _ (hand_over-StartsNone h s.trace env _ _ (λ old. old))) (λ new. inl new)
  step-StartsInto config reg env heartbeat_tick s =
      weaken s.trace _ (heartbeat-StartsNone h s.trace config reg env s (λ old. old))
  step-StartsInto config reg env worker_ready s =
      weaken s.trace _ (receive-StartsNone h s.trace env s.worker_queue s (λ old. old))
  step-StartsInto config reg env (task_sends msg) s = λ new. inl new
  step-StartsInto config reg env (text_frame msg) s = text-StartsInto env msg s
  step-StartsInto config reg env unparseable_frame s = λ new. inl new
  step-StartsInto config reg env other_frame s = λ new. inl new
  step-StartsInto config reg env (close_frame reason) s =
      weaken s.trace _ (close-StartsNone h s.trace env reason s (λ old. old))
  step-StartsInto config reg env (socket_error message) s =
      leave-StartsInto s.trace env abnormal _ (λ old. old)
  step-StartsInto config reg env stream_end s = leave-StartsInto s.trace env clean s (λ old. old)
