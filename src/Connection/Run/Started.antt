-- ===== src/Connection/Run/Started.antt =====
-- Which parts of a step of a session of crates/supervisor-core/src/connection.rs start no task.
use decent_render.Prelude.{
  ℕ, ◌≡◌, ◌⊎◌, Bool, true, false, not, ◌&&◌, List, [], ◌∷◌, Option, none, some, Text, is_some, any,
  ltb, text_eq, length,
}
use decent_render.Protocol.{WorkerMessage, RegisterMessage}
use decent_render.Purge.{PurgeFailure}
use decent_render.Status.{disconnected, update_status}
use decent_render.Runner.{InFlightJob}
use decent_render.Connection.CancelAck.{CanceledJob, cancel_ack_predicate, frame_is_for}
use decent_render.Connection.Session.{
  ConnectionConfig, Disconnect, heartbeat_limit_reached, auto_upgrade, abnormal, clean,
  upgrade_required, Env, Session, Step, goes_on, ends, max_draining_teardowns, leave, send, close,
  set_connection, signal_cancel,
}
use decent_render.Connection.Timers.{
  set_phase, hand_over, announce_failures, announce_purges, heartbeat_arm, count_heartbeat,
  at_limit, is_empty,
}
use decent_render.Connection.Worker.{
  canceled_pair, terminal, settle_in_flight, settle_canceled, settle_terminal, settle, id_of,
  outcome_of, count_canceled, take_teardown, acknowledge, discharge, acknowledge_if, suppressed,
  suppress_after_cancel, worker_arm,
}
use decent_render.Connection.Server.{cancel_job, cancel_if, close_arm, receive}
use decent_render.Connection.Session.{
  Effect, spawned, join_drained, drain_list, drain_in_flight, drain_in_flight_jobs,
}
use decent_render.Connection.Worker.{join_teardown}
use decent_render.Connection.Ownership.{if-both}

module _ (h : ℕ) where
  -- The trace tells of the start of the task.
  abbrev pub IsSpawned : List Effect → Type 0
  IsSpawned [] = ⊥
  IsSpawned (spawned k a ∷ t) = (k ≡ h) ⊎ IsSpawned t
  IsSpawned (_ ∷ t) = IsSpawned t

  -- What a step does not start, it found started.
  unfoldable pub StartsNone : List Effect → Step → Type 0
  StartsNone t (goes_on s) = IsSpawned s.trace → IsSpawned t
  StartsNone t (ends reason s) = IsSpawned s.trace → IsSpawned t

  module _ (t : List Effect) where
    -- The session has started the task only if it was started before.
    unfoldable pub IsOld : Session → Type 0
    IsOld s = IsSpawned s.trace → IsSpawned t

    drain_list-IsOld :
        (env : Env) (jobs : List InFlightJob) (s : Session)
        → IsOld s
        → IsOld (drain_list env jobs s)
    unfolding IsOld StartsNone drain_list join_drained
    drain_list-IsOld env [] s old = old
    drain_list-IsOld env (job ∷ jobs) s old = drain_list-IsOld env jobs (join_drained env job s) old

    signal_cancel-IsSpawned :
        (job : InFlightJob) (u : List Effect)
        → (IsSpawned u → IsSpawned t)
        → IsSpawned (signal_cancel job u)
        → IsSpawned t
    unfolding IsOld StartsNone signal_cancel
    signal_cancel-IsSpawned job u old = if-both (λ v. IsSpawned v → IsSpawned t) job.cancel old old

    drain_in_flight-IsOld :
        (env : Env) (flying : Option InFlightJob) (s : Session)
        → IsOld s
        → IsOld (drain_in_flight env flying s)
    unfolding IsOld StartsNone drain_in_flight join_drained
    drain_in_flight-IsOld env none s old = old
    drain_in_flight-IsOld env (some job) s old = signal_cancel-IsSpawned job s.trace old

    pub leave-StartsNone :
        (env : Env) (reason : Disconnect) (s : Session)
        → IsOld s
        → StartsNone t (leave env reason s)
    unfolding IsOld StartsNone leave set_connection drain_in_flight_jobs
    leave-StartsNone env reason s old =
        let s' = set_connection disconnected s in
        let d = drain_in_flight env s'.in_flight s' in
        drain_list-IsOld env d.draining (record d { draining = [] })
          (drain_in_flight-IsOld env s'.in_flight s' old)

    announce_failures-IsOld :
        (fs : List PurgeFailure) (count : ℕ) (s : Session)
        → IsOld s
        → IsOld (announce_failures fs count s)
    unfolding IsOld StartsNone announce_failures
    announce_failures-IsOld [] count s old = old
    announce_failures-IsOld (f ∷ fs) count s old =
        announce_failures-IsOld fs count _
          (if-both IsOld (any (λ p. text_eq p f.path) s.announced_purge_failures) old old)

    pub hand_over-StartsNone :
        (env : Env) (version : Option Text) (s : Session)
        → IsOld s
        → StartsNone t (hand_over env version s)
    unfolding IsOld StartsNone hand_over close
    hand_over-StartsNone env none s old = old
    hand_over-StartsNone env (some version) s old =
        leave-StartsNone env (auto_upgrade version) (close s) old

    pub heartbeat-StartsNone :
        (config : ConnectionConfig) (reg : RegisterMessage) (env : Env) (s : Session)
        → IsOld s
        → StartsNone t (heartbeat_arm config reg env s)
    unfolding IsOld StartsNone heartbeat_arm count_heartbeat close send announce_purges
    heartbeat-StartsNone config reg env s old =
        let announced = announce_failures-IsOld env.outstanding (length env.outstanding) s old in
        let s' = announce_failures env.outstanding (length env.outstanding) s in
        let still : IsOld (announce_purges env s) =
          if-both IsOld (is_empty env.outstanding && not (is_empty s'.announced_purge_failures))
            announced announced in
        if-both (StartsNone t) env.send_ok
          (if-both (StartsNone t) (at_limit config.heartbeat_limit _)
            (leave-StartsNone env heartbeat_limit_reached _ still) still)
          (leave-StartsNone env abnormal _ still)

    join_teardown-IsSpawned :
        (entry : Option InFlightJob) (u : List Effect)
        → IsSpawned (join_teardown entry u)
        → IsSpawned u
    unfolding IsOld StartsNone join_teardown
    join_teardown-IsSpawned none u old = old
    join_teardown-IsSpawned (some job) u old = old

    acknowledge_if-IsOld :
        (env : Env) (b : Bool) (c : Option CanceledJob) (s : Session)
        → IsOld s
        → IsOld (acknowledge_if env b c s)
    unfolding IsOld StartsNone acknowledge_if acknowledge discharge send
    acknowledge_if-IsOld env false c s old = old
    acknowledge_if-IsOld env true none s old = old
    acknowledge_if-IsOld env true (some c) s old =
        let joins : IsOld (discharge c s) =
          λ new. old (join_teardown-IsSpawned (take_teardown c s.draining).0 s.trace new) in
        if-both IsOld env.send_ok joins joins

    settle_in_flight-IsOld :
        (flying : Option InFlightJob) (id : Text) (attempt : Option ℕ) (s : Session)
        → IsOld s
        → IsOld (settle_in_flight flying id attempt s)
    unfolding IsOld StartsNone settle_in_flight
    settle_in_flight-IsOld none id attempt s old = old
    settle_in_flight-IsOld (some job) id attempt s old =
        if-both IsOld (frame_is_for (some (job.job_id, job.attempt)) id attempt) old old

    settle_terminal-IsOld :
        (m : Option (Text × Option ℕ)) (s : Session) → IsOld s → IsOld (settle_terminal m s)
    unfolding IsOld StartsNone settle_terminal settle_canceled
    settle_terminal-IsOld none s old = old
    settle_terminal-IsOld (some (id, attempt)) s old =
        let still = settle_in_flight-IsOld s.in_flight id attempt s old in
        let s' = settle_in_flight s.in_flight id attempt s in
        if-both IsOld (frame_is_for (canceled_pair s'.canceled_job) id attempt) still still

    suppressed-IsOld :
        (env : Env) (msg : WorkerMessage) (id : Text) (s : Session)
        → IsOld s
        → IsOld (suppressed env msg id s)
    unfolding IsOld suppressed
    suppressed-IsOld env msg id s old =
        acknowledge_if-IsOld env (cancel_ack_predicate (outcome_of msg)) s.just_canceled
          (record s { obs = update_status (count_canceled id (not (is_some s.in_flight))) s.obs })
          old

    worker-StartsNone :
        (env : Env) (msg : WorkerMessage) (s : Session)
        → IsOld s
        → StartsNone t (worker_arm env msg s)
    unfolding IsOld StartsNone worker_arm settle send
    worker-StartsNone env msg s old =
        let still = settle_terminal-IsOld (terminal msg) s old in
        if-both (StartsNone t) (suppress_after_cancel msg s)
          (suppressed-IsOld env msg (id_of msg) (settle msg s) still)
          (if-both (StartsNone t) env.send_ok still (leave-StartsNone env abnormal _ still))

    pub receive-StartsNone :
        (env : Env) (queue : List WorkerMessage) (s : Session)
        → IsOld s
        → StartsNone t (receive env queue s)
    unfolding IsOld StartsNone receive
    receive-StartsNone env [] s old = old
    receive-StartsNone env (msg ∷ rest) s old = worker-StartsNone env msg _ old

    pub cancel-IsOld :
        (env : Env) (job_id : Text) (flying : Option InFlightJob) (s : Session)
        → IsOld s
        → IsOld (cancel_if env job_id flying s)
    unfolding IsOld StartsNone cancel_if cancel_job set_phase
    cancel-IsOld env job_id none s old = old
    cancel-IsOld env job_id (some job) s old =
        let still = signal_cancel-IsSpawned job s.trace old in
        if-both IsOld (text_eq job.job_id job_id)
          (if-both IsOld (ltb (length s.draining) max_draining_teardowns) still still) old

    pub close-StartsNone :
        (env : Env) (reason : Option Text) (s : Session)
        → IsOld s
        → StartsNone t (close_arm env reason s)
    unfolding IsOld StartsNone close_arm
    close-StartsNone env none s old = leave-StartsNone env clean s old
    close-StartsNone env (some reason) s old =
        if-both (StartsNone t) _ (leave-StartsNone env upgrade_required s old)
          (leave-StartsNone env clean s old)
