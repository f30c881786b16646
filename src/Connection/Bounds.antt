-- ===== src/Connection/Bounds.antt =====
-- How much a session of crates/supervisor-core/src/connection.rs keeps: the teardowns that it drains
-- and the acks that wait for a socket.
use decent_render.Prelude.{
  ℕ, ◌≤◌, inl, inr, Bool, true, false, not, List, [], ◌∷◌, Option, none, some, Text, arith,
  Bool-cases, is_some, any, ltb, ltb→lt, text_eq, length, length-append,
}
use decent_render.Protocol.{
  WorkerMessage, ServerMessage, job_assign, cancel, ping, update_available, RegisterMessage,
  JobAssignMessage,
}
use decent_render.Purge.{PurgeFailure}
use decent_render.Status.{disconnected}
use decent_render.Runner.{InFlightJob}
use decent_render.Connection.CancelAck.{CanceledJob, max_pending_cancel_acks, length-queue_pending}
use decent_render.Connection.Session.{
  ConnectionConfig, Disconnect, heartbeat_limit_reached, shutdown, auto_upgrade, abnormal, clean,
  upgrade_required, Env, Session, Step, goes_on, ends, max_draining_teardowns, leave, send, close,
  set_connection,
}
use decent_render.Connection.Timers.{
  set_phase, shutdown_arm, auto_upgrade_arm, hand_over, announce_failures, announce_purges,
  heartbeat_arm, count_heartbeat, at_limit,
}
use decent_render.Connection.Worker.{
  terminal, settle_in_flight, settle_canceled, settle_terminal, settle, take_teardown, acknowledge,
  discharge, acknowledge_if, suppressed, suppress_after_cancel, worker_arm,
}
use decent_render.Connection.Server.{
  Event, shutdown_signal, auto_upgrade_tick, heartbeat_tick, worker_ready, task_sends, text_frame,
  unparseable_frame, other_frame, close_frame, socket_error, stream_end, reject, prepare, start_job,
  assign_arm, cancel_job, cancel_if, cancel_arm, update_arm, text_arm, close_arm, error_arm,
  receive, step,
}
use decent_render.Connection.Drain.{drain_lem, drain-pending}
use decent_render.Connection.Ownership.{if-both}

-- The teardowns and the waiting acks are within their limits.
abbrev pub IsBounded : Session → Type 0
IsBounded s =
    (length s.draining ≤ max_draining_teardowns)
    × (length s.pending_cancel_acks ≤ max_pending_cancel_acks)

-- The session behind a step is within its limits, whether it goes on or ends.
abbrev pub StaysBounded : Step → Type 0
StaysBounded (goes_on s) = IsBounded s
StaysBounded (ends reason s) = IsBounded s

leave-StaysBounded :
    (env : Env) (reason : Disconnect) (s : Session)
    → IsBounded s
    → StaysBounded (leave env reason s)
unfolding leave set_connection
leave-StaysBounded env reason s (few, acks) =
    let s' = set_connection disconnected s in
    (rw (drain_lem env s').1 (ground arith), drain-pending env s' acks)

announce_failures-IsBounded :
    (fs : List PurgeFailure) (count : ℕ) (s : Session)
    → IsBounded s
    → IsBounded (announce_failures fs count s)
unfolding announce_failures
announce_failures-IsBounded [] count s b = b
announce_failures-IsBounded (f ∷ fs) count s b =
    announce_failures-IsBounded fs count _
      (if-both IsBounded (any (λ p. text_eq p f.path) s.announced_purge_failures) b b)

hand_over-StaysBounded :
    (env : Env) (version : Option Text) (s : Session)
    → IsBounded s
    → StaysBounded (hand_over env version s)
unfolding hand_over close
hand_over-StaysBounded env none s b = b
hand_over-StaysBounded env (some version) s b = leave-StaysBounded env (auto_upgrade version) _ b

heartbeat-StaysBounded :
    (config : ConnectionConfig) (reg : RegisterMessage) (env : Env) (s : Session)
    → IsBounded s
    → StaysBounded (heartbeat_arm config reg env s)
unfolding heartbeat_arm count_heartbeat close send announce_purges
heartbeat-StaysBounded config reg env s b =
    let announced = announce_failures-IsBounded env.outstanding (length env.outstanding) s b in
    let still = if-both IsBounded _ announced announced in
    if-both StaysBounded env.send_ok
      (if-both StaysBounded (at_limit config.heartbeat_limit _)
        (leave-StaysBounded env heartbeat_limit_reached _ still) still)
      (leave-StaysBounded env abnormal _ still)

length-take_teardown :
    (c : CanceledJob) (js : List InFlightJob) → length (take_teardown c js).1 ≤ length js
unfolding take_teardown
length-take_teardown c [] = ground arith
length-take_teardown c (j ∷ js) = ground (arith, length-take_teardown c js)

acknowledge-IsBounded :
    (env : Env) (c : CanceledJob) (s : Session) → IsBounded s → IsBounded (acknowledge env c s)
unfolding acknowledge discharge send
acknowledge-IsBounded env c s (few, acks) =
    let fewer : length (take_teardown c s.draining).1 ≤ max_draining_teardowns =
      ground (arith, length-take_teardown c s.draining) in
    if-both IsBounded env.send_ok (fewer, acks)
      (fewer, length-queue_pending s.pending_cancel_acks c env.now acks)

acknowledge_if-IsBounded :
    (env : Env) (b : Bool) (c : Option CanceledJob) (s : Session)
    → IsBounded s
    → IsBounded (acknowledge_if env b c s)
unfolding acknowledge_if
acknowledge_if-IsBounded env false c s b = b
acknowledge_if-IsBounded env true none s b = b
acknowledge_if-IsBounded env true (some c) s b = acknowledge-IsBounded env c s b

settle_in_flight-IsBounded :
    (flying : Option InFlightJob) (id : Text) (attempt : Option ℕ) (s : Session)
    → IsBounded s
    → IsBounded (settle_in_flight flying id attempt s)
unfolding settle_in_flight
settle_in_flight-IsBounded none id attempt s b = b
settle_in_flight-IsBounded (some job) id attempt s b = if-both IsBounded _ b b

settle_terminal-IsBounded :
    (t : Option (Text × Option ℕ)) (s : Session) → IsBounded s → IsBounded (settle_terminal t s)
unfolding settle_terminal settle_canceled
settle_terminal-IsBounded none s b = b
settle_terminal-IsBounded (some (id, attempt)) s b =
    let still = settle_in_flight-IsBounded s.in_flight id attempt s b in
    if-both IsBounded _ still still

worker-StaysBounded :
    (env : Env) (msg : WorkerMessage) (s : Session)
    → IsBounded s
    → StaysBounded (worker_arm env msg s)
unfolding worker_arm settle suppressed send
worker-StaysBounded env msg s b =
    let still = settle_terminal-IsBounded (terminal msg) s b in
    if-both StaysBounded (suppress_after_cancel msg s) (acknowledge_if-IsBounded env _ _ _ still)
      (if-both StaysBounded env.send_ok still (leave-StaysBounded env abnormal _ still))

receive-StaysBounded :
    (env : Env) (queue : List WorkerMessage) (s : Session)
    → IsBounded s
    → StaysBounded (receive env queue s)
unfolding receive
receive-StaysBounded env [] s b = b
receive-StaysBounded env (msg ∷ rest) s b = worker-StaysBounded env msg _ b

assign-StaysBounded :
    (env : Env) (assign : JobAssignMessage) (s : Session)
    → IsBounded s
    → StaysBounded (assign_arm env assign s)
unfolding assign_arm reject prepare start_job set_phase send
assign-StaysBounded env assign s b = if-both StaysBounded (not s.obs.allow_flag) b (
    if-both StaysBounded (is_some s.in_flight) b
      (if-both StaysBounded env.send_ok b (leave-StaysBounded env abnormal (prepare assign s) b)))

-- A teardown is added only where there is room.
cancel-IsBounded :
    (env : Env) (job_id : Text) (flying : Option InFlightJob) (s : Session)
    → IsBounded s
    → IsBounded (cancel_if env job_id flying s)
unfolding cancel_if cancel_job set_phase
cancel-IsBounded env job_id none s b = b
cancel-IsBounded env job_id (some job) s (few, acks) =
    if-both IsBounded (text_eq job.job_id job_id)
      (elim (Bool-cases room) [
        | inl fits ↦ rw fits (
          ground (
            arith,
            length-append s.draining (canceled_entry ∷ []),
            ltb→lt (length s.draining) max_draining_teardowns fits,
          ),
          acks,
        )
        | inr full ↦ rw full (few, acks)
      ])
      (few, acks)
  where
    room : Bool
    room = ltb (length s.draining) max_draining_teardowns

    canceled_entry : InFlightJob
    canceled_entry = record job { cancel_received_at = some env.now; cancel = false }

text-StaysBounded :
    (env : Env) (msg : ServerMessage) (s : Session)
    → IsBounded s
    → StaysBounded (text_arm env msg s)
unfolding text_arm cancel_arm update_arm
text-StaysBounded env (job_assign assign) s b = assign-StaysBounded env assign s b
text-StaysBounded env (cancel message) s b = cancel-IsBounded env message.job_id s.in_flight s b
text-StaysBounded env (ping message) s b = b
text-StaysBounded env (update_available u) s b = b

close-StaysBounded :
    (env : Env) (reason : Option Text) (s : Session)
    → IsBounded s
    → StaysBounded (close_arm env reason s)
unfolding close_arm
close-StaysBounded env none s b = leave-StaysBounded env clean s b
close-StaysBounded env (some reason) s b =
    if-both StaysBounded _ (leave-StaysBounded env upgrade_required s b)
      (leave-StaysBounded env clean s b)

-- Every step keeps at most 16 teardowns and 32 waiting acks.
pub step-StaysBounded :
    (config : ConnectionConfig) (reg : RegisterMessage) (env : Env) (event : Event) (s : Session)
    → IsBounded s
    → StaysBounded (step config reg env event s)
unfolding step error_arm shutdown_arm set_phase close auto_upgrade_arm
step-StaysBounded config reg env shutdown_signal s b =
    leave-StaysBounded env shutdown _ (if-both IsBounded (is_some s.in_flight) b b)
step-StaysBounded config reg env auto_upgrade_tick s b =
    if-both StaysBounded (is_some config.auto_upgrade) (hand_over-StaysBounded env _ _ b) b
step-StaysBounded config reg env heartbeat_tick s b = heartbeat-StaysBounded config reg env s b
step-StaysBounded config reg env worker_ready s b = receive-StaysBounded env s.worker_queue s b
step-StaysBounded config reg env (task_sends msg) s b = b
step-StaysBounded config reg env (text_frame msg) s b = text-StaysBounded env msg s b
step-StaysBounded config reg env unparseable_frame s b = b
step-StaysBounded config reg env other_frame s b = b
step-StaysBounded config reg env (close_frame reason) s b = close-StaysBounded env reason s b
step-StaysBounded config reg env (socket_error message) s b = leave-StaysBounded env abnormal _ b
step-StaysBounded config reg env stream_end s b = leave-StaysBounded env clean s b
