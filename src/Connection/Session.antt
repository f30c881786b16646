-- ===== src/Connection/Session.antt =====
-- The state of one session of crates/supervisor-core/src/connection.rs, and the draining of its jobs.
-- What a session does to the outside is a trace, the latest effect first; logging is left out.
use decent_render.Prelude.{ℕ, Bool, List, [], ◌∷◌, Option, none, some, Text, if◌then◌else◌}
use decent_render.Protocol.{JobCanceledAckMessage, WorkerMessage, JobAssignMessage}
use decent_render.Purge.{PurgeFailure}
use decent_render.Runner.{JobOutcome, InFlightJob}
use decent_render.Status.{Observability, ConnectionState, disconnected, update_status}
use decent_render.Connection.Gate.{AutoUpgradePolicy, AutoUpgradeGate}
use decent_render.Connection.CancelAck.{CanceledJob, queue_drained_cancel_ack}

pub record ConnectionConfig : Type 0 where
  pub dispatch_url : Text
  pub token : Text
  pub heartbeat_interval : ℕ
  pub max_connect_attempts : ℕ
  pub connect_retry_delay : ℕ
  pub heartbeat_limit : Option ℕ
  pub allow_real_jobs : Bool
  pub reconnect : Bool
  pub reconnect_backoff_base : ℕ
  pub reconnect_backoff_max : ℕ
  pub auto_upgrade : Option AutoUpgradePolicy

pub data Disconnect : Type 0 where
  shutdown heartbeat_limit_reached upgrade_required : Disconnect
  auto_upgrade : Text → Disconnect
  abnormal clean : Disconnect

pub data Effect : Type 0 where
  sent : WorkerMessage → Effect
  closed workdirs_swept : Effect
  cancel_signaled : ℕ → Effect
  spawned : ℕ → JobAssignMessage → Effect
  joined : ℕ → Effect
  cache_swept : List Text → Effect

-- What the outside answers in one iteration of the loop: the time, whether the socket takes the
-- frame, how each task ends (`none` if it panics), which have ended and when a join returns, the
-- recorded purge failures, and the name of a task spawned now.
pub record Env : Type 0 where
  pub now : ℕ
  pub send_ok : Bool
  pub outcome : ℕ → Option JobOutcome
  pub finished : ℕ → Bool
  pub joined_at : ℕ → ℕ
  pub outstanding : List PurgeFailure
  pub next_handle : ℕ

pub record Session : Type 0 where
  pub obs : Observability
  pub gate : AutoUpgradeGate
  pub heartbeats_sent : ℕ
  pub worker_queue : List WorkerMessage
  pub in_flight : Option InFlightJob
  pub canceled_job : Option CanceledJob
  pub just_canceled : Option CanceledJob
  pub draining : List InFlightJob
  pub announced_purge_failures : List Text
  pub protected_keys : List Text
  pub pending_cancel_acks : List JobCanceledAckMessage
  pub trace : List Effect

-- An iteration goes on, or ends the session.
pub data Step : Type 0 where
  goes_on : Session → Step
  ends : Disconnect → Session → Step

abbrev pub max_draining_teardowns : ℕ
max_draining_teardowns = 16

unfoldable pub drained_ack_context : InFlightJob → Option CanceledJob
drained_ack_context job = elim job.cancel_received_at [
  | none ↦ none
  | some received_at ↦ some (record {
    tenant = job.tenant;
    job_id = job.job_id;
    attempt = job.attempt;
    received_at = received_at;
  })
]

-- `job.handle.await`, and the ack that its outcome asks for.
unfoldable pub join_drained : Env → InFlightJob → Session → Session
unfolding drained_ack_context
join_drained env job s = record s {
  pending_cancel_acks =
      queue_drained_cancel_ack (drained_ack_context job) (env.outcome job.handle)
        s.pending_cancel_acks (env.joined_at job.handle);
  trace = joined job.handle ∷ s.trace;
}

-- `job.cancel.take().map(|tx| tx.send(()))`.
unfoldable pub signal_cancel : InFlightJob → List Effect → List Effect
signal_cancel job trace = if job.cancel then cancel_signaled job.handle ∷ trace else trace

unfoldable pub drain_list : Env → List InFlightJob → Session → Session
unfolding join_drained
drain_list env [] s = s
drain_list env (job ∷ jobs) s = drain_list env jobs (join_drained env job s)

unfoldable pub drain_in_flight : Env → Option InFlightJob → Session → Session
unfolding join_drained signal_cancel
drain_in_flight env none s = s
drain_in_flight env (some job) s =
    join_drained env job (record s { in_flight = none; trace = signal_cancel job s.trace })

unfoldable pub drain_in_flight_jobs : Env → Session → Session
unfolding drain_in_flight drain_list
drain_in_flight_jobs env s =
    let s' = drain_in_flight env s.in_flight s in
    drain_list env s'.draining (record s' { draining = [] })

unfoldable pub set_connection : ConnectionState → Session → Session
set_connection state s = record s {
  obs = update_status (λ t. record t { connection = state }) s.obs;
}

-- Every exit that drains: the status, then the jobs, then the reason.
unfoldable pub leave : Env → Disconnect → Session → Step
unfolding drain_in_flight_jobs set_connection
leave env reason s = ends reason (drain_in_flight_jobs env (set_connection disconnected s))

unfoldable pub send : WorkerMessage → Session → Session
send msg s = record s { trace = sent msg ∷ s.trace }

unfoldable pub close : Session → Session
close s = record s { trace = closed ∷ s.trace }
