-- ===== src/Connection/Server.antt =====
-- The arm of the session's `select!` loop that takes a frame from dispatch, in
-- crates/supervisor-core/src/connection.rs, and the loop's step over all arms.
use decent_render.Prelude.{
  true, false, not, List, [], ◌∷◌, ◌++◌, Option, none, some, Text, codes, text_eq, starts_with, ltb,
  length, is_some, if◌then◌else◌,
}
use decent_render.Protocol.{
  JobAssignMessage, CancelMessage, UpdateAvailableMessage, ServerMessage, job_assign, cancel, ping,
  update_available, WorkerMessage, job_accepted, job_rejected, RegisterMessage, RejectReason,
  not_accepting, busy, JobKind, standard, gpu,
}
use decent_render.Runner.{InFlightJob, cache_keys_for}
use decent_render.Status.{downloading, rendering, canceled, update_status}
use decent_render.Connection.Gate.{announce, mark_busy}
use decent_render.Connection.Timers.{set_phase, shutdown_arm, auto_upgrade_arm, heartbeat_arm}
use decent_render.Connection.Worker.{worker_arm}
use decent_render.Connection.Session.{
  ConnectionConfig, upgrade_required, abnormal, clean, spawned, joined, cache_swept, Env, Session,
  Step, goes_on, max_draining_teardowns, signal_cancel, leave, send,
}

-- `format!("{:?}", assign.kind).to_lowercase()`.
tier_of : JobKind → Text
tier_of standard = codes "standard"
tier_of gpu = codes "gpu"

unfoldable pub reject : RejectReason → JobAssignMessage → Session → Session
reject reason assign s = record s {
  worker_queue =
      s.worker_queue
      ++ job_rejected (record {
        tenant = assign.tenant;
        job_id = assign.job_id;
        attempt = assign.attempt;
        reason = reason;
      })
        ∷ [];
}

-- The state in which the acceptance is sent.
unfoldable pub prepare : JobAssignMessage → Session → Session
unfolding tier_of
prepare assign s = record s {
  gate = mark_busy s.gate;
  obs =
      update_status
        (λ t. record t {
          current_job = some (record {
            id = assign.job_id;
            tier = tier_of assign.kind;
            progress = 0;
            phase = downloading;
          });
        })
        s.obs;
}

-- The job's task is spawned and its handle kept.
unfoldable pub start_job : Env → JobAssignMessage → Session → Session
start_job env assign s =
    let s' = set_phase rendering s in
    record s' {
      in_flight = some (record {
        job_id = assign.job_id;
        tenant = assign.tenant;
        attempt = assign.attempt;
        cancel = true;
        cancel_received_at = none;
        cache_keys = cache_keys_for assign;
        handle = env.next_handle;
      });
      trace = spawned env.next_handle assign ∷ s'.trace;
    }

unfoldable pub accepted : JobAssignMessage → WorkerMessage
accepted assign =
    job_accepted
      (record { tenant = assign.tenant; job_id = assign.job_id; attempt = assign.attempt })

unfoldable pub assign_arm : Env → JobAssignMessage → Session → Step
unfolding reject prepare start_job accepted
assign_arm env assign s =
    if not s.obs.allow_flag
    then goes_on (reject not_accepting assign s)
    else if is_some s.in_flight
    then goes_on (reject busy assign s)
    else if env.send_ok
    then goes_on (start_job env assign (send (accepted assign) (prepare assign s)))
    else leave env abnormal (prepare assign s)

-- The job in flight is canceled at `now`: its cancel signal is sent, its cache keys are remembered
-- and swept around, and its task is kept for the drain, or joined where there are too many.
unfoldable pub cancel_job : Env → InFlightJob → Session → Session
cancel_job env job s =
    let job' = record job { cancel_received_at = some env.now; cancel = false } in
    let s' = record (set_phase canceled s) {
      in_flight = none;
      canceled_job = some (record {
        tenant = job.tenant;
        job_id = job.job_id;
        attempt = job.attempt;
        received_at = env.now;
      });
      protected_keys = job.cache_keys;
      trace = cache_swept job.cache_keys ∷ signal_cancel job s.trace;
    } in
    if ltb (length s'.draining) max_draining_teardowns
    then record s' { draining = s'.draining ++ job' ∷ [] }
    else record s' { trace = joined job.handle ∷ s'.trace }

unfoldable pub cancel_if : Env → Text → Option InFlightJob → Session → Session
unfolding cancel_job
cancel_if env job_id none s = s
cancel_if env job_id (some job) s = if text_eq job.job_id job_id then cancel_job env job s else s

unfoldable pub cancel_arm : Env → CancelMessage → Session → Session
unfolding cancel_if
cancel_arm env message s = cancel_if env message.job_id s.in_flight s

unfoldable pub update_arm : UpdateAvailableMessage → Session → Session
update_arm u s = record s {
  obs = update_status (λ t. record t { update_available = some u.supervisor_version }) s.obs;
  gate = announce u.supervisor_version s.gate;
}

unfoldable pub text_arm : Env → ServerMessage → Session → Step
unfolding assign_arm cancel_arm update_arm
text_arm env (job_assign assign) s = assign_arm env assign s
text_arm env (cancel message) s = goes_on (cancel_arm env message s)
text_arm env (ping message) s = goes_on s
text_arm env (update_available u) s = goes_on (update_arm u s)

unfoldable pub close_arm : Env → Option Text → Session → Step
close_arm env none s = leave env clean s
close_arm env (some reason) s =
    if starts_with (codes "upgrade-required") reason
    then leave env upgrade_required s
    else leave env clean s

unfoldable pub error_arm : Env → Text → Session → Step
error_arm env message s =
    leave env abnormal
      (record s { obs = update_status (λ t. record t { last_error = some message }) s.obs })

-- What wakes the loop: the shutdown signal, a tick, the head of the worker queue, or what the stream
-- yields. `task_sends` is a job's task that queues a frame.
pub data Event : Type 0 where
  shutdown_signal auto_upgrade_tick heartbeat_tick worker_ready : Event
  task_sends : WorkerMessage → Event
  text_frame : ServerMessage → Event
  unparseable_frame other_frame : Event
  close_frame : Option Text → Event
  socket_error : Text → Event
  stream_end : Event

unfoldable pub receive : Env → List WorkerMessage → Session → Step
receive env [] s = goes_on s
receive env (msg ∷ rest) s = worker_arm env msg (record s { worker_queue = rest })

unfoldable pub step : ConnectionConfig → RegisterMessage → Env → Event → Session → Step
unfolding text_arm close_arm error_arm receive
step config reg env shutdown_signal s = shutdown_arm env s
step config reg env auto_upgrade_tick s = auto_upgrade_arm config env s
step config reg env heartbeat_tick s = heartbeat_arm config reg env s
step config reg env worker_ready s = receive env s.worker_queue s
step config reg env (task_sends msg) s =
    goes_on (record s { worker_queue = s.worker_queue ++ msg ∷ [] })
step config reg env (text_frame msg) s = text_arm env msg s
step config reg env unparseable_frame s = goes_on s
step config reg env other_frame s = goes_on s
step config reg env (close_frame reason) s = close_arm env reason s
step config reg env (socket_error message) s = error_arm env message s
step config reg env stream_end s = leave env clean s
