-- ===== src/Connection/Worker.antt =====
-- The arm of the session's `select!` loop that takes a frame from a job's task, in
-- crates/supervisor-core/src/connection.rs: terminal frames are matched against the job in flight and
-- the job canceled, and pass on to dispatch or are suppressed and acknowledged.
use decent_render.Prelude.{
  ℕ, ◌+◌, ◌%◌, ◌^◌, Bool, true, false, not, ◌&&◌, List, [], ◌∷◌, Option, none, some, Text, text_eq,
  option_eq, is_some, map_option, if◌then◌else◌,
}
use decent_render.Protocol.{
  WorkerMessage, register, heartbeat, job_accepted, job_progress, job_complete, job_failed,
  job_rejected, job_canceled_ack,
}
use decent_render.Runner.{JobOutcome, complete, failed, InFlightJob}
use decent_render.Status.{SupervisorStatus, JobStatus, JobPhase, canceled, update_status}
use decent_render.Connection.CancelAck.{
  CanceledJob, cancel_ack_predicate, cancel_ack_for, queue_pending_cancel_ack, frame_is_for,
}
use decent_render.Connection.Session.{
  abnormal, Effect, joined, cache_swept, Env, Session, Step, goes_on, leave, send,
}

abbrev pub canceled_pair : Option CanceledJob → Option (Text × Option ℕ)
canceled_pair none = none
canceled_pair (some c) = some (c.job_id, c.attempt)

-- The job id and attempt of a terminal frame.
unfoldable pub terminal : WorkerMessage → Option (Text × Option ℕ)
terminal (register m) = none
terminal (heartbeat m) = none
terminal (job_accepted m) = none
terminal (job_progress m) = none
terminal (job_complete m) = some (m.job_id, m.attempt)
terminal (job_failed m) = some (m.job_id, m.attempt)
terminal (job_rejected m) = none
terminal (job_canceled_ack m) = none

-- The outcome that a terminal frame reports.
unfoldable pub outcome_of : WorkerMessage → JobOutcome
outcome_of (job_complete m) = complete
outcome_of _ = failed

-- A terminal frame of the job in flight ends it: its cache keys are remembered and swept around.
unfoldable pub settle_in_flight : Option InFlightJob → Text → Option ℕ → Session → Session
settle_in_flight none id attempt s = s
settle_in_flight (some job) id attempt s =
    if frame_is_for (some (job.job_id, job.attempt)) id attempt
    then record s {
      protected_keys = job.cache_keys;
      trace = cache_swept job.cache_keys ∷ s.trace;
      in_flight = none;
    }
    else s

-- A terminal frame of the job canceled hands its record over.
unfoldable pub settle_canceled : Text → Option ℕ → Session → Session
settle_canceled id attempt s =
    if frame_is_for (canceled_pair s.canceled_job) id attempt
    then record s { just_canceled = s.canceled_job; canceled_job = none }
    else s

unfoldable pub settle_terminal : Option (Text × Option ℕ) → Session → Session
unfolding settle_in_flight settle_canceled
settle_terminal none s = s
settle_terminal (some (id, attempt)) s =
    settle_canceled id attempt (settle_in_flight s.in_flight id attempt s)

unfoldable pub settle : WorkerMessage → Session → Session
unfolding settle_terminal terminal
settle msg s = settle_terminal (terminal msg) s

unfoldable pub suppress_after_cancel : WorkerMessage → Session → Bool
unfolding terminal
suppress_after_cancel msg s = elim (terminal msg) [
  | none ↦ false
  | some (id, attempt) ↦ frame_is_for (canceled_pair s.canceled_job) id attempt
]

unfoldable pub is_job : Text → Option JobStatus → Bool
is_job id none = false
is_job id (some j) = text_eq j.id id

unfoldable pub count_canceled : Text → Bool → SupervisorStatus → SupervisorStatus
unfolding is_job
count_canceled id idle t =
    let t' = record t { jobs_canceled = (t.jobs_canceled + 1) % 2 ^ 64 } in
    if idle && is_job id t.current_job then record t' { current_job = none } else t'

unfoldable pub is_torn_down : CanceledJob → InFlightJob → Bool
is_torn_down c j = text_eq j.job_id c.job_id && option_eq j.attempt c.attempt

-- The first teardown of the canceled job, and the others.
unfoldable pub take_teardown :
    CanceledJob → List InFlightJob → Option InFlightJob × List InFlightJob
unfolding is_torn_down
take_teardown c [] = (none, [])
take_teardown c (j ∷ js) =
    let (found, rest) = take_teardown c js in
    if is_torn_down c j then (some j, js) else (found, j ∷ rest)

unfoldable pub join_teardown : Option InFlightJob → List Effect → List Effect
join_teardown none trace = trace
join_teardown (some j) trace = joined j.handle ∷ trace

-- The teardown's task is joined and its entry taken out.
unfoldable pub discharge : CanceledJob → Session → Session
unfolding take_teardown join_teardown
discharge c s =
    let (entry, rest) = take_teardown c s.draining in
    record s { just_canceled = none; draining = rest; trace = join_teardown entry s.trace }

-- The ack of a cancel whose teardown is complete, queued if the socket does not take it.
unfoldable pub acknowledge : Env → CanceledJob → Session → Session
unfolding discharge
acknowledge env c s =
    let s' = discharge c s in
    if env.send_ok then send (job_canceled_ack (cancel_ack_for c env.now)) s' else record s' {
      pending_cancel_acks = queue_pending_cancel_ack s'.pending_cancel_acks c env.now;
    }

unfoldable pub acknowledge_if : Env → Bool → Option CanceledJob → Session → Session
unfolding acknowledge
acknowledge_if env false c s = s
acknowledge_if env true none s = s
acknowledge_if env true (some c) s = acknowledge env c s

unfoldable pub suppressed : Env → WorkerMessage → Text → Session → Session
unfolding acknowledge_if outcome_of count_canceled
suppressed env msg id s =
    acknowledge_if env (cancel_ack_predicate (outcome_of msg)) s.just_canceled
      (record s { obs = update_status (count_canceled id (not (is_some s.in_flight))) s.obs })

is_phase_canceled : JobPhase → Bool
is_phase_canceled canceled = true
is_phase_canceled _ = false

unfoldable pub count_failed : Text → Option JobStatus → SupervisorStatus → SupervisorStatus
unfolding is_phase_canceled
count_failed id none t = t
count_failed id (some j) t =
    if text_eq j.id id && not (is_phase_canceled j.phase)
    then record t { jobs_failed = (t.jobs_failed + 1) % 2 ^ 64 }
    else if text_eq j.id id && is_phase_canceled j.phase
    then record t { jobs_canceled = (t.jobs_canceled + 1) % 2 ^ 64 }
    else t

-- What a frame on its way out does to the status.
unfoldable pub emit : WorkerMessage → SupervisorStatus → SupervisorStatus
unfolding count_failed
emit (job_progress p) t = record t {
  current_job = map_option {A = JobStatus} (λ j. record j { progress = p.progress }) t.current_job;
}
emit (job_complete c) t = record t {
  current_job = none;
  jobs_completed = (t.jobs_completed + 1) % 2 ^ 64;
}
emit (job_failed f) t = record (count_failed f.job_id t.current_job t) { current_job = none }
emit _ t = t

unfoldable pub id_of : WorkerMessage → Text
unfolding terminal
id_of msg = elim (terminal msg) [ none ↦ [] | some (id, attempt) ↦ id ]

unfoldable pub worker_arm : Env → WorkerMessage → Session → Step
unfolding settle suppress_after_cancel suppressed emit id_of
worker_arm env msg s =
    let s' = settle msg s in
    let s'' = record s' { obs = update_status (emit msg) s'.obs } in
    if suppress_after_cancel msg s
    then goes_on (suppressed env msg (id_of msg) s')
    else if env.send_ok
    then goes_on (send msg s'')
    else leave env abnormal s''
