-- ===== src/Connection/Timers.antt =====
-- The arms of the session's `select!` loop that no frame triggers, in
-- crates/supervisor-core/src/connection.rs: shutdown, the auto-upgrade tick and the heartbeat, guards
-- and early exits included.
use decent_render.Prelude.{
  ℕ, ◌+◌, ◌%◌, ◌^◌, Bool, true, false, not, ◌&&◌, List, [], ◌∷◌, ◌++◌, Option, none, some, text_eq,
  any, leb, length, is_some, Text, map_option, if◌then◌else◌,
}
use decent_render.Protocol.{WorkerMessage, heartbeat, RegisterMessage}
use decent_render.Purge.{PurgeFailure}
use decent_render.Runner.{InFlightJob}
use decent_render.Status.{JobStatus, JobPhase, canceled, update_status}
use decent_render.Connection.Gate.{observe, ready}
use decent_render.Connection.Session.{
  ConnectionConfig, shutdown, heartbeat_limit_reached, auto_upgrade, abnormal, Env, Session, Step,
  goes_on, leave, send, close,
}

unfoldable pub set_phase : JobPhase → Session → Session
set_phase phase s = record s {
  obs =
      update_status
        (λ t. record t {
          current_job = map_option {A = JobStatus} (λ j. record j { phase = phase }) t.current_job;
        })
        s.obs;
}

unfoldable pub shutdown_arm : Env → Session → Step
unfolding set_phase
shutdown_arm env s =
    leave env shutdown (close (if is_some s.in_flight then set_phase canceled s else s))

unfoldable pub all_finished : Env → List InFlightJob → Bool
all_finished env [] = true
all_finished env (j ∷ js) = env.finished j.handle && all_finished env js

unfoldable pub is_idle : Env → Session → Bool
unfolding all_finished
is_idle env s = not (is_some s.in_flight) && all_finished env s.draining

unfoldable pub hand_over : Env → Option Text → Session → Step
hand_over env none s = goes_on s
hand_over env (some version) s = leave env (auto_upgrade version) (close s)

-- The arm is enabled only with an auto-upgrade policy in the configuration.
unfoldable pub auto_upgrade_arm : ConnectionConfig → Env → Session → Step
unfolding is_idle hand_over
auto_upgrade_arm config env s =
    let gate = observe s.obs.auto_upgrade_flag (is_idle env s) env.now s.gate in
    let s' = record s { gate = gate } in
    if is_some config.auto_upgrade then hand_over env (ready env.now gate) s' else goes_on s

-- The loop that announces each recorded purge failure once.
unfoldable pub announce_failures : List PurgeFailure → ℕ → Session → Session
announce_failures [] count s = s
announce_failures (f ∷ fs) count s = announce_failures fs count (
    if any (λ p. text_eq p f.path) s.announced_purge_failures then s else record s {
      announced_purge_failures = s.announced_purge_failures ++ f.path ∷ [];
      obs = update_status (λ t. record t { jobs_purge_pending = count % 2 ^ 32 }) s.obs;
    })

abbrev pub is_empty {ℓ} : {A : Type ℓ} → List A → Bool
is_empty [] = true
is_empty (x ∷ xs) = false

unfoldable pub announce_purges : Env → Session → Session
unfolding announce_failures
announce_purges env s =
    let s' = announce_failures env.outstanding (length env.outstanding) s in
    if is_empty env.outstanding && not (is_empty s'.announced_purge_failures)
    then record s' {
      announced_purge_failures = [];
      obs = update_status (λ t. record t { jobs_purge_pending = 0 }) s'.obs;
    }
    else s'

-- `u32::from(in_flight.is_some()) + draining.len()`.
unfoldable pub current_job_count : Session → ℕ
current_job_count s = (if is_some s.in_flight then 1 else 0) + length s.draining

unfoldable pub at_limit : Option ℕ → ℕ → Bool
at_limit none sent_so_far = false
at_limit (some limit) sent_so_far = leb limit sent_so_far

unfoldable pub heartbeat_frame : RegisterMessage → Session → WorkerMessage
heartbeat_frame reg s =
    heartbeat (record { tenant = reg.tenant; current_job_count = current_job_count s })

-- Behind a heartbeat that the socket took.
unfoldable pub count_heartbeat : ConnectionConfig → Env → Session → Step
unfolding at_limit
count_heartbeat config env s =
    let s' = record s { heartbeats_sent = (s.heartbeats_sent + 1) % 2 ^ 32 } in
    if at_limit config.heartbeat_limit s'.heartbeats_sent
    then leave env heartbeat_limit_reached (close s')
    else goes_on s'

unfoldable pub heartbeat_arm : ConnectionConfig → RegisterMessage → Env → Session → Step
unfolding count_heartbeat
heartbeat_arm config reg env s =
    let s' = announce_purges env s in
    if env.send_ok
    then count_heartbeat config env (send (heartbeat_frame reg s) s')
    else leave env abnormal s'
