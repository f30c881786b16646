-- ===== src/Tests/Sessions.antt =====
-- The connection at work on a concrete session.
use decent_render.Prelude.{
  ℕ, ◌-◌, ◌≤◌, ◌≡◌, ◌↔◌, ◌⊎◌, inl, refl, true, false, List, [], ◌∷◌, none, some, codes, arith, ◌==◌,
  if◌then◌else◌, option_text_eq, text_eq,
}
use Prim.Native.Nat.{max}
use decent_render.Protocol.{
  company, RegisterMessage, JobCanceledAckMessage, job_failed, job_complete, JobFailedMessage,
  JobCompleteMessage, CancelMessage, cancel, standard, h264, png, purge_after,
  JobAssignMessageUnchecked, checked, try_from, try_from_iff, IsRenderable,
}
use decent_render.Status.{default_status}
use decent_render.Runner.{InFlightJob, failed}
use decent_render.Connection.Gate.{
  AutoUpgradePolicy, Call, announces, observes, run, ready, announce, observe, new_at, IdleSince,
  ready_lem,
}
use decent_render.Connection.Backoff.{ReconnectBackoff, new, delays, delays-target}
use decent_render.Connection.Session.{
  ConnectionConfig, Env, Session, Step, send, goes_on, ends, drain_in_flight_jobs,
}
use decent_render.Connection.Worker.{worker_arm}
use decent_render.Connection.Server.{
  text_frame, heartbeat_tick, cancel_arm, cancel_if, cancel_job, step,
}
use decent_render.Connection.Timers.{
  announce_purges, set_phase, heartbeat_arm, count_heartbeat, at_limit,
}
use decent_render.Connection.Waiting.{Waits, waits_no_more, waits, is_quiet}
use decent_render.Connection.Connect.{
  unreachable, connects, Attempt, Connecting, connect, Explains, connect_lem,
}
use decent_render.Connection.Drain.{IsHeld, IsJoined, drain_lem}
use decent_render.Connection.Ownership.{Keeps}
use decent_render.Connection.Ownership.Server.{Reports, step_lem}
use decent_render.Connection.Bounds.{StaysBounded, step-StaysBounded}
use decent_render.Connection.Cancel.{IsAcknowledged, IsLeftDraining, cancel-failed, cancel_complete}

abbrev pub config : ConnectionConfig
config = record {
  dispatch_url = codes "wss://dispatch";
  token = codes "token";
  heartbeat_interval = 10;
  max_connect_attempts = 3;
  connect_retry_delay = 1;
  heartbeat_limit = some 5;
  allow_real_jobs = true;
  reconnect = true;
  reconnect_backoff_base = 2;
  reconnect_backoff_max = 60;
  auto_upgrade = none;
}

abbrev pub registration : RegisterMessage
registration = record {
  tenant = codes "t";
  protocol_version = 2;
  operator = none;
  platform = company;
  chip = codes "m4";
  ram_gb = 64;
  supervisor_version = codes "1.0.0";
  payload_version = codes "1.0.0";
  capabilities = record { gpu = true; max_concurrent_jobs = some 1; os = none; arch = none };
}

abbrev pub world : Env
world = record {
  now = 3_000_000;
  send_ok = true;
  outcome = λ h. some failed;
  finished = λ h. true;
  joined_at = λ h. 5_000_000;
  outstanding = [];
  next_handle = 8;
}

abbrev job : InFlightJob
job = record {
  job_id = codes "j";
  tenant = codes "t";
  attempt = some 1;
  cancel = true;
  cancel_received_at = none;
  cache_keys = codes "payloads:a" ∷ [];
  handle = 7;
}

abbrev pub running : Session
running = record {
  obs = record { status = some default_status; allow_flag = true; auto_upgrade_flag = false };
  gate = record { policy = none; target = none; idle_since = none; suppressed_until = none };
  heartbeats_sent = 0;
  worker_queue = [];
  in_flight = some job;
  canceled_job = none;
  just_canceled = none;
  draining = [];
  announced_purge_failures = [];
  protected_keys = [];
  pending_cancel_acks = [];
  trace = [];
}

abbrev cancel_message : CancelMessage
cancel_message = record { tenant = codes "t"; job_id = codes "j" }

step_lem_example :
    Keeps 7
      (Reports 7 (text_frame (cancel cancel_message)) running)
      (step config registration world (text_frame (cancel cancel_message)) running)
step_lem_example =
    step_lem config registration world (text_frame (cancel cancel_message)) running 7
      (inl (inl refl))

drain_lem_example :
    let s' = drain_in_flight_jobs world running in
    (s'.in_flight ≡ none)
    × (s'.draining ≡ [])
    × ((h : ℕ) → IsHeld h running ⊎ IsJoined h running.trace → IsJoined h s'.trace)
drain_lem_example = drain_lem world running

step-StaysBounded_example : StaysBounded (step config registration world heartbeat_tick running)
step-StaysBounded_example =
    step-StaysBounded config registration world heartbeat_tick running (omega arith, omega arith)

abbrev failure_frame : JobFailedMessage
failure_frame = record {
  tenant = codes "t";
  job_id = codes "j";
  attempt = some 1;
  reason = codes "killed";
}

abbrev completion_frame : JobCompleteMessage
completion_frame = record {
  tenant = codes "t";
  job_id = codes "j";
  attempt = some 1;
  output_key = codes "out";
  metrics = record { wall_ms = 5; frames = 3; output_size_in_bytes = none };
}

abbrev canceled_running : Session
canceled_running = cancel_arm world cancel_message running

abbrev after_of : Session → Step → Session
after_of s (goes_on v) = v
after_of s (ends reason v) = s

-- A heartbeat comes between the cancel and the end of its job.
beaten : Session
unfolding heartbeat_arm count_heartbeat
beaten = after_of canceled_running (step config registration world heartbeat_tick canceled_running)

waited : Waits config registration canceled_running beaten
unfolding beaten is_quiet step heartbeat_arm count_heartbeat at_limit cancel_arm cancel_if
    cancel_job text_eq send announce_purges set_phase
waited = waits world heartbeat_tick waits_no_more refl refl

cancel-failed_example :
    IsAcknowledged config registration world world job cancel_message running refl refl refl beaten
      (worker_arm world (job_failed failure_frame) beaten)
cancel-failed_example =
    cancel-failed config registration world world job cancel_message running refl refl refl
      failure_frame beaten refl refl tt waited

cancel_complete_example :
    IsLeftDraining config registration world world job cancel_message running refl refl refl beaten
      (worker_arm world (job_complete completion_frame) beaten)
cancel_complete_example =
    cancel_complete config registration world world job cancel_message running refl refl refl
      completion_frame beaten refl refl waited

abbrev dials : ℕ → Attempt
dials n = record { answer = if n == 2 then connects else unreachable; stopped_in_pause = false }

connect_lem_example :
    (r : Connecting) × (connect config dials ≡ some r) × Explains dials (max 1 3) r
connect_lem_example = connect_lem config dials

abbrev pub acks : List JobCanceledAckMessage
acks =
    record { tenant = codes "t"; job_id = codes "a"; attempt = 1; teardown_ms = some 4 }
    ∷ record { tenant = codes "t"; job_id = codes "b"; attempt = 2; teardown_ms = none }
    ∷ []

abbrev policy : AutoUpgradePolicy
policy = record { quiet_period = 10; suppressed_version = none; suppressed_for = none }

abbrev calls : List Call
calls = observes true true 25 ∷ observes true true 12 ∷ announces (codes "1.1.0") ∷ []

is_ready : ready 25 (run (some policy) 0 calls) ≡ some (codes "1.1.0")
unfolding run ready announce observe option_text_eq new_at
is_ready = refl

ready_lem_example :
    (p : AutoUpgradePolicy) × (t : ℕ) × (some policy ≡ some p)
    × (p.quiet_period ≤ 25 - t)
    × IdleSince (codes "1.1.0") t calls
ready_lem_example = ready_lem (some policy) 0 calls 25 (codes "1.1.0") is_ready

-- A draw that takes the whole target.
abbrev pub whole : ℕ → ℕ → ℕ
whole t u = t

abbrev backoff : ReconnectBackoff
backoff = record { base = 2; max = 60; attempt = 3 }

abbrev flaps : List (ℕ × ℕ)
flaps = (5, 1) ∷ (59, 0) ∷ []

delays-target_example :
    (delays whole (new 2 60) ((7, 1) ∷ flaps)).0 ≡ 8 ∷ (delays whole (new 2 60) flaps).0
delays-target_example =
    delays-target whole 2 60 flaps 7 1 (ground arith) (ground arith) (ground arith)
      (omega arith, (omega arith, tt)) (omega arith)

abbrev pub assignment : JobAssignMessageUnchecked
assignment = record {
  tenant = codes "t";
  job_id = codes "j";
  attempt = some 1;
  kind = standard;
  duration_frames = 90;
  fps = 30;
  codec = some h264;
  bundle_sha256 = codes "b";
  bundle_get_url = codes "u";
  payload_sha256 = codes "p";
  payload_get_url = codes "u";
  browser_sha256 = none;
  browser_get_url = none;
  input_props_get_url = codes "u";
  asset_get_urls = [];
  output_put_url = codes "u";
  output_key = codes "k";
  purge = purge_after;
  still = some (record { frame = 90; format = png });
}

try_from_iff_example :
    (try_from assignment ≡ checked (record { fields = assignment }))
    ↔ (IsRenderable assignment × (assignment ≡ assignment))
try_from_iff_example = try_from_iff assignment (record { fields = assignment })
