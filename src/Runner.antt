-- ===== src/Runner.antt =====
-- What the parts of crates/supervisor-core/src/runner.rs share and the connection works with: the
-- record of a job in flight, the cache keys of an assignment, the progress frame and the limits.
pub mod Event
pub mod Host
pub mod Browser
pub mod Environment
pub mod Artifact
pub mod Workdir
pub mod Terminate
pub mod Loop
pub mod Child
pub mod Job
pub mod Silence
use decent_render.Prelude.{
  ℕ, ◌*◌, Bool, List, [], ◌∷◌, ◌++◌, Option, none, some, Text, codes, leb, if◌then◌else◌,
}
use decent_render.Prelude.Decimal.{parse, u64_max}
use decent_render.Protocol.{JobAssignMessage, WorkerMessage, job_progress}

pub data JobOutcome : Type 0 where
  complete failed : JobOutcome

-- A job's task is named by a number. `cancel` says whether the sender of the cancel signal is
-- still held.
pub record InFlightJob : Type 0 where
  pub job_id : Text
  pub tenant : Text
  pub attempt : Option ℕ
  pub cancel : Bool
  pub cancel_received_at : Option ℕ
  pub cache_keys : List Text
  pub handle : ℕ

browser_key : Option Text → List Text
browser_key none = []
browser_key (some sha) = (codes "browsers:" ++ sha) ∷ []

unfoldable pub cache_keys_for : JobAssignMessage → List Text
unfolding browser_key
cache_keys_for assign =
    (codes "payloads:" ++ assign.payload_sha256)
    ∷ (browser_key assign.browser_sha256 ++ (codes "bundles:" ++ assign.bundle_sha256) ∷ [])

unfoldable pub progress_to_wire : Text → Text → Option ℕ → ℕ → Option ℕ → Option ℕ → WorkerMessage
progress_to_wire tenant job_id attempt progress elapsed_ms frames_so_far = job_progress (record {
  tenant = tenant;
  job_id = job_id;
  attempt = attempt;
  progress = progress;
  elapsed_ms = elapsed_ms;
  frames_so_far = frames_so_far;
})

-- In milliseconds, as all durations here.
abbrev pub silence_timeout : ℕ
silence_timeout = 120 * 1000

abbrev pub workdir_sample_interval : ℕ
workdir_sample_interval = 2 * 1000

-- An hour, in milliseconds.
abbrev pub max_job_wall_time : ℕ
max_job_wall_time = 60 * 60 * 1000

abbrev pub max_workdir_bytes : ℕ
max_workdir_bytes = 20 * 1024 * 1024 * 1024

at_least : ℕ → ℕ → Option ℕ → ℕ
at_least floor default none = default
at_least floor default (some n) = if leb floor n then n else default

pub parse_job_wall_time_override : Option Text → ℕ
unfolding at_least
parse_job_wall_time_override none = max_job_wall_time
parse_job_wall_time_override (some raw) = at_least 50 max_job_wall_time (parse u64_max raw)

pub parse_workdir_bytes_override : Option Text → ℕ
unfolding at_least
parse_workdir_bytes_override none = max_workdir_bytes
parse_workdir_bytes_override (some raw) =
    at_least (1024 * 1024) max_workdir_bytes (parse u64_max raw)
