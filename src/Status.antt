-- ===== src/Status.antt =====
-- crates/supervisor-core/src/status.rs: the observable status. The log channel and the timestamps
-- of its lines are output only and left out.
use decent_render.Prelude.{ℕ, Bool, false, Option, none, some, Text, map_option}
use decent_render.Protocol.{protocol_version}

pub data ConnectionState : Type 0 where
  disconnected connecting reconnecting connected registered : ConnectionState

pub data JobPhase : Type 0 where
  downloading rendering uploading done failed canceled : JobPhase

pub record JobStatus : Type 0 where
  pub id : Text
  pub tier : Text
  pub progress : ℕ
  pub phase : JobPhase

pub record NodeIdentity : Type 0 where
  pub chip : Text
  pub platform : Text
  pub protocol_version : ℕ
  pub supervisor_version : Text

unfoldable pub from_register_fields : Text → Text → Text → NodeIdentity
from_register_fields chip platform supervisor_version = record {
  chip = chip;
  platform = platform;
  protocol_version = protocol_version;
  supervisor_version = supervisor_version;
}

pub record SupervisorStatus : Type 0 where
  pub connection : ConnectionState
  pub dispatch_url : Option Text
  pub node_identity : Option NodeIdentity
  pub current_job : Option JobStatus
  pub jobs_completed : ℕ
  pub jobs_failed : ℕ
  pub jobs_canceled : ℕ
  pub jobs_purge_pending : ℕ
  pub last_error : Option Text
  pub allow_real_jobs : Bool
  pub auto_upgrade_enabled : Bool
  pub update_available : Option Text

abbrev pub default_status : SupervisorStatus
default_status = record {
  connection = disconnected;
  dispatch_url = none;
  node_identity = none;
  current_job = none;
  jobs_completed = 0;
  jobs_failed = 0;
  jobs_canceled = 0;
  jobs_purge_pending = 0;
  last_error = none;
  allow_real_jobs = false;
  auto_upgrade_enabled = false;
  update_available = none;
}

-- `status` is the snapshot in the watch channel, `none` where no channel is attached.
pub record Observability : Type 0 where
  pub status : Option SupervisorStatus
  pub allow_flag : Bool
  pub auto_upgrade_flag : Bool

unfoldable pub update_status : (SupervisorStatus → SupervisorStatus) → Observability → Observability
update_status f obs = record obs { status = map_option f obs.status }

abbrev status_or : Option SupervisorStatus → SupervisorStatus
status_or none = default_status
status_or (some s) = s

pub borrow_status : Observability → SupervisorStatus
borrow_status obs = status_or obs.status

pub set_allow_real_jobs : Bool → Observability → Observability
set_allow_real_jobs value obs =
    update_status (λ s. record s { allow_real_jobs = value }) (record obs { allow_flag = value })

pub set_auto_upgrade_enabled : Bool → Observability → Observability
set_auto_upgrade_enabled value obs =
    update_status (λ s. record s { auto_upgrade_enabled = value })
      (record obs { auto_upgrade_flag = value })
