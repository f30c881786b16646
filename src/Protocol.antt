-- ===== src/Protocol.antt =====
-- crates/supervisor-core/src/protocol.rs: the frames of the wire protocol. Serialisation to JSON is
-- serde's; what the source adds to it, the pinned version, the purge directive and the bound on a
-- still, is modelled. A progress is the bit pattern of its f64, and is only passed on.
use decent_render.Prelude.{
  ℕ, ◌<◌, ◌≡◌, ◌↔◌, refl, ap, sym, Bool, true, false, List, Option, none, some, Text, leb, ◌==◌,
  if◌then◌else◌, arith,
}

abbrev pub protocol_version : ℕ
protocol_version = 2

-- The version of a register frame, if this node speaks it.
pub pinned_protocol_version : ℕ → Option ℕ
pinned_protocol_version v = if v == protocol_version then some v else none

pub data Platform : Type 0 where
  company community : Platform

pub record Capabilities : Type 0 where
  pub gpu : Bool
  pub max_concurrent_jobs : Option ℕ
  pub os : Option Text
  pub arch : Option Text

pub record RegisterMessage : Type 0 where
  pub tenant : Text
  pub protocol_version : ℕ
  pub operator : Option Text
  pub platform : Platform
  pub chip : Text
  pub ram_gb : ℕ
  pub supervisor_version : Text
  pub payload_version : Text
  pub capabilities : Capabilities

pub record HeartbeatMessage : Type 0 where
  pub tenant : Text
  pub current_job_count : ℕ

pub record JobAcceptedMessage : Type 0 where
  pub tenant : Text
  pub job_id : Text
  pub attempt : Option ℕ

pub record JobProgressMessage : Type 0 where
  pub tenant : Text
  pub job_id : Text
  pub attempt : Option ℕ
  pub progress : ℕ
  pub elapsed_ms : Option ℕ
  pub frames_so_far : Option ℕ

pub record JobMetrics : Type 0 where
  pub wall_ms : ℕ
  pub frames : ℕ
  pub output_size_in_bytes : Option ℕ

pub record JobCompleteMessage : Type 0 where
  pub tenant : Text
  pub job_id : Text
  pub attempt : Option ℕ
  pub output_key : Text
  pub metrics : JobMetrics

pub record JobFailedMessage : Type 0 where
  pub tenant : Text
  pub job_id : Text
  pub attempt : Option ℕ
  pub reason : Text

pub data RejectReason : Type 0 where
  not_accepting busy : RejectReason

pub record JobCanceledAckMessage : Type 0 where
  pub tenant : Text
  pub job_id : Text
  pub attempt : ℕ
  pub teardown_ms : Option ℕ

pub record JobRejectedMessage : Type 0 where
  pub tenant : Text
  pub job_id : Text
  pub attempt : Option ℕ
  pub reason : RejectReason

pub data WorkerMessage : Type 0 where
  register : RegisterMessage → WorkerMessage
  heartbeat : HeartbeatMessage → WorkerMessage
  job_accepted : JobAcceptedMessage → WorkerMessage
  job_progress : JobProgressMessage → WorkerMessage
  job_complete : JobCompleteMessage → WorkerMessage
  job_failed : JobFailedMessage → WorkerMessage
  job_rejected : JobRejectedMessage → WorkerMessage
  job_canceled_ack : JobCanceledAckMessage → WorkerMessage

pub data JobKind : Type 0 where
  standard gpu : JobKind

pub data Codec : Type 0 where
  h264 vp8 : Codec

pub data StillFormat : Type 0 where
  png : StillFormat

pub record StillDirective : Type 0 where
  pub frame : ℕ
  pub format : StillFormat

pub data PurgeAfter : Type 0 where
  purge_after : PurgeAfter

-- `Deserialize for PurgeAfter`: the directive parses from `true` alone.
pub deserialize_purge_after : Bool → Option PurgeAfter
deserialize_purge_after true = some purge_after
deserialize_purge_after false = none

pub record JobAssignMessageUnchecked : Type 0 where
  pub tenant : Text
  pub job_id : Text
  pub attempt : Option ℕ
  pub kind : JobKind
  pub duration_frames : ℕ
  pub fps : ℕ
  pub codec : Option Codec
  pub bundle_sha256 : Text
  pub bundle_get_url : Text
  pub payload_sha256 : Text
  pub payload_get_url : Text
  pub browser_sha256 : Option Text
  pub browser_get_url : Option Text
  pub input_props_get_url : Text
  pub asset_get_urls : List Text
  pub output_put_url : Text
  pub output_key : Text
  pub purge : PurgeAfter
  pub still : Option StillDirective

-- The checked assignment has the same fields.
pub record JobAssignMessage : Type 0 where
  pub fields : JobAssignMessageUnchecked
  pub open fields use *

pub data TryFrom : Type 0 where
  checked : JobAssignMessage → TryFrom
  still_out_of_range codec_missing : TryFrom

check_fields : Option StillDirective → Option Codec → JobAssignMessageUnchecked → TryFrom
check_fields (some still) codec u =
    if leb u.duration_frames still.frame
    then still_out_of_range
    else checked (record { fields = u })
check_fields none none u = codec_missing
check_fields none (some codec) u = checked (record { fields = u })

-- `TryFrom<JobAssignMessageUnchecked> for JobAssignMessage`.
pub try_from : JobAssignMessageUnchecked → TryFrom
unfolding check_fields
try_from u = check_fields u.still u.codec u

pub record CancelMessage : Type 0 where
  pub tenant : Text
  pub job_id : Text

pub record PingMessage : Type 0 where
  pub tenant : Text

pub record UpdateAvailableMessage : Type 0 where
  pub tenant : Text
  pub supervisor_version : Text
  pub payload_version : Text

pub data ServerMessage : Type 0 where
  job_assign : JobAssignMessage → ServerMessage
  cancel : CancelMessage → ServerMessage
  ping : PingMessage → ServerMessage
  update_available : UpdateAvailableMessage → ServerMessage

-- What an assignment must be: a still inside the composition, or a video with a codec.
pub data IsRenderable (u : JobAssignMessageUnchecked) : Type 0 where
  still_inside :
      (s : StillDirective) → u.still ≡ some s → s.frame < u.duration_frames → IsRenderable u
  video : (c : Codec) → u.still ≡ none → u.codec ≡ some c → IsRenderable u

-- An assignment passes the check exactly when it is renderable, and it passes unchanged.
pub try_from_iff :
    (u : JobAssignMessageUnchecked) (m : JobAssignMessage)
    → (try_from u ≡ checked m) ↔ (IsRenderable u × (m.fields ≡ u))
unfolding try_from
try_from_iff u m = (forth u.still u.codec refl refl, λ (r, same). back r same)
  where
    forth :
        (s : Option StillDirective) (c : Option Codec)
        → u.still ≡ s
        → u.codec ≡ c
        → check_fields s c u ≡ checked m
        → IsRenderable u × (m.fields ≡ u)
    forth (some s) c es ec h = (still_inside s es (ground arith), ground arith)
    forth none none es ec h = cc
    forth none (some c) es ec h = (video c es ec, ground arith)

    passed : m.fields ≡ u → checked (record { fields = u }) ≡ checked m
    passed same = ap (λ f. checked (record { fields = f })) (sym same)

    back : IsRenderable u → m.fields ≡ u → try_from u ≡ checked m
    back (still_inside s e inside) same = ground (arith, passed same)
    back (video c es ec) same = ground (arith, passed same)
