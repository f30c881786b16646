-- ===== src/Connection/CancelAck.antt =====
-- The cancel-ack records and their queue, of crates/supervisor-core/src/connection.rs. Instants count
-- nanoseconds.
use decent_render.Prelude.{
  ℕ, ◌-◌, ◌/◌, ◌≤◌, ◌≡◌, Bool, true, false, ◌&&◌, List, [], ◌∷◌, ◌++◌, Option, none, some, Text,
  text_eq, text_eq_iff, option_eq, option_eq_iff, leb, length, length-append, unwrap_or,
  if◌then◌else◌, arith, ◌↔◌,
}
use decent_render.Runner.{JobOutcome, complete, failed}
use decent_render.Protocol.{JobCanceledAckMessage}

pub record CanceledJob : Type 0 where
  pub tenant : Text
  pub job_id : Text
  pub attempt : Option ℕ
  pub received_at : ℕ

unfoldable pub cancel_ack_predicate : JobOutcome → Bool
cancel_ack_predicate complete = false
cancel_ack_predicate failed = true

-- `as_millis` of the time since the receipt.
unfoldable pub cancel_ack_for : CanceledJob → ℕ → JobCanceledAckMessage
cancel_ack_for canceled now = record {
  tenant = canceled.tenant;
  job_id = canceled.job_id;
  attempt = unwrap_or 1 canceled.attempt;
  teardown_ms = some ((now - canceled.received_at) / 1_000_000);
}

abbrev pub max_pending_cancel_acks : ℕ
max_pending_cancel_acks = 32

unfoldable pub queue_pending_cancel_ack :
    List JobCanceledAckMessage → CanceledJob → ℕ → List JobCanceledAckMessage
queue_pending_cancel_ack pending canceled now =
    if leb max_pending_cancel_acks (length pending)
    then pending
    else pending ++ cancel_ack_for canceled now ∷ []

-- `none` for the outcome is a task that panicked.
unfoldable pub queue_drained_cancel_ack :
    Option CanceledJob
    → Option JobOutcome
    → List JobCanceledAckMessage
    → ℕ
    → List JobCanceledAckMessage
queue_drained_cancel_ack none outcome pending now = pending
queue_drained_cancel_ack (some canceled) none pending now = pending
queue_drained_cancel_ack (some canceled) (some outcome) pending now =
    if cancel_ack_predicate outcome then queue_pending_cancel_ack pending canceled now else pending

-- A job in flight, or the one canceled, as the pair of its id and its attempt.
unfoldable pub frame_is_for : Option (Text × Option ℕ) → Text → Option ℕ → Bool
frame_is_for none job_id attempt = false
frame_is_for (some (id, n)) job_id attempt = text_eq id job_id && option_eq n attempt

-- A terminal frame belongs to a job exactly when both the id and the attempt are the job's.
pub frame_is_for_iff :
    (held : Option (Text × Option ℕ)) (job_id : Text) (attempt : Option ℕ)
    → (frame_is_for held job_id attempt ≡ true) ↔ (held ≡ some (job_id, attempt))
unfolding frame_is_for
frame_is_for_iff none job_id attempt = ground arith
frame_is_for_iff (some (id, n)) job_id attempt =
    ground (arith, text_eq_iff id job_id, option_eq_iff n attempt)

pub length-queue_pending :
    (pending : List JobCanceledAckMessage) (canceled : CanceledJob) (now : ℕ)
    → length pending ≤ max_pending_cancel_acks
    → length (queue_pending_cancel_ack pending canceled now) ≤ max_pending_cancel_acks
unfolding queue_pending_cancel_ack
length-queue_pending pending canceled now h =
    ground (arith, length-append pending (cancel_ack_for canceled now ∷ []))

pub length-queue_drained :
    (canceled : Option CanceledJob) (outcome : Option JobOutcome)
    (pending : List JobCanceledAckMessage) (now : ℕ)
    → length pending ≤ max_pending_cancel_acks
    → length (queue_drained_cancel_ack canceled outcome pending now) ≤ max_pending_cancel_acks
unfolding queue_drained_cancel_ack
length-queue_drained none outcome pending now h = h
length-queue_drained (some c) none pending now h = h
length-queue_drained (some c) (some o) pending now h =
    ground (arith, length-queue_pending pending c now h)
