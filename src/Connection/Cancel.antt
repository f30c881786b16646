-- ===== src/Connection/Cancel.antt =====
-- A cancel from its frame to its end (crates/supervisor-core/src/connection.rs): the teardown, the terminal
-- frame that is suppressed, and the ack.
use mathlib.Core.Path.{subst}
use decent_render.Prelude.{
  sym, ap, ℕ, ◌≡◌, refl, ◌∙◌, inl, inr, true, false, not, List, [], ◌∷◌, ◌++◌, Option, none, some,
  Text, if◌then◌else◌, Bool-cases, is_some, ltb, text_eq, text_eq_iff, option_eq, option_eq_iff,
  length, All,
}
use decent_render.Protocol.{
  WorkerMessage, job_canceled_ack, job_failed, job_complete, JobFailedMessage, JobCompleteMessage,
  CancelMessage, RegisterMessage,
}
use decent_render.Status.{canceled, update_status}
use decent_render.Runner.{InFlightJob}
use decent_render.Connection.CancelAck.{
  CanceledJob, cancel_ack_predicate, cancel_ack_for, frame_is_for, frame_is_for_iff,
  queue_pending_cancel_ack,
}
use decent_render.Connection.Session.{
  ConnectionConfig, sent, joined, cache_swept, Env, Session, Step, goes_on, ends,
  max_draining_teardowns, send, signal_cancel,
}
use decent_render.Connection.Timers.{set_phase}
use decent_render.Connection.Worker.{
  canceled_pair, terminal, settle_in_flight, settle_canceled, settle_terminal, settle, id_of,
  outcome_of, count_canceled, take_teardown, is_torn_down, acknowledge, discharge, acknowledge_if,
  suppressed, suppress_after_cancel, worker_arm,
}
use decent_render.Connection.Waiting.{Waits, Waits-Same}
use decent_render.Connection.Server.{cancel_job, cancel_if, cancel_arm}

-- The entry that a cancel leaves in the drain, and its record.
abbrev pub teardown_of : Env → InFlightJob → InFlightJob
teardown_of env job = record job { cancel_received_at = some env.now; cancel = false }

abbrev pub record_of : Env → InFlightJob → CanceledJob
record_of env job = record {
  tenant = job.tenant;
  job_id = job.job_id;
  attempt = job.attempt;
  received_at = env.now;
}

text_eq_self : (t : Text) → text_eq t t ≡ true
text_eq_self t = (text_eq_iff t t).1 refl

option_eq_self : (n : Option ℕ) → option_eq n n ≡ true
option_eq_self n = (option_eq_iff n n).1 refl

-- No teardown in the list is that of the job.
abbrev pub IsNew : CanceledJob → List InFlightJob → Type 0
IsNew c js = All (λ j. is_torn_down c j ≡ false) js

take_teardown-last :
    (c : CanceledJob) (entry : InFlightJob) (js : List InFlightJob)
    → IsNew c js
    → is_torn_down c entry ≡ true
    → take_teardown c (js ++ entry ∷ []) ≡ (some entry, js)
unfolding take_teardown
take_teardown-last c entry [] new this = rw this refl
take_teardown-last c entry (j ∷ js) (other, new) this =
    rw other (rw (take_teardown-last c entry js new this) refl)

cancel_arm-job :
    (env : Env) (job : InFlightJob) (m : CancelMessage) (s : Session)
    → s.in_flight ≡ some job
    → m.job_id ≡ job.job_id
    → cancel_arm env m s ≡ cancel_job env job s
unfolding cancel_arm cancel_if
cancel_arm-job env job m s flying named = rw flying (rw named (rw (text_eq_self job.job_id) refl))

-- The terminal frame of the job canceled takes the record over.
handed_over : Session → Session
handed_over s = record s { just_canceled = s.canceled_job; canceled_job = none }

settle-canceled :
    (t : Option (Text × Option ℕ)) (id : Text) (attempt : Option ℕ) (s : Session)
    → t ≡ some (id, attempt)
    → s.in_flight ≡ none
    → frame_is_for (canceled_pair s.canceled_job) id attempt ≡ true
    → settle_terminal t s ≡ handed_over s
unfolding settle_terminal settle_in_flight settle_canceled handed_over
settle-canceled t id attempt s named idle this = rw named (rw idle (rw this refl))

-- The status behind a frame that is suppressed.
counted : Text → Session → Session
counted id s = record s {
  obs = update_status (count_canceled id (not (is_some s.in_flight))) s.obs;
}

suppress-canceled :
    (msg : WorkerMessage) (id : Text) (attempt : Option ℕ) (s : Session)
    → terminal msg ≡ some (id, attempt)
    → frame_is_for (canceled_pair s.canceled_job) id attempt ≡ true
    → suppress_after_cancel msg s ≡ true
unfolding suppress_after_cancel
suppress-canceled msg id attempt s named this = rw (suppress_after_cancel, named) this

id_of-terminal :
    (msg : WorkerMessage) (id : Text) (attempt : Option ℕ)
    → terminal msg ≡ some (id, attempt)
    → id_of msg ≡ id
unfolding id_of
id_of-terminal msg id attempt named = rw (id_of, named) refl

worker_arm-canceled :
    (env : Env) (msg : WorkerMessage) (id : Text) (attempt : Option ℕ) (s : Session)
    → terminal msg ≡ some (id, attempt)
    → s.in_flight ≡ none
    → frame_is_for (canceled_pair s.canceled_job) id attempt ≡ true
    → worker_arm env msg s
      ≡ goes_on (
          acknowledge_if env
            (cancel_ack_predicate (outcome_of msg))
            s.canceled_job
            (counted id (handed_over s)))
unfolding worker_arm settle suppressed counted handed_over
worker_arm-canceled env msg id attempt s named idle this =
    rw (settle-canceled (terminal msg) id attempt s named idle this) (
      rw (suppress-canceled msg id attempt s named this)
        (rw (id_of-terminal msg id attempt named) refl))

module _ (config : ConnectionConfig) (reg : RegisterMessage) (env env' : Env) (job : InFlightJob)
    (m : CancelMessage) (s : Session) (flying : s.in_flight ≡ some job)
    (named : m.job_id ≡ job.job_id)
    (few : ltb (length s.draining) max_draining_teardowns ≡ true) where
  -- A session that waits for the end of the job it canceled.
  awaiting : Session → Session
  awaiting v = record v {
    in_flight = none;
    canceled_job = some (record_of env job);
    draining = s.draining ++ teardown_of env job ∷ [];
  }

  canceled_session : Session
  unfolding set_phase
  canceled_session = record (set_phase canceled s) {
    in_flight = none;
    canceled_job = some (record_of env job);
    protected_keys = job.cache_keys;
    trace = cache_swept job.cache_keys ∷ signal_cancel job s.trace;
    draining = s.draining ++ teardown_of env job ∷ [];
  }

  cancel_arm-room : cancel_arm env m s ≡ canceled_session
  unfolding cancel_job canceled_session set_phase
  cancel_arm-room = cancel_arm-job env job m s flying named ∙ rw few refl

  cancel_arm-fields :
      ((cancel_arm env m s).in_flight ≡ none)
      × ((cancel_arm env m s).canceled_job ≡ some (record_of env job))
      × ((cancel_arm env m s).draining ≡ s.draining ++ teardown_of env job ∷ [])
  unfolding canceled_session
  cancel_arm-fields = (
    ap (λ v. v.in_flight) cancel_arm-room,
    ap (λ v. v.canceled_job) cancel_arm-room,
    ap (λ v. v.draining) cancel_arm-room,
  )

  -- Behind the cancel and any quiet events the session still waits.
  Waits-awaiting : (v : Session) → Waits config reg (cancel_arm env m s) v → v ≡ awaiting v
  unfolding awaiting
  Waits-awaiting v w =
      let (a, b, c) = Waits-Same w in
      let (x, y, z) = cancel_arm-fields in
      sym (
        ap
          (λ t. record v {
            in_flight = t;
            canceled_job = some (record_of env job);
            draining = s.draining ++ teardown_of env job ∷ [];
          })
          (sym (a ∙ x))
        ∙ ap (λ t. record v { canceled_job = t; draining = s.draining ++ teardown_of env job ∷ [] })
            (sym (b ∙ y))
        ∙ ap (λ t. record v { draining = t }) (sym (c ∙ z)))

  is_canceled :
      (id : Text) (attempt : Option ℕ)
      → id ≡ job.job_id
      → attempt ≡ job.attempt
      → frame_is_for (canceled_pair (some (record_of env job))) id attempt ≡ true
  is_canceled id attempt same_id same_attempt =
      (frame_is_for_iff (some (job.job_id, job.attempt)) id attempt).1
        (rw (same_id, same_attempt) refl)

  teardown-is_torn_down : is_torn_down (record_of env job) (teardown_of env job) ≡ true
  unfolding is_torn_down
  teardown-is_torn_down = rw (text_eq_self job.job_id) (option_eq_self job.attempt)

  -- What the failure of a canceled job does to the session `v` that waits for it: the frame is not sent;
  -- the teardown is joined, and only then the ack is sent, or queued if the socket does not take it;
  -- the drain holds what it held before the cancel.
  abbrev pub IsAcknowledged : Session → Step → Type 0
  IsAcknowledged v (ends reason s2) = ⊥
  IsAcknowledged v (goes_on s2) =
      (s2.trace ≡ (
        if env'.send_ok
        then sent (job_canceled_ack (cancel_ack_for (record_of env job) env'.now))
          ∷ joined job.handle
          ∷ v.trace
        else joined job.handle ∷ v.trace))
      × (s2.pending_cancel_acks ≡ (
          if env'.send_ok
          then v.pending_cancel_acks
          else queue_pending_cancel_ack v.pending_cancel_acks (record_of env job) env'.now))
      × (s2.draining ≡ s.draining)
      × (s2.canceled_job ≡ none)
      × (s2.in_flight ≡ none)

  awaiting-failed :
      (f : JobFailedMessage) (v : Session)
      → f.job_id ≡ job.job_id
      → f.attempt ≡ job.attempt
      → IsNew (record_of env job) s.draining
      → IsAcknowledged v (worker_arm env' (job_failed f) (awaiting v))
  unfolding awaiting counted handed_over acknowledge_if acknowledge discharge send
      cancel_ack_predicate outcome_of terminal
  awaiting-failed f v id attempt new =
      rw
        (
          worker_arm-canceled env' (job_failed f) f.job_id f.attempt (awaiting v) refl refl
              (is_canceled f.job_id f.attempt id attempt),
          take_teardown-last (record_of env job) (teardown_of env job) s.draining new
              teardown-is_torn_down,
        )
        (elim (Bool-cases env'.send_ok) [
          | inl takes ↦ rw takes (refl, refl, refl, refl, refl)
          | inr dead ↦ rw dead (refl, refl, refl, refl, refl)
        ])

  -- A job in flight is canceled, where the drain has room and holds no teardown of that attempt. The
  -- session goes on by any events that neither take a terminal frame nor a frame of dispatch, and then
  -- the job's failure is taken: the frame is not sent; the task is joined, and only then the ack is
  -- sent, or queued if the socket does not take it; the drain holds what it held before the cancel.
  pub cancel-failed :
      (f : JobFailedMessage) (v : Session)
      → f.job_id ≡ job.job_id
      → f.attempt ≡ job.attempt
      → IsNew (record_of env job) s.draining
      → Waits config reg (cancel_arm env m s) v
      → IsAcknowledged v (worker_arm env' (job_failed f) v)
  cancel-failed f v id attempt new w =
      subst (λ t. IsAcknowledged v (worker_arm env' (job_failed f) t)) (sym (Waits-awaiting v w))
        (awaiting-failed f v id attempt new)

  -- What the completion of a canceled job does: no frame is sent and nothing is acknowledged, and the
  -- teardown stays in the drain with no record that would take it out.
  abbrev pub IsLeftDraining : Session → Step → Type 0
  IsLeftDraining v (ends reason s2) = ⊥
  IsLeftDraining v (goes_on s2) =
      (s2.trace ≡ v.trace)
      × (s2.pending_cancel_acks ≡ v.pending_cancel_acks)
      × (s2.draining ≡ s.draining ++ teardown_of env job ∷ [])
      × (s2.canceled_job ≡ none)
      × (s2.in_flight ≡ none)

  awaiting_complete :
      (c : JobCompleteMessage) (v : Session)
      → c.job_id ≡ job.job_id
      → c.attempt ≡ job.attempt
      → IsLeftDraining v (worker_arm env' (job_complete c) (awaiting v))
  unfolding awaiting counted handed_over acknowledge_if cancel_ack_predicate outcome_of terminal
  awaiting_complete c v id attempt =
      rw
        (worker_arm-canceled env' (job_complete c) c.job_id c.attempt (awaiting v) refl refl
          (is_canceled c.job_id c.attempt id attempt))
        (refl, refl, refl, refl, refl)

  -- A job in flight is canceled, where the drain has room. The session goes on by any events that neither
  -- take a terminal frame nor a frame of dispatch, and then the job's completion is taken: no frame is
  -- sent and nothing is acknowledged, and its teardown stays in the drain with no record left.
  pub cancel_complete :
      (c : JobCompleteMessage) (v : Session)
      → c.job_id ≡ job.job_id
      → c.attempt ≡ job.attempt
      → Waits config reg (cancel_arm env m s) v
      → IsLeftDraining v (worker_arm env' (job_complete c) v)
  cancel_complete c v id attempt w =
      subst (λ t. IsLeftDraining v (worker_arm env' (job_complete c) t)) (sym (Waits-awaiting v w))
        (awaiting_complete c v id attempt)
