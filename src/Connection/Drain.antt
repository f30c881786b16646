-- ===== src/Connection/Drain.antt =====
-- What draining does to the jobs that a session holds (crates/supervisor-core/src/connection.rs).
use decent_render.Prelude.{
  ℕ, ◌≤◌, ◌≡◌, refl, ◌∙◌, ap, ◌⊎◌, inl, inr, List, [], ◌∷◌, Option, none, some, length, Bool-cases,
}
use decent_render.Runner.{InFlightJob}
use decent_render.Connection.CancelAck.{max_pending_cancel_acks, length-queue_drained}
use decent_render.Connection.Session.{
  Effect, joined, Env, Session, join_drained, signal_cancel, drained_ack_context, drain_list,
  drain_in_flight, drain_in_flight_jobs,
}

-- An effect is in a trace.
abbrev pub Happened : Effect → List Effect → Type 0
Happened e [] = ⊥
Happened e (x ∷ xs) = (x ≡ e) ⊎ Happened e xs

-- The task's join has returned.
abbrev pub IsJoined : ℕ → List Effect → Type 0
IsJoined h trace = Happened (joined h) trace

abbrev pub IsDraining : ℕ → List InFlightJob → Type 0
IsDraining h [] = ⊥
IsDraining h (j ∷ js) = (j.handle ≡ h) ⊎ IsDraining h js

abbrev pub IsInFlight : ℕ → Option InFlightJob → Type 0
IsInFlight h none = ⊥
IsInFlight h (some j) = j.handle ≡ h

-- The session owns the task: its job is in flight or being torn down.
abbrev pub IsHeld : ℕ → Session → Type 0
IsHeld h s = IsInFlight h s.in_flight ⊎ IsDraining h s.draining

drain_list-IsJoined :
    (env : Env) (h : ℕ) (jobs : List InFlightJob) (s : Session)
    → IsJoined h s.trace ⊎ IsDraining h jobs
    → IsJoined h (drain_list env jobs s).trace
unfolding drain_list join_drained
drain_list-IsJoined env h [] s (inl j) = j
drain_list-IsJoined env h [] s (inr d) = absurd d
drain_list-IsJoined env h (job ∷ jobs) s (inl j) =
    drain_list-IsJoined env h jobs (join_drained env job s) (inl (inr j))
drain_list-IsJoined env h (job ∷ jobs) s (inr (inl e)) =
    drain_list-IsJoined env h jobs (join_drained env job s) (inl (inl (ap joined e)))
drain_list-IsJoined env h (job ∷ jobs) s (inr (inr d)) =
    drain_list-IsJoined env h jobs (join_drained env job s) (inr d)

drain_list-keeps :
    (env : Env) (jobs : List InFlightJob) (s : Session)
    → ((drain_list env jobs s).in_flight ≡ s.in_flight)
      × ((drain_list env jobs s).draining ≡ s.draining)
unfolding drain_list join_drained
drain_list-keeps env [] s = (refl, refl)
drain_list-keeps env (job ∷ jobs) s = drain_list-keeps env jobs (join_drained env job s)

drain_list-pending :
    (env : Env) (jobs : List InFlightJob) (s : Session)
    → length s.pending_cancel_acks ≤ max_pending_cancel_acks
    → length (drain_list env jobs s).pending_cancel_acks ≤ max_pending_cancel_acks
unfolding drain_list join_drained
drain_list-pending env [] s h = h
drain_list-pending env (job ∷ jobs) s h = drain_list-pending env jobs (join_drained env job s) (
    length-queue_drained (drained_ack_context job) (env.outcome job.handle) s.pending_cancel_acks
      (env.joined_at job.handle) h)

pub signal_cancel-IsJoined :
    (h : ℕ) (job : InFlightJob) (trace : List Effect)
    → IsJoined h trace
    → IsJoined h (signal_cancel job trace)
unfolding signal_cancel
signal_cancel-IsJoined h job trace j = elim (Bool-cases job.cancel) [
  | inl held ↦ rw held (inr j)
  | inr gone ↦ rw gone j
]

drain_in_flight-IsJoined :
    (env : Env) (h : ℕ) (flying : Option InFlightJob) (s : Session)
    → IsJoined h s.trace ⊎ IsInFlight h flying
    → IsJoined h (drain_in_flight env flying s).trace
unfolding drain_in_flight join_drained
drain_in_flight-IsJoined env h none s (inl j) = j
drain_in_flight-IsJoined env h none s (inr f) = absurd f
drain_in_flight-IsJoined env h (some job) s (inl j) = inr (signal_cancel-IsJoined h job s.trace j)
drain_in_flight-IsJoined env h (some job) s (inr e) = inl (ap joined e)

drain_in_flight-keeps :
    (env : Env) (flying : Option InFlightJob) (s : Session)
    → s.in_flight ≡ flying
    → ((drain_in_flight env flying s).in_flight ≡ none)
      × ((drain_in_flight env flying s).draining ≡ s.draining)
unfolding drain_in_flight join_drained
drain_in_flight-keeps env none s e = (e, refl)
drain_in_flight-keeps env (some job) s e = (refl, refl)

-- Draining leaves no job behind: none is in flight or torn down, and every task that the session held
-- has been joined.
pub drain_lem :
    (env : Env) (s : Session)
    → let s' = drain_in_flight_jobs env s in
      (s'.in_flight ≡ none)
      × (s'.draining ≡ [])
      × ((h : ℕ) → IsHeld h s ⊎ IsJoined h s.trace → IsJoined h s'.trace)
unfolding drain_in_flight_jobs
drain_lem env s = (cleared, (drain_list-keeps env d.draining rest).1, joins)
  where
    d : Session
    d = drain_in_flight env s.in_flight s

    rest : Session
    rest = record d { draining = [] }

    kept : (d.in_flight ≡ none) × (d.draining ≡ s.draining)
    kept = drain_in_flight-keeps env s.in_flight s refl

    cleared : (drain_in_flight_jobs env s).in_flight ≡ none
    cleared = (drain_list-keeps env d.draining rest).0 ∙ kept.0

    joins :
        (h : ℕ) → IsHeld h s ⊎ IsJoined h s.trace → IsJoined h (drain_in_flight_jobs env s).trace
    joins h (inl (inl f)) =
        drain_list-IsJoined env h d.draining rest
          (inl (drain_in_flight-IsJoined env h s.in_flight s (inr f)))
    joins h (inl (inr t)) = drain_list-IsJoined env h d.draining rest (inr (rw kept.1 t))
    joins h (inr j) =
        drain_list-IsJoined env h d.draining rest
          (inl (drain_in_flight-IsJoined env h s.in_flight s (inl j)))

drain_in_flight-pending :
    (env : Env) (flying : Option InFlightJob) (s : Session)
    → length s.pending_cancel_acks ≤ max_pending_cancel_acks
    → length (drain_in_flight env flying s).pending_cancel_acks ≤ max_pending_cancel_acks
unfolding drain_in_flight join_drained
drain_in_flight-pending env none s h = h
drain_in_flight-pending env (some job) s h =
    length-queue_drained (drained_ack_context job) (env.outcome job.handle) s.pending_cancel_acks
      (env.joined_at job.handle) h

pub drain-pending :
    (env : Env) (s : Session)
    → length s.pending_cancel_acks ≤ max_pending_cancel_acks
    → length (drain_in_flight_jobs env s).pending_cancel_acks ≤ max_pending_cancel_acks
unfolding drain_in_flight_jobs
drain-pending env s h =
    let d = drain_in_flight env s.in_flight s in
    drain_list-pending env d.draining (record d { draining = [] })
      (drain_in_flight-pending env s.in_flight s h)
