-- ===== src/Connection/Ownership/Worker.antt =====
-- What a frame from a job's task makes of the tasks that the session of
-- crates/supervisor-core/src/connection.rs owns.
use decent_render.Prelude.{
  ℕ, ◌≡◌, refl, sym, ◌∙◌, ap, ◌⊎◌, inl, inr, Bool, true, false, List, [], ◌∷◌, Option, none, some,
  Text, Bool-cases,
}
use decent_render.Protocol.{WorkerMessage, job_canceled_ack}
use decent_render.Runner.{InFlightJob}
use decent_render.Connection.CancelAck.{CanceledJob, cancel_ack_for, frame_is_for, frame_is_for_iff}
use decent_render.Connection.Session.{abnormal, Effect, joined, Env, Session, leave}
use decent_render.Connection.Worker.{
  terminal, settle_in_flight, settle_canceled, settle_terminal, settle, take_teardown, acknowledge,
  discharge, join_teardown, is_torn_down, canceled_pair, acknowledge_if, suppress_after_cancel,
  suppressed, worker_arm,
}
use decent_render.Connection.Drain.{IsJoined, IsDraining, IsInFlight}
use decent_render.Connection.Ownership.{
  IsOwned, IsReported, Keeps, if-both, leave-Keeps, send-IsOwned,
}

take_teardown-found :
    (h : ℕ) (c : CanceledJob) (js : List InFlightJob)
    → IsDraining h js
    → IsInFlight h (take_teardown c js).0 ⊎ IsDraining h (take_teardown c js).1
unfolding take_teardown
take_teardown-found h c [] d = absurd d
take_teardown-found h c (j ∷ js) (inl e) = elim (Bool-cases (is_torn_down c j)) [
  | inl this ↦ rw this (inl e)
  | inr other ↦ rw other (inr (inl e))
]
take_teardown-found h c (j ∷ js) (inr d) = elim (Bool-cases (is_torn_down c j)) [
  | inl this ↦ rw this (inr d)
  | inr other ↦
      rw other (elim (take_teardown-found h c js d) [ inl f ↦ inl f | inr r ↦ inr (inr r) ])
]

join_teardown-IsJoined :
    (h : ℕ) (entry : Option InFlightJob) (trace : List Effect)
    → IsInFlight h entry ⊎ IsJoined h trace
    → IsJoined h (join_teardown entry trace)
unfolding join_teardown
join_teardown-IsJoined h none trace (inl f) = absurd f
join_teardown-IsJoined h none trace (inr j) = j
join_teardown-IsJoined h (some job) trace (inl e) = inl (ap joined e)
join_teardown-IsJoined h (some job) trace (inr j) = inr j

discharge-IsOwned :
    (h : ℕ) (c : CanceledJob) (s : Session) → IsOwned h s → IsOwned h (discharge c s)
unfolding discharge
discharge-IsOwned h c s (inl (inl f)) = inl (inl f)
discharge-IsOwned h c s (inl (inr d)) = elim (take_teardown-found h c s.draining d) [
  | inl found ↦ inr (join_teardown-IsJoined h (take_teardown c s.draining).0 s.trace (inl found))
  | inr rest ↦ inl (inr rest)
]
discharge-IsOwned h c s (inr j) =
    inr (join_teardown-IsJoined h (take_teardown c s.draining).0 s.trace (inr j))

acknowledge-IsOwned :
    (h : ℕ) (env : Env) (c : CanceledJob) (s : Session)
    → IsOwned h s
    → IsOwned h (acknowledge env c s)
unfolding acknowledge
acknowledge-IsOwned h env c s own =
    let kept = discharge-IsOwned h c s own in
    if-both (IsOwned h) env.send_ok
      (send-IsOwned h (job_canceled_ack (cancel_ack_for c env.now)) (discharge c s) kept) kept

acknowledge_if-IsOwned :
    (h : ℕ) (env : Env) (b : Bool) (c : Option CanceledJob) (s : Session)
    → IsOwned h s
    → IsOwned h (acknowledge_if env b c s)
unfolding acknowledge_if
acknowledge_if-IsOwned h env false c s own = own
acknowledge_if-IsOwned h env true none s own = own
acknowledge_if-IsOwned h env true (some c) s own = acknowledge-IsOwned h env c s own

-- Settling a terminal frame keeps a task, unless the frame is that of its job, in flight.
settle_in_flight-IsOwned :
    (h : ℕ) (flying : Option InFlightJob) (id : Text) (attempt : Option ℕ) (s : Session)
    → s.in_flight ≡ flying
    → IsOwned h s
    → IsOwned h (settle_in_flight flying id attempt s)
      ⊎ ((job : InFlightJob) × (flying ≡ some job)
          × (job.handle ≡ h)
          × (frame_is_for (some (job.job_id, job.attempt)) id attempt ≡ true))
unfolding settle_in_flight
settle_in_flight-IsOwned h none id attempt s e own = inl own
settle_in_flight-IsOwned h (some job) id attempt s e own =
    elim (Bool-cases (frame_is_for (some (job.job_id, job.attempt)) id attempt)) [
      | inr other ↦ inl (rw other own)
      | inl this ↦ elim own [
        | inl held ↦ elim held [
          | inl f ↦ inr (job, refl, rw e at f, this)
          | inr d ↦ inl (rw this (inl (inr d)))
        ]
        | inr j ↦ inl (rw this (inr (inr j)))
      ]
    ]

settle_canceled-IsOwned :
    (h : ℕ) (id : Text) (attempt : Option ℕ) (s : Session)
    → IsOwned h s
    → IsOwned h (settle_canceled id attempt s)
unfolding settle_canceled
settle_canceled-IsOwned h id attempt s own =
    if-both (IsOwned h) (frame_is_for (canceled_pair s.canceled_job) id attempt) own own

settle_terminal-IsOwned :
    (h : ℕ) (msg : WorkerMessage) (rest : List WorkerMessage) (t : Option (Text × Option ℕ))
    (s : Session)
    → terminal msg ≡ t
    → IsOwned h s
    → IsOwned h (settle_terminal t s) ⊎ IsReported h s.in_flight (msg ∷ rest)
unfolding settle_terminal
settle_terminal-IsOwned h msg rest none s e own = inl own
settle_terminal-IsOwned h msg rest (some (id, attempt)) s e own =
    elim (settle_in_flight-IsOwned h s.in_flight id attempt s refl own) [
      | inl kept ↦ inl (settle_canceled-IsOwned h id attempt _ kept)
      | inr (job, flying, handle, same) ↦ inr (
          rw flying (
            (
              handle,
              e ∙ sym ((frame_is_for_iff (some (job.job_id, job.attempt)) id attempt).0 same),
            )))
    ]

pub worker-Keeps :
    (h : ℕ) (env : Env) (msg : WorkerMessage) (rest : List WorkerMessage) (s : Session)
    → IsOwned h s
    → Keeps h (IsReported h s.in_flight (msg ∷ rest)) (worker_arm env msg s)
unfolding worker_arm settle suppressed leave
worker-Keeps h env msg rest s own =
    elim (settle_terminal-IsOwned h msg rest (terminal msg) s refl own) [
      | inl kept ↦
          if-both (Keeps h (IsReported h s.in_flight (msg ∷ rest))) (suppress_after_cancel msg s)
            (inl (acknowledge_if-IsOwned h env _ _ _ kept))
            (if-both (Keeps h (IsReported h s.in_flight (msg ∷ rest))) env.send_ok
              (inl (send-IsOwned h msg _ kept)) (leave-Keeps h _ env abnormal _ kept))
      | inr reported ↦
          if-both (Keeps h (IsReported h s.in_flight (msg ∷ rest))) (suppress_after_cancel msg s)
            (inr reported)
            (if-both (Keeps h (IsReported h s.in_flight (msg ∷ rest))) env.send_ok (inr reported)
              (inr reported))
    ]
