-- ===== src/Connection/Run/Jobs.antt =====
-- What becomes of every task that a session of crates/supervisor-core/src/connection.rs starts.
use decent_render.Prelude.{ℕ, ◌⊎◌, inl, inr, Bool, List, [], ◌∷◌, Text}
use decent_render.Protocol.{job_canceled_ack, RegisterMessage}
use decent_render.Connection.Session.{
  ConnectionConfig, sent, Env, Session, Step, goes_on, ends, set_connection,
}
use decent_render.Connection.Server.{Event, step}
use decent_render.Connection.Session.{Effect}
use decent_render.Connection.Connect.{begin, flush_acks, ack_trace}
use decent_render.Connection.Ownership.{IsOwned, Keeps, if-both}
use decent_render.Connection.Ownership.Server.{Reports, step_lem}
use decent_render.Connection.Run.{run_loop, run_connected}
use decent_render.Connection.Run.Started.{IsSpawned}
use decent_render.Connection.Run.Spawns.{StartsInto, step-StartsInto}
use decent_render.Protocol.{JobCanceledAckMessage}
use decent_render.Status.{Observability}

-- The trace behind a step.
abbrev pub trace_of : Step → List Effect
trace_of (goes_on s) = s.trace
trace_of (ends reason s) = s.trace

module _ (config : ConnectionConfig) (reg : RegisterMessage) (h : ℕ) where
  -- Some event of the series takes the terminal frame of the task's job, in flight, off the queue.
  abbrev pub IsReportedIn : List (Env × Event) → Session → Type 0
  IsReportedIn [] s = ⊥
  IsReportedIn ((env, event) ∷ rest) s = Reports h event s ⊎ (elim (step config reg env event s) [
    | goes_on s' ↦ IsReportedIn rest s'
    | ends reason s' ↦ ⊥
  ])

  Keeps-map : (R R' : Type 0) (r : Step) → (R → R') → Keeps h R r → Keeps h R' r
  Keeps-map R R' (goes_on s) f (inl own) = inl own
  Keeps-map R R' (goes_on s) f (inr r) = inr (f r)
  Keeps-map R R' (ends reason s) f (inl own) = inl own
  Keeps-map R R' (ends reason s) f (inr r) = inr (f r)

  reported-Keeps : (R : Type 0) (r : Step) → R → Keeps h R r
  reported-Keeps R (goes_on s) x = inr x
  reported-Keeps R (ends reason s) x = inr x

  -- Where every task started is owned or accounted for by `Q`, it is so at the end of the series, or its
  -- job has reported.
  run_loop-Keeps :
      (Q : Type 0) (events : List (Env × Event)) (s : Session)
      → (IsSpawned h s.trace → IsOwned h s ⊎ Q)
      → IsSpawned h (trace_of (run_loop config reg events s))
      → Keeps h (Q ⊎ IsReportedIn events s) (run_loop config reg events s)
  unfolding run_loop
  run_loop-Keeps Q [] s known started = elim (known started) [
    | inl own ↦ inl own
    | inr q ↦ inr (inl q)
  ]
  run_loop-Keeps Q ((env, event) ∷ rest) s known started =
      advance (step config reg env event s) (step-StartsInto h config reg env event s)
        (step_lem config reg env event s h)
        (λ s' known' new. run_loop-Keeps (Q ⊎ Reports h event s) rest s' known' new) started
    where
      later : Step → Step
      later r = elim r [
        | goes_on s' ↦ run_loop config reg rest s'
        | ends reason s' ↦ ends reason s'
      ]

      reported : Step → Type 0
      reported r = elim r [ goes_on s' ↦ IsReportedIn rest s' | ends reason s' ↦ ⊥ ]

      regroup :
          (r : Step) → (Q ⊎ Reports h event s) ⊎ reported r → Q ⊎ (Reports h event s ⊎ reported r)
      regroup r (inl (inl q)) = inl q
      regroup r (inl (inr now)) = inr (inl now)
      regroup r (inr after) = inr (inr after)

      advance :
          (r : Step)
          → StartsInto h s.trace r
          → (IsOwned h s → Keeps h (Reports h event s) r)
          → ((s' : Session)
              → (IsSpawned h s'.trace → IsOwned h s' ⊎ (Q ⊎ Reports h event s))
              → IsSpawned h (trace_of (run_loop config reg rest s'))
              → Keeps h
                  ((Q ⊎ Reports h event s) ⊎ IsReportedIn rest s')
                  (run_loop config reg rest s'))
          → IsSpawned h (trace_of (later r))
          → Keeps h (Q ⊎ (Reports h event s ⊎ reported r)) (later r)
      advance (goes_on s') into keeps again new =
          Keeps-map _ _ (run_loop config reg rest s') (regroup (goes_on s')) (again s' known' new)
        where
          known' : IsSpawned h s'.trace → IsOwned h s' ⊎ (Q ⊎ Reports h event s)
          known' spawned = elim (into spawned) [
            | inr flying ↦ inl (inl (inl flying))
            | inl older ↦ elim (known older) [
              | inr q ↦ inr (inl q)
              | inl own ↦ elim (keeps own) [ inl own' ↦ inl own' | inr now ↦ inr (inr now) ]
            ]
          ]
      advance (ends reason s') into keeps again new = elim (known (into new)) [
        | inr q ↦ inr (inl q)
        | inl own ↦ elim (keeps own) [ inl done ↦ inl done | inr now ↦ inr (inr (inl now)) ]
      ]

  -- No task is started before the loop.
  begin-IsSpawned :
      (now : ℕ) (register_ok : Bool) (takes : ℕ → Bool) (obs : Observability)
      (protected : List Text) (pending : List JobCanceledAckMessage)
      → IsSpawned h (trace_of (begin config reg now register_ok takes obs protected pending))
      → ⊥
  unfolding begin set_connection ack_trace
  begin-IsSpawned now register_ok takes obs protected pending =
      if-both (λ r. IsSpawned h (trace_of r) → ⊥) register_ok
        (acks-IsSpawned (flush_acks takes 0 pending).0 _ (λ x. x)) (λ x. x)
    where
      acks-IsSpawned :
          (acks : List JobCanceledAckMessage) (t : List Effect)
          → (IsSpawned h t → ⊥)
          → IsSpawned h (ack_trace acks t)
          → ⊥
      acks-IsSpawned [] t fresh = fresh
      acks-IsSpawned (ack ∷ acks) t fresh =
          acks-IsSpawned acks (sent (job_canceled_ack ack) ∷ t) fresh

  -- Whether the terminal frame of the task's job, in flight, is taken off the queue in the session.
  abbrev pub IsReportedFrom : List (Env × Event) → Step → Type 0
  IsReportedFrom events (goes_on s) = IsReportedIn events s
  IsReportedFrom events (ends reason s) = ⊥

  -- No job is stranded by a session: from its start, over any series of events, every task that it
  -- starts is held or joined when the series is over, and joined when the session has ended, unless
  -- the terminal frame of the task's job was taken off the queue while the job was in flight.
  pub run_connected_lem :
      (events : List (Env × Event)) (now : ℕ) (register_ok : Bool) (takes : ℕ → Bool)
      (obs : Observability) (protected : List Text) (pending : List JobCanceledAckMessage)
      → let start = begin config reg now register_ok takes obs protected pending in
        IsSpawned h (trace_of (run_connected config reg events start))
        → Keeps h (IsReportedFrom events start) (run_connected config reg events start)
  unfolding run_connected
  run_connected_lem events now register_ok takes obs protected pending =
      from (begin config reg now register_ok takes obs protected pending)
        (begin-IsSpawned now register_ok takes obs protected pending)
    where
      from :
          (start : Step)
          → (IsSpawned h (trace_of start) → ⊥)
          → IsSpawned h (trace_of (run_connected config reg events start))
          → Keeps h (IsReportedFrom events start) (run_connected config reg events start)
      from (ends reason s) fresh started = absurd (fresh started)
      from (goes_on s) fresh started =
          Keeps-map _ _ (run_loop config reg events s) drop
            (run_loop-Keeps ⊥ events s (λ spawned. absurd (fresh spawned)) started)
        where
          drop : ⊥ ⊎ IsReportedIn events s → IsReportedIn events s
          drop (inl never) = absurd never
          drop (inr r) = r
