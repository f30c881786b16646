-- ===== src/Connection/Connect.antt =====
-- The beginning of a session in crates/supervisor-core/src/connection.rs: the retries of the first
-- connect, the register frame, and the cancel acks queued by earlier sessions.
use Prim.Native.Nat.{max}
use native.Mathlib.Nat.{add-zero}
use decent_render.Prelude.{
  true, ℕ, zero, suc, ◌+◌, ◌≤◌, ◌<◌, ◌≡◌, ◌⊎◌, inl, inr, refl, ap, Bool, false, List, [], ◌∷◌, ◌++◌,
  Option, none, some, Text, codes, ltb, length, if◌then◌else◌, arith, Bool-cases,
}
use decent_render.Protocol.{
  JobCanceledAckMessage, register, job_canceled_ack, RegisterMessage, Platform, company, community,
}
use decent_render.Status.{
  Observability, update_status, connecting, connected, registered, disconnected,
  from_register_fields,
}
use decent_render.Connection.Gate.{new_at}
use decent_render.Connection.Session.{
  ConnectionConfig, abnormal, Effect, sent, workdirs_swept, cache_swept, Session, Step, goes_on,
  ends, set_connection,
}

-- What one attempt to connect meets: a connection, a refusal of the token, no answer, or the shutdown
-- signal; and whether that signal comes during the pause behind it.
pub data Answer : Type 0 where
  connects auth_rejected unreachable interrupted : Answer

pub record Attempt : Type 0 where
  pub answer : Answer
  pub stopped_in_pause : Bool

-- How the retry loop ends, with the number of attempts.
pub data Connecting : Type 0 where
  up : ℕ → Connecting
  stopped : Connecting
  credentials_rejected gave_up : ℕ → Connecting

-- The retry loop behind `made` attempts, on fuel; `none` means that the fuel ran out.
pub connect_from : ℕ → (ℕ → Attempt) → ℕ → ℕ → Option Connecting
connect_from limit attempts zero made = none
connect_from limit attempts (suc fuel) made =
    let n = suc made in
    let again = connect_from limit attempts fuel n in
    elim (attempts n).answer [
      | connects ↦ some (up n)
      | auth_rejected ↦ some (credentials_rejected n)
      | interrupted ↦ some stopped
      | unreachable ↦
          if ltb n limit
          then (if (attempts n).stopped_in_pause then some stopped else again)
          else some (gave_up n)
    ]

pub connect : ConnectionConfig → (ℕ → Attempt) → Option Connecting
unfolding connect_from
connect config attempts =
    connect_from config.max_connect_attempts attempts (suc config.max_connect_attempts) 0

-- The flush of the queued acks: those that the socket takes, and those that stay queued. `takes` says
-- whether the socket takes the n-th frame.
unfoldable pub flush_acks :
    (ℕ → Bool)
    → ℕ
    → List JobCanceledAckMessage
    → List JobCanceledAckMessage × List JobCanceledAckMessage
flush_acks takes n [] = ([], [])
flush_acks takes n (ack ∷ acks) =
    let (out, left) = flush_acks takes (suc n) acks in
    if takes n then (ack ∷ out, left) else ([], ack ∷ acks)

platform_name : Platform → Text
platform_name company = codes "company"
platform_name community = codes "community"

-- The status of a session that begins to connect.
pub connecting_status : ConnectionConfig → RegisterMessage → Observability → Observability
unfolding platform_name
connecting_status config reg obs =
    update_status
      (λ t. record t {
        connection = connecting;
        dispatch_url = some config.dispatch_url;
        node_identity =
            some
              (from_register_fields reg.chip (platform_name reg.platform) reg.supervisor_version);
        allow_real_jobs = obs.allow_flag;
        auto_upgrade_enabled = obs.auto_upgrade_flag;
        last_error = none;
        update_available = none;
      })
      obs

unfoldable pub ack_trace : List JobCanceledAckMessage → List Effect → List Effect
ack_trace [] trace = trace
ack_trace (ack ∷ acks) trace = ack_trace acks (sent (job_canceled_ack ack) ∷ trace)

-- A connected session up to its loop: the startup sweeps, the register frame, which the socket takes
-- or not, and the queued acks.
unfoldable pub begin :
    ConnectionConfig
    → RegisterMessage
    → ℕ
    → Bool
    → (ℕ → Bool)
    → Observability
    → List Text
    → List JobCanceledAckMessage
    → Step
unfolding flush_acks ack_trace
begin config reg now register_ok takes obs protected pending =
    let (out, left) = flush_acks takes 0 pending in
    let fresh : Session = record {
      obs = update_status (λ t. record t { connection = connected }) obs;
      gate = new_at config.auto_upgrade now;
      heartbeats_sent = 0;
      worker_queue = [];
      in_flight = none;
      canceled_job = none;
      just_canceled = none;
      draining = [];
      announced_purge_failures = [];
      protected_keys = protected;
      pending_cancel_acks = pending;
      trace = cache_swept protected ∷ workdirs_swept ∷ [];
    } in
    if register_ok
    then goes_on (record (set_connection registered fresh) {
      pending_cancel_acks = left;
      trace = ack_trace out (sent (register reg) ∷ fresh.trace);
    })
    else ends abnormal (set_connection disconnected fresh)

-- No queued ack is lost or reordered by a flush: those sent, then those still queued, are those that
-- were queued; and one stays only if the socket refused the first that stayed.
pub flush_acks_lem :
    (takes : ℕ → Bool) (n : ℕ) (acks : List JobCanceledAckMessage)
    → let (out, left) = flush_acks takes n acks in
      (out ++ left ≡ acks) × ((left ≡ []) ⊎ (takes (n + length out) ≡ false))
unfolding flush_acks
flush_acks_lem takes n [] = (refl, inl refl)
flush_acks_lem takes n (ack ∷ acks) =
    let (kept, why) = flush_acks_lem takes (suc n) acks in
    elim (Bool-cases (takes n)) [
      | inl goes ↦ rw goes (ap (◌∷◌ ack) kept, elim why [ inl e ↦ inl e | inr e ↦ inr (shift _ e) ])
      | inr refused ↦ rw refused (refl, inr (rw add-zero refused))
    ]
  where
    shift : (k : ℕ) → takes (suc n + k) ≡ false → takes (n + suc k) ≡ false
    shift k e = let moved : suc n + k ≡ n + suc k = omega arith in rw moved at e

-- Every attempt up to `n` found dispatch unreachable.
abbrev pub AllUnreachable : (ℕ → Attempt) → ℕ → Type 0
AllUnreachable attempts zero = Unit
AllUnreachable attempts (suc n) =
    ((attempts (suc n)).answer ≡ unreachable) × AllUnreachable attempts n

-- The shutdown came during this attempt, or in the pause between it and another.
abbrev pub IsStopped : (ℕ → Attempt) → ℕ → ℕ → Type 0
IsStopped attempts limit n =
    ((attempts n).answer ≡ interrupted)
    ⊎ (((attempts n).answer ≡ unreachable) × (n < limit) × ((attempts n).stopped_in_pause ≡ true))

-- What the end of the loop says about the attempts, of which at most `limit` are made.
pub data Explains (attempts : ℕ → Attempt) (limit : ℕ) : Connecting → Type 0 where
  explains_up :
      (n : ℕ)
      → suc n ≤ limit
      → (attempts (suc n)).answer ≡ connects
      → AllUnreachable attempts n
      → Explains attempts limit (up (suc n))
  explains_stopped :
      (n : ℕ)
      → suc n ≤ limit
      → AllUnreachable attempts n
      → IsStopped attempts limit (suc n)
      → Explains attempts limit stopped
  explains_rejected :
      (n : ℕ)
      → suc n ≤ limit
      → (attempts (suc n)).answer ≡ auth_rejected
      → AllUnreachable attempts n
      → Explains attempts limit (credentials_rejected (suc n))
  explains_gave_up :
      (n : ℕ) → n ≡ limit → AllUnreachable attempts n → Explains attempts limit (gave_up n)

Answer-cases :
    (a : Answer) → (a ≡ connects) ⊎ ((a ≡ auth_rejected) ⊎ ((a ≡ interrupted) ⊎ (a ≡ unreachable)))
Answer-cases connects = inl refl
Answer-cases auth_rejected = inr (inl refl)
Answer-cases interrupted = inr (inr (inl refl))
Answer-cases unreachable = inr (inr (inr refl))

connect_from_lem :
    (m : ℕ) (attempts : ℕ → Attempt) (fuel made : ℕ)
    → made < max 1 m
    → m < made + fuel
    → AllUnreachable attempts made
    → (r : Connecting) × (connect_from m attempts fuel made ≡ some r)
      × Explains attempts (max 1 m) r
unfolding connect_from
connect_from_lem m attempts zero made below enough so_far = absurd (omega arith)
connect_from_lem m attempts (suc fuel) made below enough so_far =
    elim (Answer-cases (attempts (suc made)).answer) [
      | inl e ↦ (up (suc made), ground (arith, e), explains_up made (omega arith) e so_far)
      | inr (inl e) ↦ (
        credentials_rejected (suc made),
        ground (arith, e),
        explains_rejected made (omega arith) e so_far,
      )
      | inr (inr (inl e)) ↦
          (stopped, ground (arith, e), explains_stopped made (omega arith) so_far (inl e))
      | inr (inr (inr e)) ↦ elim (Bool-cases (ltb (suc made) m)) [
        | inr last ↦ (
          gave_up (suc made),
          ground (arith, e, last),
          explains_gave_up (suc made) (ground (arith, last)) (e, so_far),
        )
        | inl more ↦ elim (Bool-cases (attempts (suc made)).stopped_in_pause) [
          | inl stop ↦ (
            stopped,
            ground (arith, e, more, stop),
            explains_stopped made (omega arith) so_far (inr (e, ground (arith, more), stop)),
          )
          | inr go ↦
              let (r, found, why) =
                connect_from_lem m attempts fuel (suc made) (ground (arith, more)) (omega arith)
                  (e, so_far) in
              (r, ground (arith, e, more, go, found), why)
        ]
      ]
    ]

-- The retry loop always ends, after at most the configured number of attempts and at least one. It
-- gives up only when every attempt up to that number found dispatch unreachable, and a refusal of the
-- token or a connection ends it at the first attempt that is not unreachable; and it stops only where
-- the shutdown came during an attempt or in the pause between two, all attempts before being
-- unreachable.
pub connect_lem :
    (config : ConnectionConfig) (attempts : ℕ → Attempt)
    → (r : Connecting) × (connect config attempts ≡ some r)
      × Explains attempts (max 1 config.max_connect_attempts) r
unfolding connect
connect_lem config attempts =
    connect_from_lem config.max_connect_attempts attempts (suc config.max_connect_attempts) 0
      (omega arith) (omega arith) tt
