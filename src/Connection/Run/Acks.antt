-- ===== src/Connection/Run/Acks.antt =====
-- The acks that wait for a socket, over the sessions of crates/supervisor-core/src/connection.rs.
use decent_render.Prelude.{
  ℕ, ◌+◌, ◌≤◌, ◌≡◌, sym, ◌∙◌, ap, Bool, List, [], ◌∷◌, Option, none, some, Text, arith, length,
  length-append,
}
use decent_render.Protocol.{RegisterMessage}
use decent_render.Connection.CancelAck.{max_pending_cancel_acks}
use decent_render.Connection.Session.{
  ConnectionConfig, shutdown, Env, Session, Step, goes_on, ends, set_connection,
}
use decent_render.Connection.Server.{Event, step}
use decent_render.Connection.Connect.{
  begin, flush_acks, flush_acks_lem, connect, connecting_status, Connecting, up, stopped,
  credentials_rejected, gave_up,
}
use decent_render.Connection.Ownership.{if-both}
use decent_render.Connection.Bounds.{IsBounded, StaysBounded, step-StaysBounded}
use decent_render.Connection.Run.{
  run_loop, run_connected, Carried, Script, SessionResult, ended, connect_failed, open_still, carry,
  result, offline, run_session,
}
use decent_render.Protocol.{JobCanceledAckMessage}
use decent_render.Status.{Observability}

length-flush_acks :
    (takes : ℕ → Bool) (acks : List JobCanceledAckMessage)
    → length (flush_acks takes 0 acks).1 ≤ length acks
length-flush_acks takes acks =
    let (whole, _) = flush_acks_lem takes 0 acks in
    let sum : length (flush_acks takes 0 acks).0 + length (flush_acks takes 0 acks).1
        ≡ length acks =
      sym (length-append (flush_acks takes 0 acks).0 (flush_acks takes 0 acks).1)
      ∙ ap length whole in
    omega (arith, sum)

begin-StaysBounded :
    (config : ConnectionConfig) (reg : RegisterMessage) (now : ℕ) (register_ok : Bool)
    (takes : ℕ → Bool) (obs : Observability) (protected : List Text)
    (pending : List JobCanceledAckMessage)
    → length pending ≤ max_pending_cancel_acks
    → StaysBounded (begin config reg now register_ok takes obs protected pending)
unfolding begin set_connection
begin-StaysBounded config reg now register_ok takes obs protected pending few =
    if-both StaysBounded register_ok (omega arith, omega (arith, length-flush_acks takes pending))
      (omega arith, few)

run_loop-StaysBounded :
    (config : ConnectionConfig) (reg : RegisterMessage) (events : List (Env × Event)) (s : Session)
    → IsBounded s
    → StaysBounded (run_loop config reg events s)
unfolding run_loop
run_loop-StaysBounded config reg [] s b = b
run_loop-StaysBounded config reg ((env, event) ∷ rest) s b =
    advance (step config reg env event s) (step-StaysBounded config reg env event s b)
      (λ s' b'. run_loop-StaysBounded config reg rest s' b')
  where
    advance :
        (r : Step)
        → StaysBounded r
        → ((s' : Session) → IsBounded s' → StaysBounded (run_loop config reg rest s'))
        → StaysBounded
            (elim r [ goes_on s' ↦ run_loop config reg rest s' | ends reason s' ↦ ends reason s' ])
    advance (goes_on s') b' again = again s' b'
    advance (ends reason s') b' again = b'

-- The acks that are carried to the next session are within the limit.
abbrev pub CarriesFew : SessionResult → Type 0
CarriesFew (ended reason c) = length c.pending_cancel_acks ≤ max_pending_cancel_acks
CarriesFew (connect_failed c) = length c.pending_cancel_acks ≤ max_pending_cancel_acks
CarriesFew (open_still c) = length c.pending_cancel_acks ≤ max_pending_cancel_acks

-- A session that is handed at most 32 waiting acks leaves at most 32 to the next, however it goes.
pub run_session-CarriesFew :
    {Draw : Type 0} (config : ConnectionConfig) (reg : RegisterMessage) (cause : Text)
    (script : Script Draw) (c : Carried)
    → length c.pending_cancel_acks ≤ max_pending_cancel_acks
    → CarriesFew (run_session config reg cause script c)
unfolding run_session result carry offline run_connected
run_session-CarriesFew config reg cause script c few = outcome (connect config script.attempts)
  where
    c' : Carried
    c' = record c { obs = connecting_status config reg c.obs }

    close : (r : Step) → StaysBounded r → CarriesFew (result r)
    close (goes_on s) (_, acks) = acks
    close (ends reason s) (_, acks) = acks

    from :
        (start : Step)
        → StaysBounded start
        → CarriesFew (result (run_connected config reg script.events start))
    from (goes_on s) b = close _ (run_loop-StaysBounded config reg script.events s b)
    from (ends reason s) (_, acks) = acks

    outcome :
        (met : Option Connecting)
        → CarriesFew (elim met [
          | none ↦ open_still c'
          | some outcome ↦ elim outcome [
            | up n ↦ result (
                run_connected config reg script.events (
                  begin config reg script.connected_at script.register_ok script.takes c'.obs
                    c'.protected_keys c'.pending_cancel_acks))
            | stopped ↦ ended shutdown (offline none c')
            | credentials_rejected n ↦ connect_failed (offline (some cause) c')
            | gave_up n ↦ connect_failed (offline (some cause) c')
          ]
        ])
    outcome none = few
    outcome (some (up n)) = from _ (
        begin-StaysBounded config reg script.connected_at script.register_ok script.takes c'.obs
          c'.protected_keys c'.pending_cancel_acks few)
    outcome (some stopped) = few
    outcome (some (credentials_rejected n)) = few
    outcome (some (gave_up n)) = few
