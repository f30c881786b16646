-- ===== src/Connection/Run.antt =====
-- Whole sessions and the reconnect loop of crates/supervisor-core/src/connection.rs: `run_session` from
-- the connect loop to its end, and `run_until_exit`, over a script of what the outside does. The
-- request for the handshake is left out.
pub mod Started
pub mod Spawns
pub mod Jobs
pub mod Acks
pub mod Loop
pub mod Exits
use decent_render.Prelude.{
  ℕ, Bool, true, false, not, List, [], ◌∷◌, Option, none, some, Text, codes, ◌++◌, if◌then◌else◌,
}
use decent_render.Prelude.Decimal.{print}
use decent_render.Protocol.{JobCanceledAckMessage, RegisterMessage}
use decent_render.Status.{Observability, ConnectionState, disconnected, reconnecting, update_status}
use decent_render.Connection.Backoff.{ReconnectBackoff, new, session_lasted, next_delay}
use decent_render.Connection.Session.{
  ConnectionConfig, Disconnect, shutdown, heartbeat_limit_reached, upgrade_required, auto_upgrade,
  abnormal, clean, Env, Session, Step, goes_on, ends,
}
use decent_render.Connection.Server.{Event, step}
use decent_render.Connection.Connect.{
  Attempt, Connecting, up, stopped, credentials_rejected, gave_up, connect, connecting_status,
  begin,
}

-- The select loop over a series of events, up to the one that ends the session.
unfoldable pub run_loop : ConnectionConfig → RegisterMessage → List (Env × Event) → Session → Step
run_loop config reg [] s = goes_on s
run_loop config reg ((env, event) ∷ rest) s = elim (step config reg env event s) [
  | goes_on s' ↦ run_loop config reg rest s'
  | ends reason s' ↦ ends reason s'
]

-- What a session leaves to the next.
pub record Carried : Type 0 where
  pub obs : Observability
  pub protected_keys : List Text
  pub pending_cancel_acks : List JobCanceledAckMessage

-- What the outside does in one session and in the backoff behind it.
pub record Script (Draw : Type 0) : Type 0 where
  pub attempts : ℕ → Attempt
  pub connected_at : ℕ
  pub register_ok : Bool
  pub takes : ℕ → Bool
  pub events : List (Env × Event)
  pub elapsed : ℕ
  pub draw : Draw
  pub stopped_in_backoff : Bool

-- A session ends, its connect fails for good, or the script is over with the session open.
pub data SessionResult : Type 0 where
  ended : Disconnect → Carried → SessionResult
  connect_failed open_still : Carried → SessionResult

unfoldable pub carry : Session → Carried
carry s = record {
  obs = s.obs;
  protected_keys = s.protected_keys;
  pending_cancel_acks = s.pending_cancel_acks;
}

unfoldable pub result : Step → SessionResult
unfolding carry
result (goes_on s) = open_still (carry s)
result (ends reason s) = ended reason (carry s)

-- A connected session: its start, and the loop where the start goes through.
unfoldable pub run_connected : ConnectionConfig → RegisterMessage → List (Env × Event) → Step → Step
unfolding run_loop
run_connected config reg events (goes_on s) = run_loop config reg events s
run_connected config reg events (ends reason s) = ends reason s

-- The status behind a connect that ends without a connection.
unfoldable pub offline : Option Text → Carried → Carried
offline none c = record c {
  obs = update_status (λ t. record t { connection = disconnected }) c.obs;
}
offline (some message) c = record c {
  obs =
      update_status (λ t. record t { connection = disconnected; last_error = some message }) c.obs;
}

-- `run_session`. `cause` is the message that the source formats from the error of the connect.
unfoldable pub run_session :
    {Draw : Type 0}
    → ConnectionConfig
    → RegisterMessage
    → Text
    → Script Draw
    → Carried
    → SessionResult
unfolding result run_connected offline
run_session config reg cause script c =
    let c' = record c { obs = connecting_status config reg c.obs } in
    elim (connect config script.attempts) [
      | none ↦ open_still c'
      | some outcome ↦ elim outcome [
        | up n ↦ result (
            run_connected config reg script.events (
              begin config reg script.connected_at script.register_ok script.takes c'.obs
                c'.protected_keys c'.pending_cancel_acks))
        | stopped ↦ ended shutdown (offline none c')
        | credentials_rejected n ↦ connect_failed (offline (some cause) c')
        | gave_up n ↦ connect_failed (offline (some cause) c')
      ]
    ]

pub data ConnectionExit : Type 0 where
  exit_shutdown exit_heartbeat_limit exit_upgrade_required exit_disconnected : ConnectionExit
  exit_auto_upgrade : Text → ConnectionExit

-- How `run_until_exit` returns: with an exit, or with the error of a connect.
pub data RunResult : Type 0 where
  exited : ConnectionExit → RunResult
  failed_to_connect : RunResult

-- Whether the end of a session ends the run.
unfoldable pub exit_of : Bool → Disconnect → Option ConnectionExit
exit_of reconnect shutdown = some exit_shutdown
exit_of reconnect heartbeat_limit_reached = some exit_heartbeat_limit
exit_of reconnect upgrade_required = some exit_upgrade_required
exit_of reconnect (auto_upgrade version) = some (exit_auto_upgrade version)
exit_of reconnect abnormal = if reconnect then none else some exit_disconnected
exit_of reconnect clean = if reconnect then none else some exit_disconnected

unfoldable pub reconnecting_carried : Carried → Carried
reconnecting_carried c = record c {
  obs = update_status (λ t. record t { connection = reconnecting }) c.obs;
}

module _ {Draw : Type 0} (mul_f64 : ℕ → Draw → ℕ) where
  -- The loop of `run_until_exit`, over the sessions to come, with the delays that it slept and the
  -- status behind it; `none` means that they are over and the loop goes on.
  unfoldable pub run_from :
      ConnectionConfig
      → RegisterMessage
      → Text
      → List (Script Draw)
      → ReconnectBackoff
      → Carried
      → Option RunResult × List ℕ × Observability
  unfolding run_session exit_of reconnecting_carried
  run_from config reg cause [] b c = (none, [], c.obs)
  run_from config reg cause (x ∷ xs) b c = elim (run_session config reg cause x c) [
    | open_still c' ↦ (none, [], c'.obs)
    | connect_failed c' ↦ (some failed_to_connect, [], c'.obs)
    | ended reason c' ↦ elim (exit_of config.reconnect reason) [
      | some exit ↦ (some (exited exit), [], c'.obs)
      | none ↦
          let (delay, b') = next_delay mul_f64 x.draw (session_lasted x.elapsed b) in
          let (r, delays, obs) = run_from config reg cause xs b' (reconnecting_carried c') in
          if x.stopped_in_backoff
          then (some (exited exit_shutdown), [], (offline none (reconnecting_carried c')).obs)
          else (r, delay ∷ delays, obs)
    ]
  ]

  unfoldable pub run_until_exit :
      ConnectionConfig
      → RegisterMessage
      → Text
      → List (Script Draw)
      → Observability
      → Option RunResult × List ℕ × Observability
  unfolding run_from
  run_until_exit config reg cause scripts obs =
      run_from config reg cause scripts
        (new config.reconnect_backoff_base config.reconnect_backoff_max)
        (record {
          obs = connecting_status config reg obs;
          protected_keys = [];
          pending_cancel_acks = [];
        })
