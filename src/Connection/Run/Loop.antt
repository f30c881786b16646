-- ===== src/Connection/Run/Loop.antt =====
-- The reconnect loop of crates/supervisor-core/src/connection.rs.
use mathlib.Core.List.{Memᴰ}
use decent_render.Prelude.{◌⊎◌, ℕ, ◌≡◌, true, List, Option, none, some, Text}
use decent_render.Protocol.{RegisterMessage}
use decent_render.Connection.Session.{
  ConnectionConfig, Disconnect, heartbeat_limit_reached, shutdown, auto_upgrade, abnormal, clean,
  upgrade_required,
}
use decent_render.Connection.Run.{
  Carried, Script, ended, connect_failed, run_session, ConnectionExit, exit_shutdown,
  exit_heartbeat_limit, exit_upgrade_required, exit_auto_upgrade, exited, failed_to_connect,
  RunResult,
}

-- The exit that the end of a session stands for.
pub data Says : Disconnect → ConnectionExit → Type 0 where
  says_shutdown : Says shutdown exit_shutdown
  says_heartbeat_limit : Says heartbeat_limit_reached exit_heartbeat_limit
  says_upgrade_required : Says upgrade_required exit_upgrade_required
  says_auto_upgrade : (version : Text) → Says (auto_upgrade version) (exit_auto_upgrade version)

-- A dropped connection, or one that dispatch closed.
pub data IsDropped : Disconnect → Type 0 where
  dropped : IsDropped abnormal
  closed : IsDropped clean

module _ {Draw : Type 0} (mul_f64 : ℕ → Draw → ℕ) where
  module _ (config : ConnectionConfig) (reg : RegisterMessage) (cause : Text) where
    -- Why the run returned: one of its sessions ended for that reason, or the connect of one failed,
    -- or the shutdown came in the pause behind one whose connection dropped.
    abbrev pub Returns : List (Script Draw) → Option RunResult → Type 0
    Returns xs none = Unit
    Returns xs (some failed_to_connect) =
        (x : Script Draw) × Memᴰ x xs
        × (c : Carried) × (c' : Carried) × (run_session config reg cause x c ≡ connect_failed c')
    Returns xs (some (exited e)) =
        (x : Script Draw) × Memᴰ x xs
        × (c : Carried) × (c' : Carried) × (reason : Disconnect) × (run_session config reg cause x c
            ≡ ended reason c')
        × (Says reason e ⊎ (IsDropped reason × (x.stopped_in_backoff ≡ true) × (e ≡ exit_shutdown)))
