-- ===== src/Connection/Ownership/Timers.antt =====
-- What the arms of crates/supervisor-core/src/connection.rs that no frame triggers make of a task.
use decent_render.Prelude.{
  ℕ, ◌+◌, ◌%◌, ◌^◌, inl, List, [], ◌∷◌, Option, none, some, Text, if◌then◌else◌, is_some, any,
  text_eq, length,
}
use decent_render.Protocol.{RegisterMessage}
use decent_render.Purge.{PurgeFailure}
use decent_render.Status.{canceled}
use decent_render.Connection.Session.{
  ConnectionConfig, shutdown, auto_upgrade, heartbeat_limit_reached, abnormal, Env, Session, send,
  close,
}
use decent_render.Connection.Timers.{
  set_phase, shutdown_arm, auto_upgrade_arm, hand_over, announce_failures, announce_purges,
  heartbeat_arm, heartbeat_frame, count_heartbeat, at_limit,
}
use decent_render.Connection.Ownership.{
  IsOwned, Keeps, if-both, leave-Keeps, close-IsOwned, send-IsOwned,
}

pub shutdown-Keeps :
    (h : ℕ) (R : Type 0) (env : Env) (s : Session) → IsOwned h s → Keeps h R (shutdown_arm env s)
unfolding shutdown_arm set_phase
shutdown-Keeps h R env s own =
    let shown = if is_some s.in_flight then set_phase canceled s else s in
    leave-Keeps h R env shutdown (close shown)
      (close-IsOwned h shown (if-both (IsOwned h) (is_some s.in_flight) own own))

hand_over-Keeps :
    (h : ℕ) (R : Type 0) (env : Env) (version : Option Text) (s : Session)
    → IsOwned h s
    → Keeps h R (hand_over env version s)
unfolding hand_over
hand_over-Keeps h R env none s own = inl own
hand_over-Keeps h R env (some version) s own =
    leave-Keeps h R env (auto_upgrade version) (close s) (close-IsOwned h s own)

pub auto_upgrade-Keeps :
    (h : ℕ) (R : Type 0) (config : ConnectionConfig) (env : Env) (s : Session)
    → IsOwned h s
    → Keeps h R (auto_upgrade_arm config env s)
unfolding auto_upgrade_arm
auto_upgrade-Keeps h R config env s own =
    if-both (Keeps h R) (is_some config.auto_upgrade) (hand_over-Keeps h R env _ _ own) (inl own)

announce_failures-IsOwned :
    (h : ℕ) (fs : List PurgeFailure) (count : ℕ) (s : Session)
    → IsOwned h s
    → IsOwned h (announce_failures fs count s)
unfolding announce_failures
announce_failures-IsOwned h [] count s own = own
announce_failures-IsOwned h (f ∷ fs) count s own =
    announce_failures-IsOwned h fs count _
      (if-both (IsOwned h) (any (λ p. text_eq p f.path) s.announced_purge_failures) own own)

announce_purges-IsOwned :
    (h : ℕ) (env : Env) (s : Session) → IsOwned h s → IsOwned h (announce_purges env s)
unfolding announce_purges
announce_purges-IsOwned h env s own =
    let still = announce_failures-IsOwned h env.outstanding (length env.outstanding) s own in
    if-both (IsOwned h) _ still still

count_heartbeat-Keeps :
    (h : ℕ) (R : Type 0) (config : ConnectionConfig) (env : Env) (s : Session)
    → IsOwned h s
    → Keeps h R (count_heartbeat config env s)
unfolding count_heartbeat
count_heartbeat-Keeps h R config env s own =
    let s' = record s { heartbeats_sent = (s.heartbeats_sent + 1) % 2 ^ 32 } in
    if-both (Keeps h R) (at_limit config.heartbeat_limit ((s.heartbeats_sent + 1) % 2 ^ 32))
      (leave-Keeps h R env heartbeat_limit_reached (close s') (close-IsOwned h s' own)) (inl own)

pub heartbeat-Keeps :
    (h : ℕ) (R : Type 0) (config : ConnectionConfig) (reg : RegisterMessage) (env : Env)
    (s : Session)
    → IsOwned h s
    → Keeps h R (heartbeat_arm config reg env s)
unfolding heartbeat_arm
heartbeat-Keeps h R config reg env s own =
    let s' = announce_purges env s in
    let still = announce_purges-IsOwned h env s own in
    if-both (Keeps h R) env.send_ok
      (count_heartbeat-Keeps h R config env (send (heartbeat_frame reg s) s')
        (send-IsOwned h (heartbeat_frame reg s) s' still))
      (leave-Keeps h R env abnormal s' still)
