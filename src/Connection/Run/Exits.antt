-- ===== src/Connection/Run/Exits.antt =====
-- How a session of crates/supervisor-core/src/connection.rs ends: nothing is left behind.
use decent_render.Prelude.{
  ℕ, ◌≡◌, refl, Bool, not, List, [], ◌∷◌, Option, none, some, Text, is_some, codes, starts_with,
}
use decent_render.Protocol.{
  WorkerMessage, ServerMessage, job_assign, cancel, ping, update_available, RegisterMessage,
}
use decent_render.Status.{disconnected}
use decent_render.Connection.Session.{
  ConnectionConfig, Disconnect, heartbeat_limit_reached, shutdown, auto_upgrade, abnormal, clean,
  upgrade_required, Env, Session, Step, goes_on, ends, leave, close, set_connection,
}
use decent_render.Connection.Timers.{
  shutdown_arm, auto_upgrade_arm, hand_over, announce_purges, heartbeat_arm, count_heartbeat,
  at_limit,
}
use decent_render.Connection.Worker.{suppress_after_cancel, worker_arm}
use decent_render.Connection.Server.{
  Event, shutdown_signal, auto_upgrade_tick, heartbeat_tick, worker_ready, task_sends, text_frame,
  unparseable_frame, other_frame, close_frame, socket_error, stream_end, prepare, assign_arm,
  text_arm, close_arm, error_arm, receive, step,
}
use decent_render.Connection.Drain.{drain_lem}
use decent_render.Connection.Connect.{begin}
use decent_render.Connection.Ownership.{if-both}
use decent_render.Connection.Run.{run_loop, run_connected}
use decent_render.Protocol.{JobCanceledAckMessage}
use decent_render.Status.{Observability}

-- A step that ends the session leaves no job in flight and no teardown.
abbrev pub IsDrained : Step → Type 0
IsDrained (goes_on s) = Unit
IsDrained (ends reason s) = (s.in_flight ≡ none) × (s.draining ≡ [])

leave-IsDrained : (env : Env) (reason : Disconnect) (s : Session) → IsDrained (leave env reason s)
unfolding leave
leave-IsDrained env reason s =
    let (idle, empty, joins) = drain_lem env (set_connection disconnected s) in (idle, empty)

hand_over-IsDrained :
    (env : Env) (version : Option Text) (s : Session) → IsDrained (hand_over env version s)
unfolding hand_over
hand_over-IsDrained env none s = tt
hand_over-IsDrained env (some version) s = leave-IsDrained env (auto_upgrade version) (close s)

heartbeat-IsDrained :
    (config : ConnectionConfig) (reg : RegisterMessage) (env : Env) (s : Session)
    → IsDrained (heartbeat_arm config reg env s)
unfolding heartbeat_arm count_heartbeat
heartbeat-IsDrained config reg env s =
    if-both IsDrained env.send_ok
      (if-both IsDrained (at_limit config.heartbeat_limit _)
        (leave-IsDrained env heartbeat_limit_reached _) tt)
      (leave-IsDrained env abnormal (announce_purges env s))

receive-IsDrained :
    (env : Env) (queue : List WorkerMessage) (s : Session) → IsDrained (receive env queue s)
unfolding receive worker_arm
receive-IsDrained env [] s = tt
receive-IsDrained env (msg ∷ rest) s =
    if-both IsDrained (suppress_after_cancel msg (record s { worker_queue = rest })) tt
      (if-both IsDrained env.send_ok tt (leave-IsDrained env abnormal _))

text-IsDrained : (env : Env) (msg : ServerMessage) (s : Session) → IsDrained (text_arm env msg s)
unfolding text_arm assign_arm
text-IsDrained env (job_assign assign) s = if-both IsDrained (not s.obs.allow_flag) tt (
    if-both IsDrained (is_some s.in_flight) tt
      (if-both IsDrained env.send_ok tt (leave-IsDrained env abnormal (prepare assign s))))
text-IsDrained env (cancel message) s = tt
text-IsDrained env (ping message) s = tt
text-IsDrained env (update_available u) s = tt

close-IsDrained :
    (env : Env) (reason : Option Text) (s : Session) → IsDrained (close_arm env reason s)
unfolding close_arm
close-IsDrained env none s = leave-IsDrained env clean s
close-IsDrained env (some reason) s =
    if-both IsDrained (starts_with (codes "upgrade-required") reason)
      (leave-IsDrained env upgrade_required s) (leave-IsDrained env clean s)

step-IsDrained :
    (config : ConnectionConfig) (reg : RegisterMessage) (env : Env) (event : Event) (s : Session)
    → IsDrained (step config reg env event s)
unfolding step error_arm shutdown_arm auto_upgrade_arm
step-IsDrained config reg env shutdown_signal s = leave-IsDrained env shutdown _
step-IsDrained config reg env auto_upgrade_tick s =
    if-both IsDrained (is_some config.auto_upgrade) (hand_over-IsDrained env _ _) tt
step-IsDrained config reg env heartbeat_tick s = heartbeat-IsDrained config reg env s
step-IsDrained config reg env worker_ready s = receive-IsDrained env s.worker_queue s
step-IsDrained config reg env (task_sends msg) s = tt
step-IsDrained config reg env (text_frame msg) s = text-IsDrained env msg s
step-IsDrained config reg env unparseable_frame s = tt
step-IsDrained config reg env other_frame s = tt
step-IsDrained config reg env (close_frame reason) s = close-IsDrained env reason s
step-IsDrained config reg env (socket_error message) s = leave-IsDrained env abnormal _
step-IsDrained config reg env stream_end s = leave-IsDrained env clean s

run_loop-IsDrained :
    (config : ConnectionConfig) (reg : RegisterMessage) (events : List (Env × Event)) (s : Session)
    → IsDrained (run_loop config reg events s)
unfolding run_loop
run_loop-IsDrained config reg [] s = tt
run_loop-IsDrained config reg ((env, event) ∷ rest) s =
    advance (step config reg env event s) (step-IsDrained config reg env event s)
      (λ s'. run_loop-IsDrained config reg rest s')
  where
    advance :
        (r : Step)
        → IsDrained r
        → ((s' : Session) → IsDrained (run_loop config reg rest s'))
        → IsDrained
            (elim r [ goes_on s' ↦ run_loop config reg rest s' | ends reason s' ↦ ends reason s' ])
    advance (goes_on s') d again = again s'
    advance (ends reason s') d again = d

-- However a connected session ends, and whatever happened in it, it leaves no job in flight and no
-- teardown.
pub run_connected-IsDrained :
    (config : ConnectionConfig) (reg : RegisterMessage) (events : List (Env × Event)) (now : ℕ)
    (register_ok : Bool) (takes : ℕ → Bool) (obs : Observability) (protected : List Text)
    (pending : List JobCanceledAckMessage)
    → IsDrained (
        run_connected config reg events
          (begin config reg now register_ok takes obs protected pending))
unfolding run_connected begin set_connection
run_connected-IsDrained config reg events now register_ok takes obs protected pending =
    if-both (λ start. IsDrained (run_connected config reg events start)) register_ok
      (run_loop-IsDrained config reg events _) (refl, refl)
