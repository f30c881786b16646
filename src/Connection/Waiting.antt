-- ===== src/Connection/Waiting.antt =====
-- What a canceled job's records go through until its terminal frame is taken
-- (crates/supervisor-core/src/connection.rs).
use mathlib.Core.Path.{subst}
use decent_render.Prelude.{
  ℕ, ◌≡◌, refl, ◌∙◌, Bool, true, false, List, [], ◌∷◌, length, any, text_eq, is_some, ◌+◌, ◌%◌, ◌^◌,
  not, Option, none, some, arith, starts_with, codes,
}
use decent_render.Protocol.{WorkerMessage, RegisterMessage}
use decent_render.Purge.{PurgeFailure}
use decent_render.Connection.Session.{
  ConnectionConfig, Disconnect, Env, Session, Step, goes_on, ends, leave, send, close,
  heartbeat_limit_reached, abnormal, clean, auto_upgrade,
}
use decent_render.Connection.Timers.{
  shutdown_arm, hand_over, auto_upgrade_arm, announce_failures, announce_purges, count_heartbeat,
  heartbeat_arm, heartbeat_frame, at_limit,
}
use decent_render.Connection.Ownership.{if-both}
use decent_render.Connection.Worker.{
  terminal, settle, settle_terminal, suppress_after_cancel, worker_arm,
}
use decent_render.Connection.Server.{
  Event, shutdown_signal, auto_upgrade_tick, heartbeat_tick, worker_ready, task_sends, text_frame,
  unparseable_frame, other_frame, close_frame, socket_error, stream_end, close_arm, error_arm,
  receive, step,
}

-- The job in flight, the record of the canceled one and the drain are as they were.
abbrev pub Same : Session → Session → Type 0
Same s v =
    (v.in_flight ≡ s.in_flight) × (v.canceled_job ≡ s.canceled_job) × (v.draining ≡ s.draining)

abbrev Holds : Session → Step → Type 0
Holds s (goes_on v) = Same s v
Holds s (ends reason v) = Unit

announce_failures-Same :
    (fs : List PurgeFailure) (count : ℕ) (s v : Session)
    → Same s v
    → Same s (announce_failures fs count v)
unfolding announce_failures
announce_failures-Same [] count s v h = h
announce_failures-Same (f ∷ fs) count s v h =
    announce_failures-Same fs count s _
      (if-both (Same s) (any (λ p. text_eq p f.path) v.announced_purge_failures) h h)

announce_purges-Same : (env : Env) (s : Session) → Same s (announce_purges env s)
unfolding announce_purges
announce_purges-Same env s =
    let still =
      announce_failures-Same env.outstanding (length env.outstanding) s s (refl, refl, refl) in
    if-both (Same s) _ still still

leave-Holds : (env : Env) (reason : Disconnect) (s v : Session) → Holds s (leave env reason v)
unfolding leave
leave-Holds env reason s v = tt

heartbeat_arm-Holds :
    (config : ConnectionConfig) (reg : RegisterMessage) (env : Env) (s : Session)
    → Holds s (heartbeat_arm config reg env s)
unfolding heartbeat_arm count_heartbeat send
heartbeat_arm-Holds config reg env s =
    let still = announce_purges-Same env s in
    let t = send (heartbeat_frame reg s) (announce_purges env s) in
    let s' : Session = record t { heartbeats_sent = (t.heartbeats_sent + 1) % 2 ^ 32 } in
    if-both (Holds s) env.send_ok
      (if-both (Holds s) (at_limit config.heartbeat_limit s'.heartbeats_sent)
        {x = leave env heartbeat_limit_reached (close s')} {y = goes_on s'}
        (leave-Holds env heartbeat_limit_reached s (close s')) still)
      (leave-Holds env abnormal s (announce_purges env s))

hand_over-Holds :
    (env : Env) (version : Option _) (s v : Session) → Same s v → Holds s (hand_over env version v)
unfolding hand_over
hand_over-Holds env none s v h = h
hand_over-Holds env (some version) s v h = leave-Holds env (auto_upgrade version) s (close v)

auto_upgrade_arm-Holds :
    (config : ConnectionConfig) (env : Env) (s : Session) → Holds s (auto_upgrade_arm config env s)
unfolding auto_upgrade_arm
auto_upgrade_arm-Holds config env s =
    if-both (Holds s) (is_some config.auto_upgrade) (hand_over-Holds env _ s _ (refl, refl, refl))
      (refl, refl, refl)

-- A frame of the worker that ends no job.
worker_arm-Holds :
    (env : Env) (msg : WorkerMessage) (s v : Session)
    → terminal msg ≡ none
    → Same s v
    → Holds s (worker_arm env msg v)
unfolding worker_arm settle settle_terminal suppress_after_cancel send leave
worker_arm-Holds env msg s v plain h =
    rw (worker_arm, suppress_after_cancel, settle, plain) (if-both (Holds s) env.send_ok h tt)

unfoldable quiet_queue : List WorkerMessage → Bool
quiet_queue [] = true
quiet_queue (msg ∷ rest) = not (is_some (terminal msg))

-- An event that neither takes a terminal frame nor a frame of dispatch.
unfoldable pub is_quiet : Event → Session → Bool
unfolding quiet_queue
is_quiet worker_ready s = quiet_queue s.worker_queue
is_quiet (text_frame msg) s = false
is_quiet _ s = true

receive-Holds :
    (env : Env) (queue : List WorkerMessage) (s : Session)
    → quiet_queue queue ≡ true
    → Holds s (receive env queue s)
unfolding receive quiet_queue
receive-Holds env [] s h = (refl, refl, refl)
receive-Holds env (msg ∷ rest) s h =
    worker_arm-Holds env msg s (record s { worker_queue = rest }) (ground (arith, h))
      (refl, refl, refl)

step-Holds :
    (config : ConnectionConfig) (reg : RegisterMessage) (env : Env) (event : Event) (s : Session)
    → is_quiet event s ≡ true
    → Holds s (step config reg env event s)
unfolding step quiet_queue is_quiet shutdown_arm close_arm error_arm leave
step-Holds config reg env shutdown_signal s h = tt
step-Holds config reg env auto_upgrade_tick s h = auto_upgrade_arm-Holds config env s
step-Holds config reg env heartbeat_tick s h = heartbeat_arm-Holds config reg env s
step-Holds config reg env worker_ready s h = receive-Holds env s.worker_queue s h
step-Holds config reg env (task_sends msg) s h = (refl, refl, refl)
step-Holds config reg env (text_frame msg) s h = absurd (cc h)
step-Holds config reg env unparseable_frame s h = (refl, refl, refl)
step-Holds config reg env other_frame s h = (refl, refl, refl)
step-Holds config reg env (close_frame none) s h = tt
step-Holds config reg env (close_frame (some reason)) s h =
    if-both (Holds s) (starts_with (codes "upgrade-required") reason) tt tt
step-Holds config reg env (socket_error message) s h = tt
step-Holds config reg env stream_end s h = leave-Holds env clean s s

-- A session goes on from one state to another by quiet events alone.
pub data Waits (config : ConnectionConfig) (reg : RegisterMessage) (s : Session)
    : Session → Type 0 where
  waits_no_more : Waits config reg s s
  waits :
      {u v : Session} (env : Env) (event : Event)
      → Waits config reg s u
      → is_quiet event u ≡ true
      → step config reg env event u ≡ goes_on v
      → Waits config reg s v

pub Waits-Same :
    {config : ConnectionConfig} {reg : RegisterMessage} {s v : Session}
    → Waits config reg s v
    → Same s v
Waits-Same waits_no_more = (refl, refl, refl)
Waits-Same {config = config} {reg = reg} (waits {u = u} env event before quiet went) =
    let (a, b, c) = Waits-Same before in
    let (x, y, z) = subst (Holds u) went (step-Holds config reg env event u quiet) in
    (x ∙ a, y ∙ b, z ∙ c)
