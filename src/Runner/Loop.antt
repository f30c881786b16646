-- ===== src/Runner/Loop.antt =====
-- The select loop of `run_job_inner` (crates/supervisor-core/src/runner.rs). It takes a list of
-- turns: what each `select!` found ready, and how the world had changed until then.
use decent_render.Prelude.{
  ℕ, List, [], ◌∷◌, ◌++◌, Option, none, some, Text, codes, ltb, unwrap_or, if◌then◌else◌,
}
use decent_render.Prelude.Decimal.{print}
use decent_render.Protocol.{JobAssignMessage, JobMetrics}
use decent_render.Runner.{progress_to_wire}
use decent_render.Runner.Event.{RunnerEvent, progress, heartbeat, done, error}
use decent_render.Runner.Host.{Host}
use decent_render.Runner.Workdir.{workdir_bytes}
use decent_render.Runner.Terminate.{Act, sent, terminate_child}

-- What a `select!` of the loop finds.
pub data Event : Type 0 where
  deadline cancel silence eof : Event
  -- a tick of the sampler, with the error of the join where the walk's task is lost
  tick : Option Text → Event
  read_failed : Text → Event
  line : Text → Event

pub record Turn (W : Type 0) : Type 0 where
  pub happened : W → W
  pub event : Event

-- The locals of `run_job_inner` that the loop uses.
pub record Context : Type 0 where
  pub assign : JobAssignMessage
  pub workdir : Text
  pub pidfile : Option Text
  pub wall_clock_limit : ℕ
  pub workdir_cap_bytes : ℕ

-- How one turn, or the loop, ends: it goes on with the metrics seen, stdout has ended, or the job
-- returns an error.
pub data After : Type 0 where
  goes_on : Option JobMetrics → After
  ended : Option JobMetrics → After
  fails : Text → After

-- `metrics.unwrap_or(...)` with the output size stamped on it.
unfoldable pub stamped : JobAssignMessage → ℕ → ℕ → Option JobMetrics → JobMetrics
stamped assign size wall metrics =
    record (unwrap_or
      (record { wall_ms = wall; frames = assign.duration_frames; output_size_in_bytes = none })
      metrics) { output_size_in_bytes = some size }

pub over_cap : ℕ → ℕ → Text
over_cap cap bytes =
    codes "workdir exceeded the "
    ++ (print cap ++ (codes " byte disk cap (" ++ (print bytes ++ codes " bytes on disk)")))

module _ {W : Type 0} (host : Host W) where
  open host use {
    os, killpg, child_id, wait_in_grace, wait, exit, vars, spawn, write_all, shutdown, from_str,
    to_vec, format_secs,
  }

  -- The branches that end the job: the child is terminated and the message is the job's error.
  unfoldable pub stop : Context → Text → W → After × List Act × W
  unfolding terminate_child
  stop ctx message w =
      let (acts, w') = terminate_child host ctx.pidfile w in (fails message, acts, w')

  unfoldable pub on_event : Context → RunnerEvent → Option JobMetrics → W → After × List Act × W
  unfolding stop stamped
  on_event ctx heartbeat metrics w = (goes_on metrics, [], w)
  on_event ctx (progress p elapsed frames) metrics w = (
    goes_on metrics,
    sent (progress_to_wire ctx.assign.tenant ctx.assign.job_id ctx.assign.attempt p elapsed frames)
        ∷ [],
    w,
  )
  on_event ctx (done size wall reported) metrics w =
      (goes_on (some (stamped ctx.assign size wall reported)), [], w)
  on_event ctx (error message) metrics w = stop ctx message w

  unfoldable pub on_line :
      Context → Option RunnerEvent → Option JobMetrics → W → After × List Act × W
  unfolding on_event
  on_line ctx none metrics w = (goes_on metrics, [], w)
  on_line ctx (some event) metrics w = on_event ctx event metrics w

  unfoldable pub on_sample : Context → ℕ → Option JobMetrics → W → After × List Act × W
  unfolding stop over_cap
  on_sample ctx bytes metrics w =
      if ltb ctx.workdir_cap_bytes bytes
      then stop ctx (over_cap ctx.workdir_cap_bytes bytes) w
      else (goes_on metrics, [], w)

  -- One turn of the `select!`.
  unfoldable pub on_turn : Context → Event → Option JobMetrics → W → After × List Act × W
  unfolding stop on_line on_sample
  on_turn ctx deadline metrics w =
      stop ctx
        (codes "render exceeded the "
          ++ (format_secs ctx.wall_clock_limit ++ codes "s wall-clock limit"))
        w
  on_turn ctx (tick none) metrics w =
      on_sample ctx (workdir_bytes (os.tree ctx.workdir w)) metrics w
  on_turn ctx (tick (some e)) metrics w = stop ctx (codes "disk sampler join failed") w
  on_turn ctx cancel metrics w = stop ctx (codes "Render canceled by dispatch") w
  on_turn ctx silence metrics w = stop ctx (codes "runner silent") w
  on_turn ctx (read_failed e) metrics w = stop ctx (codes "runner stdout read failed") w
  on_turn ctx eof metrics w = (ended metrics, [], w)
  on_turn ctx (line text) metrics w = on_line ctx (from_str text) metrics w

  -- The loop; where the turns are over it still goes on.
  unfoldable pub run_loop : Context → List (Turn W) → Option JobMetrics → W → After × List Act × W
  unfolding on_turn
  run_loop ctx [] metrics w = (goes_on metrics, [], w)
  run_loop ctx (turn ∷ turns) metrics w =
      let (after, acts, w') = on_turn ctx turn.event metrics (turn.happened w) in
      elim after [
        | goes_on metrics' ↦
            let (after', acts', w'') = run_loop ctx turns metrics' w' in
            (after', acts ++ acts', w'')
        | ended metrics' ↦ (ended metrics', acts, w')
        | fails message ↦ (fails message, acts, w')
      ]
