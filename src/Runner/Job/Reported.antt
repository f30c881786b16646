-- ===== src/Runner/Job/Reported.antt =====
-- What the select loop makes of the runner's reports, and what ends it
-- (crates/supervisor-core/src/runner.rs).
use decent_render.Prelude.{
  ℕ, refl, any, map_option, ◌≡◌, ◌≢◌, inl, inr, Bool, true, false, List, [], ◌∷◌, ◌++◌, Option,
  none, some, if◌then◌else◌, arith,
}
use decent_render.Protocol.{JobAssignMessage, JobMetrics}
use decent_render.Runner.Event.{RunnerEvent, progress, heartbeat, done, error}
use decent_render.Runner.Host.{Host}
use decent_render.Runner.Loop.{
  Event, deadline, cancel, silence, eof, tick, read_failed, line, Turn, Context, goes_on, ended,
  stamped, stop, on_event, on_line, on_sample, on_turn, run_loop,
}
use decent_render.Runner.Job.Lifecycle.{After-cases}

abbrev pub is_eof : Event → Bool
is_eof eof = true
is_eof _ = false

-- The wall-clock limit, a cancel, and a read error of stdout.
abbrev pub is_stop : Event → Bool
is_stop deadline = true
is_stop cancel = true
is_stop (read_failed e) = true
is_stop _ = false

open_event : (e : Event) → e ≢ eof → is_eof e ≡ false
open_event e h = ground arith

-- A `done` of the runner: its output size, its wall time and the metrics it came with.
abbrev pub Report : Type 0
Report = ℕ × ℕ × Option JobMetrics

-- The metrics that a job owes for a report: the runner's own, or the wall time and the assignment's
-- frames, in either case with the output size of the report.
abbrev pub metrics_for : JobAssignMessage → Report → JobMetrics
metrics_for assign (size, wall, none) = record {
  wall_ms = wall;
  frames = assign.duration_frames;
  output_size_in_bytes = some size;
}
metrics_for assign (size, wall, some own) = record {
  wall_ms = own.wall_ms;
  frames = own.frames;
  output_size_in_bytes = some size;
}

stamped_lem :
    (assign : JobAssignMessage) (size wall : ℕ) (own : Option JobMetrics)
    → stamped assign size wall own ≡ metrics_for assign (size, wall, own)
unfolding stamped
stamped_lem assign size wall none = refl
stamped_lem assign size wall (some own) = refl

module _ {W : Type 0} (host : Host W) where
  abbrev reported_by : Option RunnerEvent → Option Report → Option Report
  reported_by (some (done size wall own)) r = some (size, wall, own)
  reported_by _ r = r

  abbrev step_of : Event → Option Report → Option Report
  step_of (line text) r = reported_by (host.from_str text) r
  step_of _ r = r

  -- The last `done` before the end of stdout.
  pub last_done : List (Turn W) → Option Report → Option Report
  last_done [] r = r
  last_done (turn ∷ turns) r =
      let rest = last_done turns (step_of turn.event r) in if is_eof turn.event then r else rest

  on_line-goes :
      (ctx : Context) (e : Option RunnerEvent) (r : Option Report) (m : Option JobMetrics) (w : W)
      → (on_line host ctx e (map_option (metrics_for ctx.assign) r) w).0 ≡ goes_on m
      → m ≡ map_option (metrics_for ctx.assign) (reported_by e r)
  unfolding on_line on_event stop
  on_line-goes ctx none r m w h = ground (arith, h)
  on_line-goes ctx (some (progress p elapsed frames)) r m w h = ground (arith, h)
  on_line-goes ctx (some heartbeat) r m w h = ground (arith, h)
  on_line-goes ctx (some (error message)) r m w h = absurd (ground (arith, h))
  on_line-goes ctx (some (done size wall own)) r m w h =
      let same = stamped_lem ctx.assign size wall own in ground (arith, h, same)

  on_turn-goes :
      (ctx : Context) (event : Event) (r : Option Report) (m : Option JobMetrics) (w : W)
      → (on_turn host ctx event (map_option (metrics_for ctx.assign) r) w).0 ≡ goes_on m
      → (event ≢ eof) × (m ≡ map_option (metrics_for ctx.assign) (step_of event r))
  unfolding on_turn stop on_sample
  on_turn-goes ctx (line text) r m w h = ((λ e. cc), on_line-goes ctx (host.from_str text) r m w h)
  on_turn-goes ctx deadline r m w h = absurd (ground (arith, h))
  on_turn-goes ctx cancel r m w h = absurd (ground (arith, h))
  on_turn-goes ctx silence r m w h = absurd (ground (arith, h))
  on_turn-goes ctx eof r m w h = absurd (ground (arith, h))
  on_turn-goes ctx (read_failed e) r m w h = absurd (ground (arith, h))
  on_turn-goes ctx (tick none) r m w h = ((λ e. cc), ground (arith, h))
  on_turn-goes ctx (tick (some e)) r m w h = absurd (ground (arith, h))

  on_turn-ends :
      (ctx : Context) (event : Event) (metrics m : Option JobMetrics) (w : W)
      → (on_turn host ctx event metrics w).0 ≡ ended m
      → (event ≡ eof) × (m ≡ metrics)
  unfolding on_turn stop on_line on_event on_sample
  on_turn-ends ctx event metrics m w h = ground (arith, h)

  pub run_loop-last_done :
      (ctx : Context) (turns : List (Turn W)) (r : Option Report) (metrics m : Option JobMetrics)
      (w : W)
      → metrics ≡ map_option (metrics_for ctx.assign) r
      → (run_loop host ctx turns metrics w).0 ≡ ended m
      → m ≡ map_option (metrics_for ctx.assign) (last_done turns r)
  unfolding run_loop last_done
  run_loop-last_done ctx [] r metrics m w t h = absurd (cc h)
  run_loop-last_done ctx (turn ∷ turns) r metrics m w t h =
      let (after, acts, w') = on_turn host ctx turn.event metrics (turn.happened w) in
      elim (After-cases after) [
        | inl (m', on) ↦
            let (further, same) = on_turn-goes ctx turn.event r m' (turn.happened w) (rw t at on) in
            let ih =
              run_loop-last_done ctx turns (step_of turn.event r) m' m w' same
                (ground (arith, h, on)) in
            rw (last_done, open_event turn.event further) ih
        | inr (inl (m', over)) ↦
            let (at, same) = on_turn-ends ctx turn.event metrics m' (turn.happened w) over in
            rw (last_done, at) (ground (arith, h, over, same, t))
        | inr (inr (message, broken)) ↦ absurd (ground (arith, h, broken))
      ]

  on_turn-stop :
      (ctx : Context) (event : Event) (metrics m : Option JobMetrics) (w : W)
      → is_stop event ≡ true
      → (on_turn host ctx event metrics w).0 ≢ goes_on m
  unfolding on_turn stop
  on_turn-stop ctx event metrics m w h e = ground (arith, h, e)

  pub run_loop-stop :
      (ctx : Context) (before after : List (Turn W)) (turn : Turn W) (metrics m : Option JobMetrics)
      (w : W)
      → is_stop turn.event ≡ true
      → (run_loop host ctx (before ++ turn ∷ after) metrics w).0 ≢ goes_on m
  unfolding run_loop
  run_loop-stop ctx [] after turn metrics m w h e =
      elim (After-cases (on_turn host ctx turn.event metrics (turn.happened w)).0) [
        | inl (m', on) ↦ on_turn-stop ctx turn.event metrics m' (turn.happened w) h on
        | inr (inl (m', over)) ↦ ground (arith, e, over)
        | inr (inr (message, broken)) ↦ ground (arith, e, broken)
      ]
  run_loop-stop ctx (first ∷ before) after turn metrics m w h e =
      let one = on_turn host ctx first.event metrics (first.happened w) in
      elim (After-cases one.0) [
        | inl (m', on) ↦ run_loop-stop ctx before after turn m' m one.2 h (ground (arith, e, on))
        | inr (inl (m', over)) ↦ ground (arith, e, over)
        | inr (inr (message, broken)) ↦ ground (arith, e, broken)
      ]

  -- A loop that no turn ended with the end of stdout has not ended so.
  pub run_loop-open :
      (ctx : Context) (before after : List (Turn W)) (turn : Turn W) (metrics m : Option JobMetrics)
      (w : W)
      → any (λ t. is_eof t.event) before ≡ false
      → is_stop turn.event ≡ true
      → (run_loop host ctx (before ++ turn ∷ after) metrics w).0 ≢ ended m
  unfolding run_loop
  run_loop-open ctx [] after turn metrics m w unended h e =
      elim (After-cases (on_turn host ctx turn.event metrics (turn.happened w)).0) [
        | inl (m', on) ↦ on_turn-stop ctx turn.event metrics m' (turn.happened w) h on
        | inr (inl (m', over)) ↦
            let (at, same) = on_turn-ends ctx turn.event metrics m' (turn.happened w) over in
            ground (arith, h, at)
        | inr (inr (message, broken)) ↦ ground (arith, e, broken)
      ]
  run_loop-open ctx (first ∷ before) after turn metrics m w unended h e =
      let one = on_turn host ctx first.event metrics (first.happened w) in
      elim (After-cases one.0) [
        | inl (m', on) ↦
            run_loop-open ctx before after turn m' m one.2 (ground (arith, unended)) h
              (ground (arith, e, on))
        | inr (inl (m', over)) ↦
            let (at, same) = on_turn-ends ctx first.event metrics m' (first.happened w) over in
            ground (arith, unended, at)
        | inr (inr (message, broken)) ↦ ground (arith, e, broken)
      ]
