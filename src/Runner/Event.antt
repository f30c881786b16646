-- ===== src/Runner/Event.antt =====
-- What the runner reports (`RunnerEvent` of crates/supervisor-core/src/runner.rs). serde reads it.
use decent_render.Prelude.{ℕ, Option, Text}
use decent_render.Protocol.{JobMetrics}

-- One line of the runner's standard output.
pub data RunnerEvent : Type 0 where
  progress : ℕ → Option ℕ → Option ℕ → RunnerEvent
  heartbeat : RunnerEvent
  -- the output's size, the wall time, the metrics
  done : ℕ → ℕ → Option JobMetrics → RunnerEvent
  error : Text → RunnerEvent
