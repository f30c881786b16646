-- ===== src/Runner/Host.antt =====
-- What crates/supervisor-core/src/runner.rs calls of the kernel, of tokio and of the standard library
-- beside the file system: process groups, `ps`, the job's child process and the splitting of texts.
-- None of it is code of the repository: it is a parameter of the definitions that call it.
use decent_render.Prelude.{ℕ, Bool, List, Option, Text}
use decent_render.Os.{IoResult, Fallible, PidT}
use decent_render.Protocol.{JobAssignMessage}
use decent_render.Artifact.{Net}
use decent_render.Runner.Event.{RunnerEvent}
use decent_render.Runner.Environment.{Vars}

pub data KillSignal : Type 0 where
  sigterm sigkill : KillSignal

-- `std::process::ExitStatus`: whether it is a success, and how it prints.
pub record ExitStatus : Type 0 where
  pub success : Bool
  pub display : Text

-- Which of the child's piped ends `take()` finds.
pub record Pipes : Type 0 where
  pub stdin : Bool
  pub stdout : Bool

-- `child.wait().await`.
pub data WaitResult : Type 0 where
  exited : ExitStatus → WaitResult
  wait_failed : Text → WaitResult

pub record Host (W : Type 0) : Type 0 where
  pub net : Net W
  pub open net use *
  pub killpg : PidT → KillSignal → W → W
  -- what `ps -o lstart= -p <pid>` prints, where it succeeds
  pub ps_lstart : ℕ → W → Option Text
  pub split_whitespace : Text → List Text
  pub lines : Text → List Text
  -- `child.id()`, `none` once the child is waited for
  pub child_id : W → Option ℕ
  -- `timeout(CANCEL_GRACE, child.wait())`, `none` where the grace ended first
  pub wait_in_grace : W → Option WaitResult × W
  -- `child.wait()` behind the SIGKILL, which no process can ignore
  pub wait : W → WaitResult × W
  -- `child.wait()` behind the end of stdout, `none` where the child never exits
  pub exit : W → Option WaitResult × W
  -- the variables of the supervisor's environment that are UTF-8
  pub vars : Vars
  -- `Command::new(runner).current_dir(dir).spawn()` in a new process group, with a cleared
  -- environment that the given variables were put into
  pub spawn : Text → Vars → Text → W → Fallible Pipes × W
  -- `stdin.write_all(&input)` and `stdin.shutdown()`
  pub write_all : Text → W → IoResult × W
  pub shutdown : W → IoResult × W
  -- serde's reading of a line, and its writing of the frame
  pub from_str : Text → Option RunnerEvent
  pub to_vec : JobAssignMessage → Fallible Text
  -- `{:.0}` of a duration's seconds
  pub format_secs : ℕ → Text
