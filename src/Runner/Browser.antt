-- ===== src/Runner/Browser.antt =====
-- The browser of a job (crates/supervisor-core/src/runner.rs): its exec wrapper, and the sweep of the
-- process groups that the wrapper recorded.
pub mod Sweep
pub mod Contained
use decent_render.Prelude.{
  ℕ, ◌≡◌, ◌≢◌, refl, ◌⊎◌, inl, inr, Bool, true, false, not, ◌||◌, ◌&&◌, List, [], ◌∷◌, ◌++◌, Option,
  none, some, Text, codes, text_eq, text_eq_iff, ◌==◌, if◌then◌else◌, arith, Bool-cases, any, split,
}
use decent_render.Prelude.Decimal.{parse, u32_max}
use decent_render.Os.{
  as_pid_t, Signal, Fallible, pass, fail, delivered, esrch, other_errno, ok, err, join,
}
use decent_render.Runner.Host.{Host, sigkill}

-- `Path::is_absolute`.
unfoldable pub is_absolute : Text → Bool
is_absolute [] = false
is_absolute (c ∷ p) = c == b'/'

-- `components().any(|c| matches!(c, Component::ParentDir))`.
unfoldable pub has_parent_dir : Text → Bool
has_parent_dir p = any (λ part. text_eq part (codes "..")) (split b'/' p)

-- `tokens.collect::<Vec<_>>().join(" ")`.
pub join_words : List Text → Text
join_words [] = []
join_words (t ∷ []) = t
join_words (t ∷ u ∷ ts) = t ++ b' ' ∷ join_words (u ∷ ts)

unfoldable pub non_empty : Text → Option Text
non_empty [] = none
non_empty (c ∷ s) = some (c ∷ s)

pid_tokens : List Text → Option (ℕ × Option Text)
unfolding join_words non_empty
pid_tokens [] = none
pid_tokens (t ∷ ts) = elim (parse u32_max t) [
  | none ↦ none
  | some pid ↦ some (pid, non_empty (join_words ts))
]

-- `is_safe_signal_target`.
unfoldable pub is_safe_signal_target : ℕ → ℕ → Bool
is_safe_signal_target pid me = not (pid == 0) && not (pid == me)

module _ {W : Type 0} (host : Host W) where
  open host use {os, killpg, ps_lstart, split_whitespace, lines, set_permissions}

  -- `browser_executable_in`.
  unfoldable pub browser_executable_in : Text → W → Fallible Text
  unfolding is_absolute has_parent_dir join
  browser_executable_in dir w =
      let manifest = join dir (codes "executable") in
      elim (os.read_to_string manifest w) [
        | none ↦ fail (codes "read browser manifest " ++ manifest)
        | some contents ↦
            let relative = os.trim contents in
            let executable = join dir relative in
            if text_eq relative []
            then fail (codes "browser manifest " ++ (manifest ++ codes " is empty"))
            else if is_absolute relative || has_parent_dir relative
            then fail (
                codes "browser manifest "
                ++ (manifest ++ (codes " escapes the artifact: " ++ relative)))
            else if os.exists executable w
            then pass executable
            else fail (
                codes "browser manifest points at "
                ++ (executable ++ codes ", which does not exist"))
      ]

  unfoldable pub wrapper_script : Text → Text → Text
  wrapper_script pidfile real =
      codes "#!/bin/sh\necho \"$$ $(ps -o lstart= -p $$ 2>/dev/null)\" >> "
      ++ (pidfile ++ (codes "\nexec \"" ++ (real ++ codes "\" \"$@\"\n")))

  -- `write_browser_wrapper`: the wrapper and its pidfile.
  pub write_browser_wrapper : Text → Text → W → Fallible (Text × Text) × W
  unfolding wrapper_script join
  write_browser_wrapper workdir real w =
      let wrapper = join workdir (codes ".decent-browser-wrapper") in
      let pidfile = join workdir (codes ".decent-browser-pids") in
      let (written, w') = os.write wrapper (wrapper_script pidfile real) w in
      let (moded, w'') = set_permissions wrapper 493 w' in
      elim written [
        | err e ↦ (fail (codes "write browser wrapper " ++ wrapper), w')
        | ok ↦ elim moded [
          | err e ↦ (fail (codes "chmod browser wrapper " ++ wrapper), w'')
          | ok ↦ (pass (wrapper, pidfile), w'')
        ]
      ]

  -- `parse_pid_line`: the pid of a line, and the start time recorded with it.
  unfoldable pub parse_pid_line : Text → Option (ℕ × Option Text)
  unfolding pid_tokens
  parse_pid_line line = pid_tokens (split_whitespace line)

  normalised : Option Text → Option Text
  unfolding join_words non_empty
  normalised none = none
  normalised (some out) = non_empty (join_words (split_whitespace out))

  unfoldable pub process_start_time : ℕ → W → Option Text
  unfolding normalised
  process_start_time pid w = normalised (ps_lstart pid w)

  pub is_delivered : Signal → Bool
  is_delivered delivered = true
  is_delivered esrch = false
  is_delivered other_errno = false

  unfoldable pub pid_exists : ℕ → W → Bool
  unfolding is_delivered
  pid_exists pid w = is_delivered (os.kill_0 (as_pid_t pid) w)

  pub same_start : Text → Option Text → Bool
  same_start recorded none = false
  same_start recorded (some live) = text_eq live recorded

  -- `match recorded`: whether the pid is signalled.
  unfoldable pub is_still_it : ℕ → Option Text → W → Bool
  unfolding process_start_time pid_exists same_start
  is_still_it pid (some recorded) w = same_start recorded (process_start_time pid w)
  is_still_it pid none w = pid_exists pid w

  -- The loop over the pidfile's lines.
  pub kill_lines : List Text → W → List ℕ × W
  unfolding parse_pid_line is_still_it
  kill_lines [] w = ([], w)
  kill_lines (line ∷ ls) w = elim (parse_pid_line line) [
    | none ↦ kill_lines ls w
    | some (pid, recorded) ↦
        let spared = kill_lines ls w in
        let rest = kill_lines ls (killpg (as_pid_t pid) sigkill w) in
        if pid == 0 || pid == os.process_id
        then spared
        else if is_still_it pid recorded w
        then (pid ∷ rest.0, rest.1)
        else spared
  ]

  pub kill_recorded_browsers : Text → W → List ℕ × W
  unfolding kill_lines
  kill_recorded_browsers pidfile w = elim (os.read_to_string pidfile w) [
    | none ↦ ([], w)
    | some contents ↦ kill_lines (lines contents) w
  ]
