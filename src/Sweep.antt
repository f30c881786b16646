-- ===== src/Sweep.antt =====
-- crates/supervisor-core/src/sweep.rs: which directories of the temp dir are abandoned job workdirs,
-- and their removal. Log output is left out.
pub mod Names
pub mod Mtime
pub mod Safety
pub mod Retry
use decent_render.Prelude.{
  ℕ, zero, suc, ◌+◌, ◌-◌, ◌*◌, Bool, true, false, not, ◌&&◌, ◌||◌, List, [], ◌∷◌, Option, none,
  some, Text, codes, length, get_or, leb, ◌==◌, unwrap_or, if◌then◌else◌, split, starts_with,
}
use decent_render.Prelude.Decimal.{parse, u32_max, u64_max}
use decent_render.Os.{
  Os, Metadata, Node, Nodes, unreadable, leaf, dir, nil, cons, IoResult, ok, err, as_pid_t, Signal,
  delivered, esrch, other_errno, join,
}
use decent_render.FileTree.{push_all, size}
use decent_render.Purge.{PurgeFailure, clear_purge_failure}

abbrev pub nanos_per_sec : ℕ
nanos_per_sec = 1_000_000_000

-- Seven days.
abbrev pub stale_runner_dir_age : ℕ
stale_runner_dir_age = 7 * 24 * 60 * 60 * nanos_per_sec

abbrev pub min_epoch_nanos : ℕ
min_epoch_nanos = 1_000_000_000_000_000_000

pub data Classification : Type 0 where
  supervisor : ℕ → Classification
  runner foreign : Classification

-- The three fields of a supervisor's name, each parsed or not.
pub owner : Option ℕ → Option ℕ → Option ℕ → Option ℕ
owner none _ _ = none
owner (some pid) none _ = none
owner (some pid) (some nanos) none = none
owner (some pid) (some nanos) (some ctr) =
    if not (pid == 0) && leb min_epoch_nanos nanos then some pid else none

-- The owner that a supervisor workdir's name carries.
unfoldable pub supervisor_owner : List Text → Option ℕ
unfolding owner
supervisor_owner parts =
    if leb 5 (length parts)
    then owner (parse u32_max (get_or parts (length parts - 3) []))
        (parse u64_max (get_or parts (length parts - 2) []))
        (parse u64_max (get_or parts (length parts - 1) []))
    else none

-- `c.is_ascii_alphanumeric() || c == '_'`.
is_suffix_char : ℕ → Bool
is_suffix_char c =
    (leb b'0' c && leb c b'9')
    || ((leb b'A' c && leb c b'Z') || ((leb b'a' c && leb c b'z') || c == b'_'))

all_suffix_chars : Text → Bool
unfolding is_suffix_char
all_suffix_chars [] = true
all_suffix_chars (c ∷ s) = is_suffix_char c && all_suffix_chars s

-- A runner's `mkdtemp` suffix.
pub is_mkdtemp_suffix : Text → Bool
unfolding all_suffix_chars
is_mkdtemp_suffix s = length s == 6 && all_suffix_chars s

unfoldable pub classify_dir_name : Text → Classification
unfolding supervisor_owner is_mkdtemp_suffix
classify_dir_name name =
    let parts = split b'-' name in
    if not (starts_with (codes "job-") name) then foreign else elim (supervisor_owner parts) [
      | some pid ↦ supervisor pid
      | none ↦
          if leb 3 (length parts) && is_mkdtemp_suffix (get_or parts (length parts - 1) [])
          then runner
          else foreign
    ]

-- `if t > newest { newest = t; }`, where the time can be read.
newer : Metadata → ℕ → ℕ
newer md newest = elim md.modified [ none ↦ newest | some t ↦ if leb t newest then newest else t ]

-- The loop of `newest_mtime`, on fuel.
walk_newest : ℕ → Nodes → ℕ → ℕ
walk_newest zero stack newest = newest
walk_newest (suc f) nil newest = newest
walk_newest (suc f) (cons unreadable stack) newest = walk_newest f stack newest
walk_newest (suc f) (cons (leaf md) stack) newest = walk_newest f stack (newer md newest)
walk_newest (suc f) (cons (dir md kids) stack) newest =
    walk_newest f (push_all kids stack) (newer md newest)

-- The fuel is one more than the number of entries below `root`.
pub newest_mtime : Node → ℕ
unfolding walk_newest newer
newest_mtime root = walk_newest (suc (size root)) (cons root nil) 0

module _ {W : Type 0} (os : Os W) where
  open os use {remove_dir_all, read_dir, tree, kill_0, now, process_id, temp_dir, file_name}

  pub pid_is_dead : ℕ → W → Bool
  pid_is_dead pid w =
      if pid == process_id
      then false
      else elim (kill_0 (as_pid_t pid) w) [ delivered ↦ false | esrch ↦ true | other_errno ↦ false ]

  pub should_remove : Text → ℕ → ℕ → Text → W → Bool
  unfolding pid_is_dead
  should_remove base current stale_runner_after name w = elim (classify_dir_name name) [
    | supervisor owner_pid ↦ not (owner_pid == process_id) && pid_is_dead owner_pid w
    | runner ↦ leb stale_runner_after (current - newest_mtime (tree (join base name) w))
    | foreign ↦ false
  ]

  -- The loop of `sweep_dir` over the names, with the number removed so far.
  pub sweep_entries : Text → ℕ → ℕ → List (Option Text) → ℕ → W → ℕ × W
  sweep_entries base current stale [] removed w = (removed, w)
  sweep_entries base current stale (none ∷ names) removed w =
      sweep_entries base current stale names removed w
  sweep_entries base current stale (some name ∷ names) removed w =
      let kept = sweep_entries base current stale names removed w in
      let attempt = remove_dir_all (join base name) w in
      let swept = sweep_entries base current stale names (removed + 1) attempt.1 in
      let failed = sweep_entries base current stale names removed attempt.1 in
      if should_remove base current stale name w
      then elim attempt.0 [ ok ↦ swept | err e ↦ failed ]
      else kept

  pub sweep_dir : Text → ℕ → W → ℕ × W
  unfolding sweep_entries
  sweep_dir base stale_runner_after w = elim (read_dir base w) [
    | none ↦ (0, w)
    | some names ↦ sweep_entries base (unwrap_or 0 (now w)) stale_runner_after names 0 w
  ]

  -- Whether the retry of a recorded failure skips this path.
  pub skips_retry : Text → W → Bool
  unfolding pid_is_dead
  skips_retry path w = elim (classify_dir_name (unwrap_or [] (file_name path))) [
    | supervisor owner_pid ↦ not (owner_pid == process_id) && not (pid_is_dead owner_pid w)
    | runner ↦ true
    | foreign ↦ true
  ]

  -- The loop over the snapshot of the recorded failures.
  pub retry_failures : List PurgeFailure → ℕ → List PurgeFailure → W → ℕ × List PurgeFailure × W
  retry_failures [] removed failures w = (removed, failures, w)
  retry_failures (f ∷ fs) removed failures w =
      let attempt = remove_dir_all f.path w in
      let skipped = retry_failures fs removed failures w in
      let reclaimed =
        retry_failures fs (removed + 1) (clear_purge_failure f.path failures) attempt.1 in
      let failed = retry_failures fs removed failures attempt.1 in
      if skips_retry f.path w then skipped else elim attempt.0 [ ok ↦ reclaimed | err e ↦ failed ]

  pub sweep_stale_workdirs : List PurgeFailure → W → ℕ × List PurgeFailure × W
  unfolding sweep_dir retry_failures
  sweep_stale_workdirs failures w =
      let (removed, w') = sweep_dir temp_dir stale_runner_dir_age w in
      retry_failures failures removed failures w'
