-- ===== src/Runner/Browser/Sweep.antt =====
-- Which process groups the sweep of a job's pidfile kills
-- (`kill_recorded_browsers` of crates/supervisor-core/src/runner.rs).
use decent_render.Prelude.{
  ℕ, ◌≡◌, ◌≢◌, refl, ◌⊎◌, inl, inr, true, false, List, [], ◌∷◌, Option, none, some, Text,
  text_eq_refl, text_eq_iff, ◌==◌, arith, Bool-cases, Option-cases, ◌||◌,
}
use decent_render.Os.{as_pid_t, Signal, delivered}
use decent_render.Runner.Host.{Host, sigkill}
use decent_render.Runner.Browser.{
  is_delivered, same_start, parse_pid_line, process_start_time, pid_exists, is_still_it, kill_lines,
  kill_recorded_browsers,
}

module _ {W : Type 0} (host : Host W) where
  open host use {os, killpg, lines}

  -- The live process is the recorded one: it has the recorded start time, or, where none was
  -- recorded, `kill(pid, 0)` returns 0.
  abbrev pub IsVouched : ℕ → Option Text → W → Type 0
  IsVouched pid (some recorded) w = process_start_time host pid w ≡ some recorded
  IsVouched pid none w = os.kill_0 (as_pid_t pid) w ≡ delivered

  -- A line names a process group that may be killed.
  abbrev pub Names : Text → ℕ → W → Type 0
  Names line pid w =
      (recorded : Option Text) × (parse_pid_line host line ≡ some (pid, recorded))
      × (pid ≢ 0)
      × (pid ≢ os.process_id)
      × IsVouched pid recorded w

  -- The sweep, line by line: the pids recorded as killed, whose groups `killpg` is called for, and the world it leaves.
  pub data Sweep : List Text → W → List ℕ → W → Type 0 where
    done : (w : W) → Sweep [] w [] w
    spare :
        (line : Text) (ls : List Text) (w v : W) (killed : List ℕ)
        → ((pid : ℕ) → ¬ Names line pid w)
        → Sweep ls w killed v
        → Sweep (line ∷ ls) w killed v
    kill :
        (line : Text) (ls : List Text) (w v : W) (pid : ℕ) (killed : List ℕ)
        → Names line pid w
        → Sweep ls (killpg (as_pid_t pid) sigkill w) killed v
        → Sweep (line ∷ ls) w (pid ∷ killed) v

  is_delivered_lem : (s : Signal) → is_delivered host s ≡ true → s ≡ delivered
  unfolding is_delivered
  is_delivered_lem s h = ground arith

  same_start_lem :
      (recorded : Text) (live : Option Text)
      → same_start host recorded live ≡ true
      → live ≡ some recorded
  unfolding same_start
  same_start_lem recorded none h = cc
  same_start_lem recorded (some live) h = ground (arith, text_eq_iff live recorded)

  is_still_it-IsVouched :
      (pid : ℕ) (recorded : Option Text) (w : W)
      → is_still_it host pid recorded w ≡ true
      → IsVouched pid recorded w
  unfolding is_still_it pid_exists
  is_still_it-IsVouched pid (some recorded) w h =
      same_start_lem recorded (process_start_time host pid w) h
  is_still_it-IsVouched pid none w h = is_delivered_lem (os.kill_0 (as_pid_t pid) w) h

  IsVouched-is_still_it :
      (pid : ℕ) (recorded : Option Text) (w : W)
      → IsVouched pid recorded w
      → is_still_it host pid recorded w ≡ true
  unfolding is_still_it pid_exists is_delivered same_start
  IsVouched-is_still_it pid (some recorded) w h = rw h (text_eq_refl recorded)
  IsVouched-is_still_it pid none w h = rw h refl

  spared :
      (line : Text) (w : W) (pid : ℕ) (recorded : Option Text)
      → parse_pid_line host line ≡ some (pid, recorded)
      → (pid ≡ 0) ⊎ ((pid ≡ os.process_id) ⊎ (is_still_it host pid recorded w ≡ false))
      → (p : ℕ) → ¬ Names line p w
  spared line w pid recorded e why p (r, e', nonzero, other, vouched) =
      ground (arith, e, e', why, IsVouched-is_still_it p r w vouched)

  pub kill_lines-Sweep :
      (ls : List Text) (w : W) → Sweep ls w (kill_lines host ls w).0 (kill_lines host ls w).1
  unfolding kill_lines
  kill_lines-Sweep [] w = done w
  kill_lines-Sweep (line ∷ ls) w = elim (Option-cases (parse_pid_line host line)) [
    | inl junk ↦
        rw (kill_lines, junk)
          (spare line ls w _ _ (λ p n. ground (arith, n.1, junk)) (kill_lines-Sweep ls w))
    | inr ((pid, recorded), e) ↦
        let next = kill_lines-Sweep ls w in
        elim (Bool-cases (pid == 0 || pid == os.process_id)) [
          | inl unsafe ↦
              rw (kill_lines, e, unsafe)
                (spare line ls w _ _ (spared line w pid recorded e (ground (arith, unsafe))) next)
          | inr safe ↦ elim (Bool-cases (is_still_it host pid recorded w)) [
            | inl same ↦
                rw (kill_lines, e, safe, same)
                  (kill line ls w _ pid _
                    (
                      recorded,
                      e,
                      ground (arith, safe),
                      ground (arith, safe),
                      is_still_it-IsVouched pid recorded w same,
                    )
                    (kill_lines-Sweep ls (killpg (as_pid_t pid) sigkill w)))
            | inr gone ↦
                rw (kill_lines, e, safe, gone)
                  (spare line ls w _ _ (spared line w pid recorded e (inr (inr gone))) next)
          ]
        ]
  ]

  -- The sweep of a job's pidfile calls `killpg`, with the pid cast to an i32, for each line that names a
  -- pid to kill, and for no other: the pid is neither 0 nor the supervisor's own, and the live process
  -- has the recorded start time, or, on a line without one, `kill(pid, 0)` returns 0. Without a pidfile
  -- it signals nothing.
  pub kill_recorded_browsers_lem :
      (pidfile : Text) (w : W)
      → let swept = kill_recorded_browsers host pidfile w in
        ((os.read_to_string pidfile w ≡ none) × (swept ≡ ([], w)))
        ⊎ ((contents : Text) × (os.read_to_string pidfile w ≡ some contents)
            × Sweep (lines contents) w swept.0 swept.1)
  unfolding kill_recorded_browsers
  kill_recorded_browsers_lem pidfile w = elim (Option-cases (os.read_to_string pidfile w)) [
    | inl absent ↦ inl (absent, rw (kill_recorded_browsers, absent) refl)
    | inr (contents, e) ↦
        inr (contents, e, rw (kill_recorded_browsers, e) (kill_lines-Sweep (lines contents) w))
  ]
