-- ===== src/Tests/Awake.antt =====
-- Two jobs whose guards overlap, on a machine where the second caffeinate does not start and the first
-- does not end by itself.
use decent_render.Prelude.{ℕ, zero, suc, ◌+◌, ◌≡◌, List, [], ◌∷◌, some, codes, arith}
use decent_render.Os.{Fallible, pass, fail}
use decent_render.Keepawake.{Caffeine, still_running, current_state}
use decent_render.Keepawake.Kill.{Clocked}
use decent_render.Keepawake.Counted.{honest}
use decent_render.Keepawake.Honest.{Action, job_begins, guard_dies, Awake, act_all, act_all-honest}

started_at : ℕ → Fallible ℕ × ℕ
started_at zero = (pass 7, 1)
started_at (suc n) = (fail (codes "no caffeinate"), suc (suc n))

-- The world is the clock.
abbrev mac : Caffeine ℕ
mac = record {
  spawn = started_at;
  kill = λ pid s w. w;
  try_wait = λ pid w. (still_running, w);
  wait = λ pid w. w;
  instant = λ w. w;
  sleep = λ d w. w + d;
}

mac_clocked : Clocked mac
mac_clocked = record { steady = λ pid w. omega arith; slept = λ d w. omega arith }

-- The first guard, which has the child, is released before the second.
abbrev overlap : List Action
overlap = job_begins ∷ job_begins ∷ guard_dies 1 ∷ []

abbrev none_alive : Awake ℕ
none_alive = record { counters = record { active = 0; failed = 0 }; live = []; world = 0 }

act_all-honest_example :
    (t : Awake ℕ) × (act_all mac overlap none_alive ≡ some t)
    × (current_state t.counters ≡ honest t.live)
act_all-honest_example = act_all-honest mac mac_clocked overlap 0 (omega arith)
