-- ===== src/Runner/Silence.antt =====
-- The timers of the select loop of `run_job_inner` (crates/supervisor-core/src/runner.rs), in
-- milliseconds. Each round of the loop makes `timeout(SILENCE_TIMEOUT, lines.next_line())` anew, and
-- the round ends with the first branch that is ready; the deadline and the sampler's interval are kept
-- across rounds. The sampler's first tick is due at once, and a tick that fires at `t` puts the next one
-- at `t + WORKDIR_SAMPLE_INTERVAL` (`MissedTickBehavior::Delay`). A timer fires when it is due.
use decent_render.Prelude.{ℕ, ◌+◌, ◌≤◌, ltb, if◌then◌else◌, arith}
use decent_render.Runner.{silence_timeout, workdir_sample_interval}

-- A round's start, the sampler's next tick and the deadline.
pub record Timers : Type 0 where
  pub now : ℕ
  pub sample_due : ℕ
  pub deadline_at : ℕ

-- When a round's timers are ready.
abbrev pub later : ℕ → ℕ → ℕ
later a b = if ltb a b then b else a

abbrev pub silence_at : Timers → ℕ
silence_at t = t.now + silence_timeout

abbrev pub sample_at : Timers → ℕ
sample_at t = later t.now t.sample_due

unfoldable pub armed : ℕ → ℕ → Timers
armed now limit = record { now = now; sample_due = now; deadline_at = now + limit }

-- A round that the loop goes on behind: a sample of the working directory that takes any time, or a
-- line, at any time at which no timer is overdue.
pub data Round : Timers → Timers → Type 0 where
  sample :
      (t : Timers) (took : ℕ)
      → sample_at t ≤ silence_at t
      → sample_at t ≤ t.deadline_at
      → Round t (record t {
        now = sample_at t + took;
        sample_due = sample_at t + workdir_sample_interval;
      })
  heard : (t : Timers) (at : ℕ) → t.now ≤ at → at ≤ sample_at t → Round t (record t { now = at })

pub data Rounds (t : Timers) : Timers → Type 0 where
  here : Rounds t t
  next : {u v : Timers} → Rounds t u → Round u v → Rounds t v

-- The silence branch is the round's first to be ready.
abbrev pub FiresSilence : Timers → Type 0
FiresSilence t = (silence_at t ≤ sample_at t) × (silence_at t ≤ t.deadline_at)

abbrev IsSampled : Timers → Type 0
IsSampled t = t.sample_due ≤ t.now + workdir_sample_interval

Round-IsSampled : {t u : Timers} → Round t u → IsSampled t → IsSampled u
Round-IsSampled (sample t took a b) h = ground arith
Round-IsSampled (heard t at a b) h = ground arith

Rounds-IsSampled : {t u : Timers} → IsSampled t → Rounds t u → IsSampled u
Rounds-IsSampled h here = h
Rounds-IsSampled h (next r s) = Round-IsSampled s (Rounds-IsSampled h r)

-- The silence timeout never fires, however long the runner says nothing: in each round the sampler
-- is due within two seconds, and its tick makes the timeout anew.
pub silence_never_fires :
    (start limit : ℕ) (t : Timers) → Rounds (armed start limit) t → ¬ FiresSilence t
unfolding armed
silence_never_fires start limit t r (a, b) =
    let bound = Rounds-IsSampled (omega arith) r in ground (arith, a, bound)
