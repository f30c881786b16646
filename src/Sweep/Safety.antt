-- ===== src/Sweep/Safety.antt =====
-- What the sweep removes, and what it leaves alone (crates/supervisor-core/src/sweep.rs).
use decent_render.Prelude.{
  ℕ, ◌+◌, ◌-◌, ◌≤◌, ◌<◌, ◌≡◌, ◌≢◌, ◌↔◌, ◌⊎◌, inl, inr, refl, Bool, true, false, List, [], ◌∷◌, ◌++◌,
  Option, none, some, Text, codes, arith, sym, ◌∙◌, Bool-cases, unwrap_or, Option-cases, All,
  starts_with,
}
use mathlib.Core.Bool.{false≢true}
use decent_render.Prelude.Decimal.{u32_max, u64_max}
use decent_render.Os.{Os, as_pid_t, esrch, join}
use decent_render.Purge.{workdir_name}
use decent_render.Sweep.{
  min_epoch_nanos, Classification, supervisor, runner, foreign, classify_dir_name, pid_is_dead,
  should_remove, sweep_entries, sweep_dir,
}
use decent_render.Sweep.Names.{classify-workdir_name}
use decent_render.Sweep.Mtime.{latest, newest_mtime_lem}

class-cases :
    (c : Classification) → ((pid : ℕ) × (c ≡ supervisor pid)) ⊎ ((c ≡ runner) ⊎ (c ≡ foreign))
class-cases (supervisor pid) = inl (pid, refl)
class-cases runner = inr (inl refl)
class-cases foreign = inr (inr refl)

not-true : {b : Bool} → ¬ (b ≡ true) → b ≡ false
not-true {b = true} h = absurd (h refl)
not-true {b = false} h = refl

-- A name that a listing can hold and that the sweep looks at.
abbrev pub IsJobEntry : Text → Type 0
IsJobEntry name = (starts_with (codes "job-") name ≡ true) × All (λ c. c ≢ b'/') name

-- No listed name holds a separator.
abbrev pub IsListing : List (Option Text) → Type 0
IsListing [] = Unit
IsListing (none ∷ names) = IsListing names
IsListing (some name ∷ names) = All (λ c. c ≢ b'/') name × IsListing names

not_foreign :
    (name : Text) → classify_dir_name name ≢ foreign → starts_with (codes "job-") name ≡ true
unfolding classify_dir_name
not_foreign name h = elim (Bool-cases (starts_with (codes "job-") name)) [
  | inl yes' ↦ yes'
  | inr no' ↦ absurd (h (ground (arith, no')))
]

module _ {W : Type 0} (os : Os W) where
  open os use {remove_dir_all, read_dir, tree, kill_0, now, process_id, exists}

  -- The rule by which a name is removed: another process's workdir whose owner `kill` reports
  -- missing, or a runner's workdir with nothing in it as new as the threshold.
  pub data Abandoned (base : Text) (current stale : ℕ) (name : Text) (w : W) : Type 0 where
    dead_owner :
        (pid : ℕ)
        → classify_dir_name name ≡ supervisor pid
        → pid ≢ process_id
        → kill_0 (as_pid_t pid) w ≡ esrch
        → Abandoned base current stale name w
    stale_runner :
        classify_dir_name name ≡ runner
        → stale ≤ current - latest (tree (join base name) w)
        → Abandoned base current stale name w

  -- The test of the sweep is that rule.
  pub should_remove_iff :
      (base : Text) (current stale : ℕ) (name : Text) (w : W)
      → (should_remove os base current stale name w ≡ true) ↔ Abandoned base current stale name w
  unfolding should_remove pid_is_dead
  should_remove_iff base current stale name w = (forth (class-cases (classify_dir_name name)), back)
    where
      forth :
          ((pid : ℕ) × (classify_dir_name name ≡ supervisor pid))
            ⊎ ((classify_dir_name name ≡ runner) ⊎ (classify_dir_name name ≡ foreign))
          → should_remove os base current stale name w ≡ true
          → Abandoned base current stale name w
      forth (inl (pid, e)) h = dead_owner pid e (ground arith) (ground arith)
      forth (inr (inl e)) h =
          stale_runner e (ground (arith, newest_mtime_lem (tree (join base name) w)))
      forth (inr (inr e)) h = absurd (ground arith)

      back : Abandoned base current stale name w → should_remove os base current stale name w ≡ true
      back (dead_owner pid e other dead) = ground arith
      back (stale_runner e old) = ground (arith, newest_mtime_lem (tree (join base name) w))

  -- The documented behaviour of `remove_dir_all`: it leaves the other entries of a directory alone.
  abbrev pub Spares : Text → Text → Type 0
  Spares base keep =
      (name : Text) (v : W)
      → IsJobEntry name
      → name ≢ keep
      → exists (join base keep) (remove_dir_all (join base name) v).1 ≡ exists (join base keep) v

  -- The documented behaviour of `read_dir`: it lists names, not paths.
  abbrev pub Lists : Text → Type 0
  Lists base = (v : W) (names : List (Option Text)) → read_dir base v ≡ some names → IsListing names

  swept-starts_with :
      (base : Text) (current stale : ℕ) (name : Text) (w : W)
      → should_remove os base current stale name w ≡ true
      → starts_with (codes "job-") name ≡ true
  unfolding should_remove
  swept-starts_with base current stale name w h = not_foreign name (λ e. ground (arith, e, h))

  module _ (base : Text) (current stale : ℕ) (keep : Text) where
    sweep_entries-keeps :
        ((v : W) → should_remove os base current stale keep v ≡ false)
        → Spares base keep
        → (names : List (Option Text)) (removed : ℕ) (w : W) → IsListing names
        → exists (join base keep) (sweep_entries os base current stale names removed w).1
          ≡ exists (join base keep) w
    unfolding sweep_entries
    sweep_entries-keeps spared frame [] removed w listing = refl
    sweep_entries-keeps spared frame (none ∷ names) removed w listing =
        sweep_entries-keeps spared frame names removed w listing
    sweep_entries-keeps spared frame (some name ∷ names) removed w (plain, listing) =
        let after = (remove_dir_all (join base name) w).1 in
        elim (Bool-cases (should_remove os base current stale name w)) [
          | inr kept ↦ rw kept (sweep_entries-keeps spared frame names removed w listing)
          | inl swept ↦
              let distinct : name ≢ keep = λ e. false≢true (sym (spared w) ∙ rw e at swept) in
              ground (
                arith,
                swept,
                frame name w (swept-starts_with base current stale name w swept, plain) distinct,
                sweep_entries-keeps spared frame names (removed + 1) after listing,
                sweep_entries-keeps spared frame names removed after listing,
              )
        ]

  -- A sweep leaves a directory that is not abandoned as it is, if removing one entry of `base` does
  -- not touch another and a listing holds plain names.
  pub sweep_dir_keeps :
      (base : Text) (stale : ℕ) (keep : Text) (w : W)
      → ((v : W) → ¬ Abandoned base (unwrap_or 0 (now w)) stale keep v)
      → Lists base
      → Spares base keep
      → exists (join base keep) (sweep_dir os base stale w).1 ≡ exists (join base keep) w
  unfolding sweep_dir
  sweep_dir_keeps base stale keep w live lists frame = elim (Option-cases (read_dir base w)) [
    | inl unlisted ↦ rw (unlisted, sweep_dir) refl
    | inr (names, listed) ↦
        rw (listed, sweep_dir)
          (sweep_entries-keeps base (unwrap_or 0 (now w)) stale keep
            (λ v. not-true (λ h. live v ((should_remove_iff base _ stale keep v).0 h))) frame names
            0 w (lists w names listed))
  ]

  -- No sweep touches a workdir that this process made under a sane clock: whatever the job id and
  -- the threshold, and whatever `kill` answers, if removing one entry of `base` does not touch
  -- another and a listing holds plain names.
  pub sweep_dir-own_workdir :
      (base : Text) (stale : ℕ) (job_id : Text) (nanos unique : ℕ) (w : W)
      → 0 < process_id
      → process_id ≤ u32_max
      → min_epoch_nanos ≤ nanos
      → nanos ≤ u64_max
      → unique ≤ u64_max
      → Lists base
      → Spares base (workdir_name os (codes "job-" ++ job_id) nanos unique)
      → let keep = workdir_name os (codes "job-" ++ job_id) nanos unique in
        exists (join base keep) (sweep_dir os base stale w).1 ≡ exists (join base keep) w
  sweep_dir-own_workdir base stale job_id nanos unique w pos pid_fits sane nanos_fits fits lists
        frame =
      sweep_dir_keeps base stale (workdir_name os (codes "job-" ++ job_id) nanos unique) w own lists
        frame
    where
      named :
          classify_dir_name (workdir_name os (codes "job-" ++ job_id) nanos unique)
          ≡ supervisor process_id
      named = classify-workdir_name os job_id nanos unique pos pid_fits sane nanos_fits fits

      own :
          (v : W)
          → ¬ Abandoned base
              (unwrap_or 0 (now w))
              stale
              (workdir_name os (codes "job-" ++ job_id) nanos unique)
              v
      own v (dead_owner pid e other dead) = other (ground (arith, named))
      own v (stale_runner e old) = cc (named)
