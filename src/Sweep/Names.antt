-- ===== src/Sweep/Names.antt =====
-- The names that `WorkDir::new` gives (crates/supervisor-core/src/purge.rs) are the names that the
-- sweep recognises (crates/supervisor-core/src/sweep.rs).
use decent_render.Prelude.{
  ℕ, ◌-◌, ◌≤◌, ◌<◌, ◌≡◌, ◌≢◌, refl, true, List, [], ◌∷◌, ◌++◌, some, Text, codes, length,
  length-append, get_or-append, All, split, split-append, split_one, length-split, starts_with,
  arith,
}
use decent_render.Prelude.Decimal.{print, parse, parse-print, print-All, u32_max, u64_max, IsDigit}
use decent_render.Os.{Os}
use decent_render.Purge.{workdir_name}
use decent_render.Sweep.{min_epoch_nanos, supervisor, owner, supervisor_owner, classify_dir_name}

no_dash : (s : Text) → All IsDigit s → All (λ c. c ≢ b'-') s
no_dash [] h = tt
no_dash (c ∷ s) h = (ground arith, no_dash s h.1)

split-print : (n : ℕ) → split b'-' (print n) ≡ print n ∷ []
split-print n = split_one b'-' (print n) (no_dash (print n) (print-All n))

-- The fields of a workdir's name stand behind the parts of its prefix.
split-workdir_name :
    {W : Type 0} (os : Os W) (prefix : Text) (nanos unique : ℕ)
    → split b'-' (workdir_name os prefix nanos unique)
      ≡ split b'-' prefix ++ print os.process_id ∷ print nanos ∷ print unique ∷ []
unfolding workdir_name
split-workdir_name os prefix nanos unique = rw (
  split-append b'-' prefix (print os.process_id ++ (b'-' ∷ (print nanos ++ (b'-' ∷ print unique)))),
  split-append b'-' (print os.process_id) (print nanos ++ (b'-' ∷ print unique)),
  split-append b'-' (print nanos) (print unique),
  split-print os.process_id,
  split-print nanos,
  split-print unique,
)

two_parts : (id : Text) → 2 ≤ length (split b'-' (codes "job-" ++ id))
unfolding split
two_parts id = omega (arith, length-split b'-' id)

has_job_prefix :
    {W : Type 0} (os : Os W) (job_id : Text) (nanos unique : ℕ)
    → starts_with (codes "job-") (workdir_name os (codes "job-" ++ job_id) nanos unique) ≡ true
unfolding workdir_name starts_with
has_job_prefix os job_id nanos unique = refl

owner_of_fields :
    (xs : List Text) (a b c : Text)
    → 2 ≤ length xs
    → supervisor_owner (xs ++ a ∷ b ∷ c ∷ [])
      ≡ owner (parse u32_max a) (parse u64_max b) (parse u64_max c)
unfolding supervisor_owner
owner_of_fields xs a b c h = ground (
  arith,
  length-append xs (a ∷ b ∷ c ∷ []),
  get_or-append xs (a ∷ b ∷ c ∷ []) (length (xs ++ a ∷ b ∷ c ∷ []) - 3) [],
  get_or-append xs (a ∷ b ∷ c ∷ []) (length (xs ++ a ∷ b ∷ c ∷ []) - 2) [],
  get_or-append xs (a ∷ b ∷ c ∷ []) (length (xs ++ a ∷ b ∷ c ∷ []) - 1) [],
)

-- The name of a workdir, for any job id, a sane clock and a counter of 64 bits, is classified as a
-- supervisor's with the process id that made it.
pub classify-workdir_name :
    {W : Type 0} (os : Os W) (job_id : Text) (nanos unique : ℕ)
    → 0 < os.process_id
    → os.process_id ≤ u32_max
    → min_epoch_nanos ≤ nanos
    → nanos ≤ u64_max
    → unique ≤ u64_max
    → classify_dir_name (workdir_name os (codes "job-" ++ job_id) nanos unique)
      ≡ supervisor os.process_id
unfolding classify_dir_name owner
classify-workdir_name os job_id nanos unique pos pid_fits sane nanos_fits unique_fits = ground (
  arith,
  has_job_prefix os job_id nanos unique,
  split-workdir_name os (codes "job-" ++ job_id) nanos unique,
  named,
)
  where
    named :
        supervisor_owner (
          split b'-' (codes "job-" ++ job_id)
          ++ print os.process_id ∷ print nanos ∷ print unique ∷ [])
        ≡ some os.process_id
    named =
        rw
          (
            owner_of_fields (split b'-' (codes "job-" ++ job_id)) (print os.process_id)
                (print nanos) (print unique) (two_parts job_id),
            parse-print u32_max os.process_id pid_fits,
            parse-print u64_max nanos nanos_fits,
            parse-print u64_max unique unique_fits,
          )
          (ground arith)
