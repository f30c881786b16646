-- ===== src/Sweep/Retry.antt =====
-- The retry of recorded purge failures (crates/supervisor-core/src/sweep.rs).
use decent_render.Prelude.{
  ℕ, ◌+◌, ◌≡◌, refl, ◌∙◌, ◌⊎◌, inl, inr, false, List, [], ◌∷◌, none, Text, text_eq, text_eq_iff,
  Bool-cases,
}
use mathlib.Core.Path.{subst}
use decent_render.Os.{Os, IoError, IoResult, ok, err}
use decent_render.Purge.{PurgeFailure, clear_purge_failure}
use decent_render.Purge.Failures.{find, find-clear}
use decent_render.Sweep.{skips_retry, retry_failures}

result-cases : (r : IoResult) → (r ≡ ok) ⊎ ((e : IoError) × (r ≡ err e))
result-cases ok = inl refl
result-cases (err e) = inr (e, refl)

module _ {W : Type 0} (os : Os W) where
  open os use {remove_dir_all}

  -- The path was removed by the retry, and may be: its name is that of a workdir of this process or
  -- of a dead one.
  abbrev pub IsReclaimed : Text → Type 0
  IsReclaimed q = (v : W) × (skips_retry os q v ≡ false) × ((remove_dir_all q v).0 ≡ ok)

  -- A failure leaves the record only when its path is reclaimed; every other lookup stays as it was.
  pub retry_failures_lem :
      (fs : List PurgeFailure) (removed : ℕ) (failures : List PurgeFailure) (w : W) (q : Text)
      → let after = (retry_failures os fs removed failures w).1 in
        (find q after ≡ find q failures) ⊎ ((find q after ≡ none) × IsReclaimed q)
  unfolding retry_failures
  retry_failures_lem [] removed failures w q = inl refl
  retry_failures_lem (f ∷ fs) removed failures w q = elim (Bool-cases (skips_retry os f.path w)) [
    | inl skip ↦ rw skip (retry_failures_lem fs removed failures w q)
    | inr retry ↦ elim (result-cases (remove_dir_all f.path w).0) [
      | inl gone ↦
          rw (retry, gone)
            (reclaim
              (retry_failures_lem fs (removed + 1) (clear_purge_failure f.path failures)
                (remove_dir_all f.path w).1 q)
              retry gone)
      | inr (e, stays) ↦
          rw (retry, stays) (retry_failures_lem fs removed failures (remove_dir_all f.path w).1 q)
    ]
  ]
    where
      after : List PurgeFailure
      after =
          (retry_failures os fs (removed + 1) (clear_purge_failure f.path failures)
            (remove_dir_all f.path w).1).1

      reclaim :
          (find q after ≡ find q (clear_purge_failure f.path failures))
            ⊎ ((find q after ≡ none) × IsReclaimed q)
          → skips_retry os f.path w ≡ false
          → (remove_dir_all f.path w).0 ≡ ok
          → (find q after ≡ find q failures) ⊎ ((find q after ≡ none) × IsReclaimed q)
      reclaim (inr done) retry gone = inr done
      reclaim (inl same) retry gone = elim (Bool-cases (text_eq f.path q)) [
        | inr other ↦ inl (same ∙ find-clear f.path q failures ∙ rw other refl)
        | inl this ↦
            let path : f.path ≡ q = (text_eq_iff f.path q).0 this in
            inr (
              same ∙ find-clear f.path q failures ∙ rw this refl,
              subst (λ p. IsReclaimed p) path (w, retry, gone),
            )
      ]
