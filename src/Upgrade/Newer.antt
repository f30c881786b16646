-- ===== src/Upgrade/Newer.antt =====
-- When the package manager runs (bins/decent/src/auto_upgrade.rs).
use decent_render.Prelude.{
  ℕ, ◌<◌, ◌≡◌, refl, ◌⊎◌, inl, inr, true, Option, none, some, Text, arith, Bool-cases, Option-cases,
}
use decent_render.Os.{Fallible, Fallible-cases, pass}
use decent_render.Upgrade.{
  UpgradeOutcome, Ledger, write_attempt, attempt, compare_versions, version_triplet, is_newer,
  apply,
}
use decent_render.Upgrade.Suppression.{begun}

-- A later version: greater in the first of its three numbers that differs.
abbrev pub IsLater : ℕ × ℕ × ℕ → ℕ × ℕ × ℕ → Type 0
IsLater (a, b, c) (x, y, z) = (x < a) ⊎ (((a ≡ x) × (y < b)) ⊎ ((a ≡ x) × (b ≡ y) × (z < c)))

is_newer-IsLater : (v w : ℕ × ℕ × ℕ) → is_newer v w ≡ true → IsLater v w
unfolding is_newer
is_newer-IsLater (a, b, c) (x, y, z) h = ground (arith, h)

module _ {W : Type 0} (ledger : Ledger W) where
  newer_pair :
      (t c : Option (ℕ × ℕ × ℕ))
      → compare_versions ledger t c ≡ some true
      → (v : ℕ × ℕ × ℕ) × (w : ℕ × ℕ × ℕ) × (t ≡ some v) × (c ≡ some w) × IsLater v w
  unfolding compare_versions
  newer_pair none c h = absurd (ground (arith, h))
  newer_pair (some v) none h = absurd (ground (arith, h))
  newer_pair (some v) (some w) h = (v, w, refl, refl, is_newer-IsLater v w (ground (arith, h)))

  -- Either the package manager plays no part in what is done, or the target and the running version
  -- are exact versions, the target is the later one, and the record of the attempt was written before.
  pub apply_runs :
      (config_dir target_version current_version : Text) (at : ℕ)
      (upgrade other_upgrade : W → Fallible UpgradeOutcome × W) (w : W)
      → (apply ledger config_dir target_version current_version at upgrade w
          ≡ apply ledger config_dir target_version current_version at other_upgrade w)
        ⊎ ((target : ℕ × ℕ × ℕ) × (current : ℕ × ℕ × ℕ) × (version_triplet ledger target_version
              ≡ some target)
            × (version_triplet ledger current_version ≡ some current)
            × IsLater target current
            × ((write_attempt ledger config_dir (begun target_version at) w).0 ≡ pass tt))
  unfolding apply attempt
  apply_runs config_dir target_version current_version at upgrade other_upgrade w =
      let verdict =
        compare_versions ledger (version_triplet ledger target_version)
          (version_triplet ledger current_version) in
      elim (Option-cases verdict) [
        | inl garbled ↦ inl (rw (apply, garbled) refl)
        | inr (newer, e) ↦ elim (Bool-cases newer) [
          | inr old ↦ inl (rw (apply, e, old) refl)
          | inl fresh ↦
              elim (Fallible-cases
                (write_attempt ledger config_dir (begun target_version at) w).0) [
                  | inr (m, lost) ↦ inl (rw (apply, e, fresh, attempt, lost) refl)
                  | inl (u, kept) ↦
                      let (t, c, et, ec, later) =
                        newer_pair (version_triplet ledger target_version)
                          (version_triplet ledger current_version) (ground (arith, e, fresh)) in
                      inr (t, c, et, ec, later, kept)
                ]
        ]
      ]
