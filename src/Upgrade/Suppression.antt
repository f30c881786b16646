-- ===== src/Upgrade/Suppression.antt =====
-- An unattended upgrade that did not replace the binary is not tried again for a day, and the package
-- manager runs for a newer version only (bins/decent/src/auto_upgrade.rs).
use decent_render.Prelude.{
  ◌⊎◌, ℕ, ◌+◌, ◌-◌, ◌<◌, ◌≡◌, refl, ◌∙◌, inl, inr, true, ◌++◌, some, Text, codes, arith, Bool-cases,
  Option-cases,
}
use decent_render.Os.{Fallible, pass, fail}
use decent_render.Upgrade.{
  AttemptOutcome, started, failed, already_current, AttemptRecord, ApplyDisposition, reconnect,
  UpgradeOutcome, current_already, swapped, Ledger, read_attempt, write_attempt, suppresses,
  suppression_of, suppression, settle, conclude, attempt, compare_versions, version_triplet, apply,
  retry_suppress_ms,
}
use decent_render.Upgrade.Fuse.{Keeps, write_attempt-read}

-- The record of an attempt that has begun.
abbrev pub begun : Text → ℕ → AttemptRecord
begun target_version at = record {
  target_version = target_version;
  attempted_at_ms = at;
  outcome = started;
  detail = codes "idle-safe connection handoff complete";
}

module _ {W : Type 0} (ledger : Ledger W) (config_dir : Text) where
  open ledger use {read}

  -- What the ledger holds suppresses the target from the time of the attempt on.
  abbrev IsFuse : Text → ℕ → W → Type 0
  IsFuse target at w =
      (r : AttemptRecord) × (read_attempt ledger config_dir w ≡ some r)
      × (r.target_version ≡ target)
      × (r.attempted_at_ms ≡ at)
      × (suppresses ledger r.outcome ≡ true)

  IsFuse-suppression :
      (target : Text) (at now_ms : ℕ) (w : W)
      → IsFuse target at w
      → now_ms < at + retry_suppress_ms
      → suppression ledger config_dir now_ms w ≡ some (target, retry_suppress_ms - (now_ms - at))
  unfolding suppression suppression_of
  IsFuse-suppression target at now_ms w (r, e, t, a, s) h = ground (arith, e, t, a, s, h)

  module _ (up : Text) (k : Keeps ledger config_dir up) where
    settle-IsFuse :
        (r : AttemptRecord) (w : W) (d : ApplyDisposition)
        → suppresses ledger r.outcome ≡ true
        → (settle ledger config_dir r w).0 ≡ pass d
        → IsFuse r.target_version r.attempted_at_ms (settle ledger config_dir r w).1
    unfolding settle
    settle-IsFuse r w d s h = elim (write_attempt-read ledger config_dir up k r w) [
      | inl (a, b) ↦ (r, ground (arith, a, b), refl, refl, s)
      | inr (m, a, b) ↦ absurd (ground (arith, h, a))
    ]

    conclude-IsFuse :
        (r : AttemptRecord) (result : Fallible UpgradeOutcome) (w : W) (o : AttemptOutcome)
        (detail : Text)
        → read_attempt ledger config_dir w ≡ some r
        → r.outcome ≡ started
        → (conclude ledger config_dir r result w).0 ≡ pass (reconnect o detail)
        → IsFuse r.target_version r.attempted_at_ms (conclude ledger config_dir r result w).1
    unfolding conclude suppresses
    conclude-IsFuse r (pass (swapped from to)) w o detail e s h = absurd (ground (arith, h))
    conclude-IsFuse r (pass (current_already current)) w o detail e s h =
        settle-IsFuse
          (record r {
            outcome = already_current;
            detail = codes "channel and installed binary are " ++ current;
          })
          w (reconnect o detail) refl h
    conclude-IsFuse r (fail error) w o detail e s h =
        elim (write_attempt-read ledger config_dir up k
          (record r { outcome = failed; detail = error }) w) [
            | inl (a, b) ↦ (record r { outcome = failed; detail = error }, b, refl, refl, refl)
            | inr (m, a, b) ↦ (r, b ∙ e, refl, refl, rw s refl)
          ]

    -- Behind the durable record, whatever ends without a new binary leaves a fuse, an error as well.
    conclude-IsFuse_failed :
        (r : AttemptRecord) (result : Fallible UpgradeOutcome) (w : W) (message : Text)
        → read_attempt ledger config_dir w ≡ some r
        → r.outcome ≡ started
        → (conclude ledger config_dir r result w).0 ≡ fail message
        → IsFuse r.target_version r.attempted_at_ms (conclude ledger config_dir r result w).1
    unfolding conclude suppresses settle
    conclude-IsFuse_failed r (pass (swapped from to)) w message e s h = absurd (ground (arith, h))
    conclude-IsFuse_failed r (pass (current_already current)) w message e s h =
        let r' : AttemptRecord = record r {
          outcome = already_current;
          detail = codes "channel and installed binary are " ++ current;
        } in
        elim (write_attempt-read ledger config_dir up k r' w) [
          | inl (a, b) ↦ absurd (ground (arith, h, a))
          | inr (m, a, b) ↦ (r, ground (arith, a, b, e), refl, refl, rw s refl)
        ]
    conclude-IsFuse_failed r (fail error) w message e s h = absurd (ground (arith, h))

    attempt-IsFuse_failed :
        (r : AttemptRecord) (upgrade : W → Fallible UpgradeOutcome × W) (w : W) (message : Text)
        → ((v : W)
            → read_attempt ledger config_dir (upgrade v).1 ≡ read_attempt ledger config_dir v)
        → r.outcome ≡ started
        → (write_attempt ledger config_dir r w).0 ≡ pass tt
        → (attempt ledger config_dir r upgrade w).0 ≡ fail message
        → IsFuse r.target_version r.attempted_at_ms (attempt ledger config_dir r upgrade w).1
    unfolding attempt
    attempt-IsFuse_failed r upgrade w message keeps s written h =
        elim (write_attempt-read ledger config_dir up k r w) [
          | inr (m, a, b) ↦ absurd (ground (arith, written, a))
          | inl (a, b) ↦
              let v = (write_attempt ledger config_dir r w).1 in
              rw (attempt, a)
                (conclude-IsFuse_failed r (upgrade v).0 (upgrade v).1 message (keeps v ∙ b) s
                  (ground (arith, h, a)))
        ]

    attempt-IsFuse :
        (r : AttemptRecord) (upgrade : W → Fallible UpgradeOutcome × W) (w : W) (o : AttemptOutcome)
        (detail : Text)
        → ((v : W)
            → read_attempt ledger config_dir (upgrade v).1 ≡ read_attempt ledger config_dir v)
        → r.outcome ≡ started
        → (attempt ledger config_dir r upgrade w).0 ≡ pass (reconnect o detail)
        → IsFuse r.target_version r.attempted_at_ms (attempt ledger config_dir r upgrade w).1
    unfolding attempt
    attempt-IsFuse r upgrade w o detail keeps s h =
        elim (write_attempt-read ledger config_dir up k r w) [
          | inr (m, a, b) ↦ absurd (ground (arith, h, a))
          | inl (a, b) ↦
              let v = (write_attempt ledger config_dir r w).1 in
              rw (attempt, a)
                (conclude-IsFuse r (upgrade v).0 (upgrade v).1 o detail (keeps v ∙ b) s
                  (ground (arith, h, a)))
        ]

    apply-IsFuse :
        (target_version current_version : Text) (at : ℕ) (upgrade : W → Fallible UpgradeOutcome × W)
        (w : W) (o : AttemptOutcome) (detail : Text)
        → ((v : W)
            → read_attempt ledger config_dir (upgrade v).1 ≡ read_attempt ledger config_dir v)
        → (apply ledger config_dir target_version current_version at upgrade w).0
          ≡ pass (reconnect o detail)
        → IsFuse target_version at
            (apply ledger config_dir target_version current_version at upgrade w).1
    unfolding apply suppresses
    apply-IsFuse target_version current_version at upgrade w o detail keeps h =
        let verdict =
          compare_versions ledger (version_triplet ledger target_version)
            (version_triplet ledger current_version) in
        elim (Option-cases verdict) [
          | inl garbled ↦
              rw (apply, garbled)
                (settle-IsFuse _ w (reconnect o detail) refl (ground (arith, h, garbled)))
          | inr (newer, e) ↦ elim (Bool-cases newer) [
            | inr old ↦
                rw (apply, e, old)
                  (settle-IsFuse _ w (reconnect o detail) refl (ground (arith, h, e, old)))
            | inl fresh ↦
                rw (apply, e, fresh)
                  (attempt-IsFuse _ upgrade w o detail keeps refl (ground (arith, h, e, fresh)))
          ]
        ]

    -- The upgrade ends without a new binary: it returns to the connection, or it fails though the
    -- target is later and the record of the attempt was written.
    abbrev pub EndsWithoutRestart : Text → Text → ℕ → (W → Fallible UpgradeOutcome × W) → W → Type 0
    EndsWithoutRestart target current at upgrade w =
        let result = (apply ledger config_dir target current at upgrade w).0 in
        ((o : AttemptOutcome) × (detail : Text) × (result ≡ pass (reconnect o detail)))
        ⊎ ((message : Text) × (result ≡ fail message)
            × (compare_versions ledger (version_triplet ledger target)
                  (version_triplet ledger current)
                ≡ some true)
            × ((write_attempt ledger config_dir (begun target at) w).0 ≡ pass tt))

    -- An upgrade that ends without a new binary is suppressed for a day from its start: where it returns
    -- to the connection, and where it returns an error though its attempt was recorded, as it does when a
    -- later write to the ledger fails, the target stays suppressed for what is left of the day. The file
    -- calls are assumed to behave as documented, and the package manager to leave the ledger alone.
    pub apply_suppresses :
        (target_version current_version : Text) (at now_ms : ℕ)
        (upgrade : W → Fallible UpgradeOutcome × W) (w : W)
        → ((v : W)
            → read_attempt ledger config_dir (upgrade v).1 ≡ read_attempt ledger config_dir v)
        → EndsWithoutRestart target_version current_version at upgrade w
        → now_ms < at + retry_suppress_ms
        → suppression ledger config_dir now_ms
            (apply ledger config_dir target_version current_version at upgrade w).1
          ≡ some (target_version, retry_suppress_ms - (now_ms - at))
    unfolding apply suppresses
    apply_suppresses target_version current_version at now_ms upgrade w keeps (inl (o, detail, h))
          soon =
        IsFuse-suppression target_version at now_ms
          (apply ledger config_dir target_version current_version at upgrade w).1
          (apply-IsFuse target_version current_version at upgrade w o detail keeps h) soon
    apply_suppresses target_version current_version at now_ms upgrade w keeps
          (inr (message, h, later, written)) soon =
        let fuse =
          attempt-IsFuse_failed (begun target_version at) upgrade w message keeps refl written
            (ground (arith, h, later)) in
        IsFuse-suppression target_version at now_ms
          (apply ledger config_dir target_version current_version at upgrade w).1
          (rw (apply, later) fuse) soon
