-- ===== src/Upgrade/Fuse.antt =====
-- The attempt ledger as a fuse: what it holds when an unattended upgrade has not replaced the binary
-- (bins/decent/src/auto_upgrade.rs).
use decent_render.Prelude.{ℕ, ◌≡◌, ◌≢◌, ◌∙◌, ◌⊎◌, inl, inr, [], ◌∷◌, ◌++◌, some, Text, arith}
use decent_render.Os.{IoResult-cases, ok, Fallible-cases, pass, fail}
use decent_render.Upgrade.{
  AttemptRecord, Ledger, state_path, tmp_path, set_mode, replace, write_into, atomic_private_write,
  read_attempt, write_attempt,
}

module _ {W : Type 0} (ledger : Ledger W) (config_dir : Text) where
  open ledger use {
    os, create_dir_all, set_permissions, rename, remove_file, parent, read, to_vec_pretty,
    from_slice,
  }

  abbrev state_file : Text
  state_file = state_path config_dir

  -- The documented behaviour of the file calls on the state file and its temp file, which are two
  -- files: what is written is read, a rename moves it or leaves both files, no other call touches the
  -- state file; and what serde writes, with a line feed behind it, it reads.
  pub record Keeps (up : Text) : Type 0 where
    pub up_is : parent (state_path config_dir) ≡ some up
    pub dirs :
        (w : W)
        → read (state_path config_dir) (create_dir_all up w).1 ≡ read (state_path config_dir) w
    pub modes : (p q : Text) (m : ℕ) (w : W) → read q (set_permissions p m w).1 ≡ read q w
    pub writes :
        (bytes : Text) (w : W)
        → (os.write (tmp_path ledger up (state_path config_dir)) bytes w).0 ≡ ok
        → read
            (tmp_path ledger up (state_path config_dir))
            (os.write (tmp_path ledger up (state_path config_dir)) bytes w).1
          ≡ some bytes
    pub spares :
        (bytes : Text) (w : W)
        → read
            (state_path config_dir)
            (os.write (tmp_path ledger up (state_path config_dir)) bytes w).1
          ≡ read (state_path config_dir) w
    pub moves :
        (w : W)
        → (rename (tmp_path ledger up (state_path config_dir)) (state_path config_dir) w).0 ≡ ok
        → read
            (state_path config_dir)
            (rename (tmp_path ledger up (state_path config_dir)) (state_path config_dir) w).1
          ≡ read (tmp_path ledger up (state_path config_dir)) w
    pub stays :
        (w : W)
        → (rename (tmp_path ledger up (state_path config_dir)) (state_path config_dir) w).0 ≢ ok
        → read
            (state_path config_dir)
            (rename (tmp_path ledger up (state_path config_dir)) (state_path config_dir) w).1
          ≡ read (state_path config_dir) w
    pub removes :
        (w : W)
        → read
            (state_path config_dir)
            (remove_file (tmp_path ledger up (state_path config_dir)) w).1
          ≡ read (state_path config_dir) w
    pub reads :
        (r : AttemptRecord) (bytes : Text)
        → to_vec_pretty r ≡ pass bytes
        → from_slice (bytes ++ b'\n' ∷ []) ≡ some r

  module _ (up : Text) (k : Keeps up) where
    replace_lem :
        (bytes : Text) (w : W)
        → read (tmp_path ledger up state_file) w ≡ some bytes
        → let after = replace ledger (tmp_path ledger up state_file) state_file w in
          ((after.0 ≡ pass tt) × (read state_file after.1 ≡ some bytes))
          ⊎ ((m : Text) × (after.0 ≡ fail m) × (read state_file after.1 ≡ read state_file w))
    unfolding replace set_mode
    replace_lem bytes w h =
        let tmp = tmp_path ledger up state_file in
        let w' = (set_permissions tmp 384 w).1 in
        elim (IoResult-cases (rename tmp state_file w').0) [
          | inl moved ↦ inl (
            ground (arith, moved),
            ground (
              arith,
              moved,
              k.modes state_file state_file 384 (rename tmp state_file w').1,
              k.moves w' moved,
              k.modes tmp tmp 384 w,
              h,
            ),
          )
          | inr (e, stuck) ↦ inr (
            e.message,
            ground (arith, stuck),
            ground (
              arith,
              stuck,
              k.removes (rename tmp state_file w').1,
              k.stays w' (λ q. cc),
              k.modes tmp state_file 384 w,
            ),
          )
        ]

    -- A write is all or nothing.
    atomic_lem :
        (bytes : Text) (w : W)
        → let after = atomic_private_write ledger state_file bytes w in
          ((after.0 ≡ pass tt) × (read state_file after.1 ≡ some bytes))
          ⊎ ((m : Text) × (after.0 ≡ fail m) × (read state_file after.1 ≡ read state_file w))
    unfolding atomic_private_write write_into set_mode
    atomic_lem bytes w =
        let tmp = tmp_path ledger up state_file in
        let made = create_dir_all up w in
        let w' = (set_permissions up 448 made.1).1 in
        let written = os.write tmp bytes w' in
        let same : read state_file w' ≡ read state_file w =
          k.modes up state_file 448 made.1 ∙ k.dirs w in
        elim (IoResult-cases made.0) [
          | inr (e, refused) ↦ inr (
            e.message,
            ground (arith, k.up_is, refused),
            ground (arith, k.up_is, refused, k.dirs w),
          )
          | inl fine ↦ elim (IoResult-cases written.0) [
            | inr (e, broke) ↦ inr (
              e.message,
              ground (arith, k.up_is, fine, broke),
              ground (arith, k.up_is, fine, broke, k.removes written.1, k.spares bytes w', same),
            )
            | inl stored ↦ elim (replace_lem bytes written.1 (k.writes bytes w' stored)) [
              | inl (a, b) ↦ inl (
                ground (arith, k.up_is, fine, stored, a),
                ground (arith, k.up_is, fine, stored, b),
              )
              | inr (m, a, b) ↦ inr (
                m,
                ground (arith, k.up_is, fine, stored, a),
                ground (arith, k.up_is, fine, stored, b, k.spares bytes w', same),
              )
            ]
          ]
        ]

    -- The ledger holds the record that was written, or what it held before where the write failed.
    pub write_attempt-read :
        (r : AttemptRecord) (w : W)
        → let after = write_attempt ledger config_dir r w in
          ((after.0 ≡ pass tt) × (read_attempt ledger config_dir after.1 ≡ some r))
          ⊎ ((m : Text) × (after.0 ≡ fail m)
              × (read_attempt ledger config_dir after.1 ≡ read_attempt ledger config_dir w))
    unfolding write_attempt read_attempt
    write_attempt-read r w = elim (Fallible-cases (to_vec_pretty r)) [
      | inr (m, bad) ↦ inr (m, ground (arith, bad), ground (arith, bad))
      | inl (bytes, good) ↦ elim (atomic_lem (bytes ++ b'\n' ∷ []) w) [
        | inl (a, b) ↦ inl (ground (arith, good, a), ground (arith, good, b, k.reads r bytes good))
        | inr (m, a, b) ↦ inr (m, ground (arith, good, a), ground (arith, good, b))
      ]
    ]
