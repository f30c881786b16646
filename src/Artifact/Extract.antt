-- ===== src/Artifact/Extract.antt =====
-- The ceiling on an extracted tree (crates/supervisor-core/src/artifact_fetch.rs).
use decent_render.Prelude.{
  ℕ, ◌%◌, ◌^◌, ◌≤◌, ◌≡◌, refl, ◌⊎◌, inl, inr, true, false, List, some, Text, ltb, arith, Bool-cases,
  Option-cases,
}
use decent_render.Os.{IoResult-cases, Fallible-cases, pass}
use decent_render.Cache.{dir_size}
use decent_render.Cache.Sizes.{usage, dir_size_lem}
use decent_render.Artifact.{
  Net, Read, TarStatus, tar_exited, tar_wait_failed, feed_tar, await_tar,
  verify_extracted_size_under, extract_tar_capped_under,
}

TarStatus-cases :
    (s : TarStatus)
    → (s ≡ tar_wait_failed)
      ⊎ (((display : Text) × (s ≡ tar_exited true display))
          ⊎ ((display : Text) × (s ≡ tar_exited false display)))
TarStatus-cases tar_wait_failed = inl refl
TarStatus-cases (tar_exited true display) = inr (inl (display, refl))
TarStatus-cases (tar_exited false display) = inr (inr (display, refl))

module _ {W : Type 0} (net : Net W) where
  open net use {os, spawn_tar, open_file, wait_tar}

  -- Tar ran to a successful end, in the world that the extraction returns.
  abbrev pub IsExtracted : Text → ℕ → W → W → Type 0
  IsExtracted dest_dir ceiling before after =
      (display : Text) × ((wait_tar before).0 ≡ tar_exited true display)
      × ((wait_tar before).1 ≡ after)
      × (usage (os.tree dest_dir after) % 2 ^ 64 ≤ ceiling)

  await_tar_lem :
      (dest_dir kind : Text) (ceiling : ℕ) (w : W)
      → (await_tar net dest_dir kind ceiling w).0 ≡ pass tt
      → IsExtracted dest_dir ceiling w (await_tar net dest_dir kind ceiling w).1
  unfolding await_tar verify_extracted_size_under
  await_tar_lem dest_dir kind ceiling w h = elim (TarStatus-cases (wait_tar w).0) [
    | inl lost ↦ absurd (ground (arith, h, lost))
    | inr (inr (display, crashed)) ↦ absurd (ground (arith, h, crashed))
    | inr (inl (display, done)) ↦
        let tree = os.tree dest_dir (wait_tar w).1 in
        elim (Bool-cases (ltb ceiling (dir_size tree))) [
          | inl over ↦ absurd (ground (arith, h, done, over))
          | inr fits ↦
              (display, done, ground (arith, done), ground (arith, done, fits, dir_size_lem tree))
        ]
  ]

  -- An extraction that succeeds was done by a tar that was fed the tarball and exited with success, and
  -- the tree it left takes up no more than the ceiling, modulo 2^64.
  pub extract_tar_capped_under_bounded :
      (tarball dest_dir kind : Text) (ceiling : ℕ) (w : W)
      → (extract_tar_capped_under net tarball dest_dir kind ceiling w).0 ≡ pass tt
      → let after = (extract_tar_capped_under net tarball dest_dir kind ceiling w).1 in
        (reads : List Read) × (open_file tarball (spawn_tar dest_dir w).1 ≡ some reads)
        × IsExtracted dest_dir ceiling (feed_tar net tarball reads (spawn_tar dest_dir w).1).1 after
  unfolding extract_tar_capped_under
  extract_tar_capped_under_bounded tarball dest_dir kind ceiling w h =
      elim (IoResult-cases (spawn_tar dest_dir w).0) [
        | inr (e, refused) ↦ absurd (ground (arith, h, refused))
        | inl spawned ↦ elim (Option-cases (open_file tarball (spawn_tar dest_dir w).1)) [
          | inl missing ↦ absurd (ground (arith, h, spawned, missing))
          | inr (reads, opened) ↦
              let fed = feed_tar net tarball reads (spawn_tar dest_dir w).1 in
              elim (Fallible-cases fed.0) [
                | inr (m, broke) ↦ absurd (ground (arith, h, spawned, opened, broke))
                | inl (u, all) ↦
                    let ends =
                      await_tar_lem dest_dir kind ceiling fed.1
                        (ground (arith, h, spawned, opened, all)) in
                    (reads, opened, rw (extract_tar_capped_under, spawned, opened, all) ends)
              ]
        ]
      ]
