-- ===== src/Runner/Artifact/Verified.antt =====
-- What is in the cache has the hash that it was asked for
-- (`ensure_artifact` of crates/supervisor-core/src/runner.rs).
use decent_render.Prelude.{
  false, ◌≡◌, refl, ◌⊎◌, inl, inr, true, Option, some, Text, codes, text_eq, text_eq_iff,
  if◌then◌else◌, arith, Bool-cases, Option-cases,
}
use decent_render.Os.{IoError, IoResult-cases, ok, err, Fallible, Fallible-cases, pass, join}
use decent_render.Cache.{touch_last_use}
use decent_render.Artifact.{download_to_file_hashed, extract_tar_capped, artifact_max_bytes}
use decent_render.Artifact.Download.{Flushes, IsDownloaded, download_hashes_disk}
use decent_render.Runner.Host.{Host}
use decent_render.Runner.Artifact.{
  worker_root, download_dir, rename_twice, publish, unpack, fetch, prepare, fill, ensure_under,
  ensure_artifact,
}

module _ {W : Type 0} (host : Host W) where
  open host use {os, net, create_dir_all, set_permissions, remove_file, rename, parent}

  abbrev pub tar_of : Text → Text
  tar_of tmp = join tmp (codes "artifact.tar.gz")

  -- The download of a fetch, and the extraction behind it.
  abbrev pub downloads : Text → Text → Text → W → Fallible Text × W
  downloads kind get_url tmp w = download_to_file_hashed net get_url (tar_of tmp) kind w

  abbrev pub extracts : Text → Text → W → Fallible (Unit {0}) × W
  extracts kind tmp w = extract_tar_capped net (tar_of tmp) tmp kind w

  -- The first rename succeeded, or it failed and the second one succeeded right behind it.
  abbrev pub IsRenamed : Text → Text → W → W → Type 0
  IsRenamed from to w after =
      let (first, w') = rename from to w in
      let (second, w'') = rename from to w' in
      ((first ≡ ok) × (after ≡ w'))
      ⊎ ((e : IoError) × (first ≡ err e) × (second ≡ ok) × (after ≡ w''))

  -- A fetch whose result was published: the download had the hash asked for, the tarball was
  -- extracted behind it, its marker was there, what stood at its place was removed, and the directory
  -- was renamed into it.
  abbrev pub IsPublished : Text → Text → Text → Text → Text → Text → W → W → Type 0
  IsPublished kind sha256 get_url marker tmp dir before after =
      let got = downloads kind get_url tmp before in
      let unpacked = (remove_file (tar_of tmp) (extracts kind tmp got.1).1).1 in
      (got.0 ≡ pass sha256)
      × ((extracts kind tmp got.1).0 ≡ pass tt)
      × (os.exists (join tmp marker) unpacked ≡ true)
      × IsRenamed tmp dir
          (if os.exists dir unpacked then (os.remove_dir_all dir unpacked).1 else unpacked) after

  rename_twice_lem :
      (from to : Text) (w : W)
      → (rename_twice host from to w).0 ≡ ok
      → IsRenamed from to w (rename_twice host from to w).1
  unfolding rename_twice
  rename_twice_lem from to w h = elim (IoResult-cases (rename from to w).0) [
    | inl first ↦ inl (first, ground (arith, first))
    | inr (e, failed) ↦ inr (e, failed, ground (arith, h, failed), ground (arith, failed))
  ]

  publish_lem :
      (tmp dir : Text) (w : W) (path : Text)
      → (publish host tmp dir w).0 ≡ pass path
      → (path ≡ dir)
        × IsRenamed tmp dir
            (if os.exists dir w then (os.remove_dir_all dir w).1 else w)
            (publish host tmp dir w).1
  unfolding publish
  publish_lem tmp dir w path h =
      let cleared = if os.exists dir w then (os.remove_dir_all dir w).1 else w in
      elim (IoResult-cases (rename_twice host tmp dir cleared).0) [
        | inr (e, failed) ↦ absurd (ground (arith, h, failed))
        | inl renamed ↦ (
          ground (arith, h, renamed),
          rw (publish, renamed) (rename_twice_lem tmp dir cleared renamed),
        )
      ]

  fetch_lem :
      (kind sha256 get_url marker tmp dir : Text) (w : W) (path : Text)
      → (fetch host kind sha256 get_url marker tmp dir w).0 ≡ pass path
      → (path ≡ dir)
        × IsPublished kind sha256 get_url marker tmp dir w
            (fetch host kind sha256 get_url marker tmp dir w).1
  unfolding fetch unpack
  fetch_lem kind sha256 get_url marker tmp dir w path h =
      let got = downloads kind get_url tmp w in
      let unpacked = (remove_file (tar_of tmp) (extracts kind tmp got.1).1).1 in
      elim (Fallible-cases got.0) [
        | inr (m, failed) ↦ absurd (ground (arith, h, failed))
        | inl (actual, came) ↦ elim (Bool-cases (text_eq actual sha256)) [
          | inr differs ↦ absurd (ground (arith, h, came, differs))
          | inl same ↦ elim (Fallible-cases (extracts kind tmp got.1).0) [
            | inr (m, broke) ↦ absurd (ground (arith, h, came, same, broke))
            | inl (u, out) ↦ elim (Bool-cases (os.exists (join tmp marker) unpacked)) [
              | inr missing ↦ absurd (ground (arith, h, came, same, out, missing))
              | inl there ↦
                  let (at, moved) =
                    publish_lem tmp dir unpacked path (ground (arith, h, came, same, out, there)) in
                  (
                    at,
                    (
                      ground (arith, came, text_eq_iff actual sha256, same),
                      out,
                      there,
                      rw (fetch, came, same, unpack, out, there) moved,
                    ),
                  )
            ]
          ]
        ]
      ]

  -- The world with the temp dir made, where the download starts.
  abbrev pub ready_world : Text → Text → Text → W → W
  ready_world root up sha256 w =
      (prepare host (download_dir up sha256) (set_permissions root 448 (create_dir_all up w).1).1).1

  fill_lem :
      (root kind sha256 get_url marker dir : Text) (w : W) (path : Text)
      → (fill host root kind sha256 get_url marker dir w).0 ≡ pass path
      → (path ≡ dir)
        × (up : Text) × (parent dir ≡ some up)
        × IsPublished kind sha256 get_url marker
            (download_dir up sha256)
            dir
            (ready_world root up sha256 w)
            (fill host root kind sha256 get_url marker dir w).1
  unfolding fill
  fill_lem root kind sha256 get_url marker dir w path h = elim (Option-cases (parent dir)) [
    | inl top ↦ absurd (ground (arith, h, top))
    | inr (up, e) ↦
        let made = create_dir_all up w in
        let tmp = download_dir up sha256 in
        let prepared = prepare host tmp (set_permissions root 448 made.1).1 in
        elim (IoResult-cases made.0) [
          | inr (m, refused) ↦ absurd (ground (arith, h, e, refused))
          | inl fine ↦ elim (IoResult-cases prepared.0) [
            | inr (m, refused) ↦ absurd (ground (arith, h, e, fine, refused))
            | inl ready ↦
                let (at, published) =
                  fetch_lem kind sha256 get_url marker tmp dir prepared.1 path
                    (ground (arith, h, e, fine, ready)) in
                (at, up, e, rw (fill, e, fine, ready) published)
          ]
        ]
  ]

  module _ (given on_disk : Text → W → Text) (a : Flushes net given on_disk) where
    -- What a fetched or cached entry is.
    abbrev pub IsVerified : Option Text → Text → Text → Text → Text → W → Text → W → Type 0
    IsVerified home kind sha256 get_url marker w path after =
        (root : Text) × (worker_root home ≡ pass root)
        × (path ≡ join (join root kind) sha256)
        × (((os.exists (join path marker) w ≡ true) × (after ≡ (touch_last_use os path w).1))
            ⊎ ((os.exists (join path marker) w ≡ false)
                × (up : Text) × (parent path ≡ some up)
                × IsDownloaded net on_disk get_url (tar_of (download_dir up sha256))
                    artifact_max_bytes sha256 (ready_world root up sha256 w)
                    (downloads kind get_url (download_dir up sha256)
                      (ready_world root up sha256 w)).1
                × IsPublished kind sha256 get_url marker (download_dir up sha256) path
                    (ready_world root up sha256 w) after))

    -- A path that `ensure_artifact` returns is the entry of that kind and hash under the worker's root.
    -- Either it was in the cache with its marker, and only its last use is written; or a body came whole
    -- from the server whose hash is the one asked for and which stays within the download's ceiling, and
    -- only then the tarball was extracted, its marker was found, and it was renamed into place. That body
    -- is what was on disk, unless the flush of the file failed, which the code does not look at. The file
    -- calls are assumed to behave as tokio documents them.
    pub ensure_artifact-IsVerified :
        (home : Option Text) (kind sha256 get_url marker : Text) (w : W) (path : Text)
        → (ensure_artifact host home kind sha256 get_url marker w).0 ≡ pass path
        → IsVerified home kind sha256 get_url marker w path
            (ensure_artifact host home kind sha256 get_url marker w).1
    unfolding ensure_artifact ensure_under download_to_file_hashed
    ensure_artifact-IsVerified home kind sha256 get_url marker w path h =
        elim (Fallible-cases (worker_root home)) [
          | inr (m, homeless) ↦ absurd (ground (arith, h, homeless))
          | inl (root, found) ↦
              let dir = join (join root kind) sha256 in
              elim (Bool-cases (os.exists (join dir marker) w)) [
                | inl hit ↦
                    let at : path ≡ dir = ground (arith, h, found, hit) in
                    (
                      root,
                      found,
                      at,
                      inl (rw at hit, rw (at, ensure_artifact, found, ensure_under, hit) refl),
                    )
                | inr miss ↦
                    let (at, up, e, published) =
                      fill_lem root kind sha256 get_url marker dir w path
                        (ground (arith, h, found, miss)) in
                    let tmp = download_dir up sha256 in
                    let whole =
                      download_hashes_disk net given on_disk a get_url (tar_of tmp) kind
                        artifact_max_bytes (ready_world root up sha256 w) sha256 published.0 in
                    (
                      root,
                      found,
                      at,
                      inr (
                          rw (at, ensure_artifact, found, ensure_under, miss)
                            (refl, up, e, whole, published)),
                    )
              ]
        ]
