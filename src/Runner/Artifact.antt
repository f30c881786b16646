-- ===== src/Runner/Artifact.antt =====
-- How a job's artifacts get into the cache: `ensure_artifact` and what resolves the payload and the
-- browser with it (crates/supervisor-core/src/runner.rs).
pub mod Verified
use decent_render.Prelude.{
  ℕ, Bool, true, false, not, List, [], ◌∷◌, ◌++◌, Option, none, some, Text, codes, text_eq,
  if◌then◌else◌,
}
use decent_render.Os.{Os, IoResult, ok, err, Fallible, pass, fail, join}
use decent_render.Cache.{touch_last_use}
use decent_render.Protocol.{JobAssignMessage}
use decent_render.Artifact.{download_to_file_hashed, extract_tar_capped}
use decent_render.Runner.Host.{Host}
use decent_render.Runner.Browser.{browser_executable_in}

-- `worker_root`, given the value of `HOME`.
unfoldable pub worker_root : Option Text → Fallible Text
worker_root none = fail (codes "HOME is not set")
worker_root (some home) = pass (join home (codes ".decent-worker"))

unfoldable pub download_dir : Text → Text → Text
unfolding join
download_dir parent sha256 = join parent (codes "." ++ (sha256 ++ codes "-download"))

unfoldable pub sha_mismatch : Text → Text → Text → Text
sha_mismatch kind sha256 actual =
    kind ++ (codes " sha mismatch: expected " ++ (sha256 ++ (codes ", got " ++ actual)))

module _ {W : Type 0} (host : Host W) where
  open host use {os, net, create_dir_all, set_permissions, remove_file, rename, parent}

  -- `rename` through tokio, then once more through `std::fs`.
  unfoldable pub rename_twice : Text → Text → W → IoResult × W
  rename_twice from to w =
      let (first, w') = rename from to w in elim first [ ok ↦ (ok, w') | err e ↦ rename from to w' ]

  -- From the rename on: the old entry is removed, and `tmp` takes its place.
  unfoldable pub publish : Text → Text → W → Fallible Text × W
  unfolding rename_twice
  publish tmp dir w =
      let cleared = if os.exists dir w then (os.remove_dir_all dir w).1 else w in
      let (renamed, w') = rename_twice tmp dir cleared in
      elim renamed [ ok ↦ (pass dir, w') | err e ↦ (fail e.message, w') ]

  -- From the extraction on, the hash being right.
  unfoldable pub unpack : Text → Text → Text → Text → Text → W → Fallible Text × W
  unfolding publish
  unpack kind sha256 marker tmp dir w =
      let tar_path = join tmp (codes "artifact.tar.gz") in
      let (extracted, w') = extract_tar_capped net tar_path tmp kind w in
      let w'' = (remove_file tar_path w').1 in
      elim extracted [
        | fail message ↦ (fail message, w')
        | pass _ ↦ if os.exists (join tmp marker) w'' then publish tmp dir w'' else (
          fail (
              kind
              ++ (codes " "
                  ++ (sha256 ++ (codes " is missing " ++ (marker ++ codes " after extract"))))),
          (os.remove_dir_all tmp w'').1,
        )
      ]

  -- From the download on, into a new `tmp`.
  unfoldable pub fetch : Text → Text → Text → Text → Text → Text → W → Fallible Text × W
  unfolding unpack sha_mismatch
  fetch kind sha256 get_url marker tmp dir w =
      let (downloaded, w') =
        download_to_file_hashed net get_url (join tmp (codes "artifact.tar.gz")) kind w in
      elim downloaded [
        | fail message ↦ (fail message, w')
        | pass actual ↦
            if not (text_eq actual sha256)
            then (fail (sha_mismatch kind sha256 actual), (os.remove_dir_all tmp w').1)
            else unpack kind sha256 marker tmp dir w'
      ]

  -- The temp dir, emptied and made again.
  unfoldable pub prepare : Text → W → IoResult × W
  prepare tmp w = create_dir_all tmp (if os.exists tmp w then (os.remove_dir_all tmp w).1 else w)

  -- On a cache miss.
  unfoldable pub fill : Text → Text → Text → Text → Text → Text → W → Fallible Text × W
  unfolding prepare fetch
  fill root kind sha256 get_url marker dir w = elim (parent dir) [
    | none ↦ (fail (kind ++ codes " dir has no parent"), w)
    | some up ↦
        let (made_parent, w') = create_dir_all up w in
        let tmp = download_dir up sha256 in
        let (made_tmp, w'') = prepare tmp (set_permissions root 448 w').1 in
        elim made_parent [
          | err e ↦ (fail e.message, w')
          | ok ↦ elim made_tmp [
            | err e ↦ (fail e.message, w'')
            | ok ↦ fetch kind sha256 get_url marker tmp dir w''
          ]
        ]
  ]

  -- With the worker's root known.
  unfoldable pub ensure_under : Text → Text → Text → Text → Text → W → Fallible Text × W
  unfolding fill
  ensure_under root kind sha256 get_url marker w =
      let dir = join (join root kind) sha256 in
      if os.exists (join dir marker) w
      then (pass dir, (touch_last_use os dir w).1)
      else fill root kind sha256 get_url marker dir w

  unfoldable pub ensure_artifact : Option Text → Text → Text → Text → Text → W → Fallible Text × W
  unfolding worker_root ensure_under
  ensure_artifact home kind sha256 get_url marker w = elim (worker_root home) [
    | fail message ↦ (fail message, w)
    | pass root ↦ ensure_under root kind sha256 get_url marker w
  ]

  unfoldable pub ensure_payload : Option Text → JobAssignMessage → W → Fallible Text × W
  unfolding ensure_artifact
  ensure_payload home assign w =
      ensure_artifact home (codes "payloads") assign.payload_sha256 assign.payload_get_url
        (codes "decent-render-runner") w

  browser_of : Option Text → Option Text → Option Text → W → Fallible (Option Text) × W
  unfolding ensure_artifact
  browser_of home none url w = (pass none, w)
  browser_of home (some sha) none w = (pass none, w)
  browser_of home (some sha) (some url) w =
      let (found, w') = ensure_artifact home (codes "browsers") sha url (codes "executable") w in
      elim found [
        | fail message ↦ (fail message, w')
        | pass dir ↦ elim (browser_executable_in host dir w') [
          | fail message ↦ (fail message, w')
          | pass executable ↦ (pass (some executable), w')
        ]
      ]

  unfoldable pub ensure_browser : Option Text → JobAssignMessage → W → Fallible (Option Text) × W
  unfolding browser_of
  ensure_browser home assign w = browser_of home assign.browser_sha256 assign.browser_get_url w
