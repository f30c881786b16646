-- ===== src/Artifact.antt =====
-- crates/supervisor-core/src/artifact_fetch.rs: an artifact streamed to disk under a byte ceiling and
-- hashed on the way, and the extraction of a tarball under a ceiling of its own. The HTTP client,
-- SHA-256, `tar` and the asynchronous file calls are a parameter, `Net W`. What a server sends is a
-- list of what the body stream yields, one entry for each `stream.next()`; its end is the body's.
pub mod Hex
pub mod Download
pub mod Extract
use decent_render.Prelude.{
  ℕ, ◌+◌, ◌-◌, ◌*◌, ◌/◌, ◌%◌, Bool, true, false, List, [], ◌∷◌, ◌++◌, Option, none, some, Text,
  codes, ltb, length, if◌then◌else◌,
}
use decent_render.Prelude.Decimal.{print}
use decent_render.Os.{Os, IoResult, ok, err, Node, Fallible, pass, fail}
use decent_render.Cache.{dir_size}

-- One answer of the body stream: a chunk, a read error, or nothing within the read timeout.
pub data Delivery : Type 0 where
  chunk : Text → Delivery
  body_failed stalled : Delivery

pub data Response : Type 0 where
  request_failed non_2xx : Response
  answered : Option ℕ → List Delivery → Response

-- One read of a file: a block of at most a MiB, or an error.
pub data Read : Type 0 where
  block : Text → Read
  read_failed : Read

pub data TarStatus : Type 0 where
  tar_exited : Bool → Text → TarStatus
  tar_wait_failed : TarStatus

pub record Net (W : Type 0) : Type 0 where
  pub os : Os W
  -- `client.get(url).timeout(ARTIFACT_TOTAL_TIMEOUT).send()`; the total timeout ends a body with an
  -- error of its stream
  pub send : Text → W → Response × W
  -- the digest of all bytes that the hasher was updated with
  pub sha256 : Text → Text
  pub create_file : Text → W → IoResult × W
  -- `file.write_all(&chunk)` of tokio's file, which hands the chunk over: an error of the write itself
  -- is that of a later call
  pub append : Text → Text → W → IoResult × W
  -- `file.flush()`, behind the writes that were handed over
  pub flush : Text → W → IoResult × W
  pub remove_file : Text → W → IoResult × W
  pub create_dir_all : Text → W → IoResult × W
  pub rename : Text → Text → W → IoResult × W
  -- `std::fs::set_permissions`
  pub set_permissions : Text → ℕ → W → IoResult × W
  -- `Path::parent`
  pub parent : Text → Option Text
  -- `tar -xzf - -C <dir>` with a piped stdin
  pub spawn_tar : Text → W → IoResult × W
  -- the reads of a file up to its end
  pub open_file : Text → W → Option (List Read)
  pub feed : Text → W → IoResult × W
  -- `stdin.shutdown()`, then `child.wait()`
  pub wait_tar : W → TarStatus × W

abbrev pub artifact_max_bytes : ℕ
artifact_max_bytes = 2 * 1024 * 1024 * 1024

abbrev pub artifact_max_extracted_bytes : ℕ
artifact_max_extracted_bytes = 4 * 1024 * 1024 * 1024

unfoldable pub hex_digit : ℕ → ℕ
hex_digit n = if ltb n 10 then b'0' + n else b'a' + (n - 10)

-- `format!("{b:02x}")` for each byte.
unfoldable pub hex_lower : Text → Text
unfolding hex_digit
hex_lower [] = []
hex_lower (b ∷ digest) = hex_digit (b / 16) ∷ hex_digit (b % 16) ∷ hex_lower digest

over_ceiling : Text → ℕ → Text
over_ceiling kind max_bytes =
    kind ++ (codes " download exceeded the " ++ (print max_bytes ++ codes " byte artifact ceiling"))

module _ {W : Type 0} (net : Net W) where
  open net use {
    os, send, sha256, create_file, append, flush, remove_file, spawn_tar, open_file, feed, wait_tar,
  }

  -- The loop over the body: `hashed` is what the hasher was updated with. The error of the flush at its
  -- end is dropped, as `.ok()` does.
  unfoldable pub receive : Text → Text → ℕ → List Delivery → ℕ → Text → W → Fallible Text × W
  unfolding over_ceiling hex_lower
  receive kind dest max_bytes [] written hashed w =
      (pass (hex_lower (sha256 hashed)), (flush dest w).1)
  receive kind dest max_bytes (stalled ∷ body) written hashed w =
      (fail (kind ++ codes " download stalled: no body data for 60s"), w)
  receive kind dest max_bytes (body_failed ∷ body) written hashed w =
      (fail (kind ++ codes " body read failed"), w)
  receive kind dest max_bytes (chunk c ∷ body) written hashed w =
      let written' = written + length c in
      let (stored, w') = append dest c w in
      let rest = receive kind dest max_bytes body written' (hashed ++ c) w' in
      if ltb max_bytes written'
      then (fail (over_ceiling kind max_bytes), (remove_file dest w).1)
      else elim stored [
        | err e ↦ (fail (codes "write " ++ (kind ++ (codes " body to " ++ dest))), w')
        | ok ↦ rest
      ]

  -- What is done with the response, its `Content-Length` within the ceiling.
  unfoldable pub receive_into : Text → Text → ℕ → List Delivery → W → Fallible Text × W
  unfolding receive
  receive_into kind dest max_bytes body w =
      let (created, w') = create_file dest w in
      elim created [
        | err e ↦ (fail (codes "create temp artifact file " ++ dest), w')
        | ok ↦ receive kind dest max_bytes body 0 [] w'
      ]

  unfoldable pub is_over : Option ℕ → ℕ → Bool
  is_over none max_bytes = false
  is_over (some len) max_bytes = ltb max_bytes len

  lying_length : Text → Option ℕ → ℕ → Text
  lying_length kind none max_bytes = []
  lying_length kind (some len) max_bytes =
      kind
      ++ (codes " content-length "
          ++ (print len
              ++ (codes " exceeds the " ++ (print max_bytes ++ codes " byte artifact ceiling"))))

  unfoldable pub download_to_file_hashed_capped : Text → Text → Text → ℕ → W → Fallible Text × W
  unfolding is_over receive_into lying_length
  download_to_file_hashed_capped get_url dest kind max_bytes w =
      let (response, w') = send get_url w in
      elim response [
        | request_failed ↦ (fail (kind ++ codes " download request failed"), w')
        | non_2xx ↦ (fail (kind ++ codes " download returned non-2xx"), w')
        | answered len body ↦
            if is_over len max_bytes
            then (fail (lying_length kind len max_bytes), w')
            else receive_into kind dest max_bytes body w'
      ]

  unfoldable pub download_to_file_hashed : Text → Text → Text → W → Fallible Text × W
  unfolding download_to_file_hashed_capped
  download_to_file_hashed get_url dest kind w =
      download_to_file_hashed_capped get_url dest kind artifact_max_bytes w

  -- `verify_extracted_size_under`.
  unfoldable pub verify_extracted_size_under : Text → Text → ℕ → W → Fallible (Unit {0})
  verify_extracted_size_under dir kind ceiling w =
      let bytes = dir_size (os.tree dir w) in
      if ltb ceiling bytes
      then fail (
          kind
          ++ (codes " extracted "
              ++ (print bytes
                  ++ (codes " bytes, over the " ++ (print ceiling ++ codes " byte ceiling")))))
      else pass tt

  -- The loop that feeds tar: a write that fails ends it, and tar's status decides.
  unfoldable pub feed_tar : Text → List Read → W → Fallible (Unit {0}) × W
  feed_tar tarball [] w = (pass tt, w)
  feed_tar tarball (read_failed ∷ reads) w = (fail (codes "read verified tarball " ++ tarball), w)
  feed_tar tarball (block b ∷ reads) w =
      let (written, w') = feed b w in
      let rest = feed_tar tarball reads w' in elim written [ ok ↦ rest | err e ↦ (pass tt, w') ]

  -- What follows the feed.
  unfoldable pub await_tar : Text → Text → ℕ → W → Fallible (Unit {0}) × W
  unfolding verify_extracted_size_under
  await_tar dest_dir kind ceiling w =
      let (status, w') = wait_tar w in
      elim status [
        | tar_wait_failed ↦ (fail (codes "wait tar for " ++ (kind ++ codes " extract")), w')
        | tar_exited success display ↦
            if success
            then (verify_extracted_size_under dest_dir kind ceiling w', w')
            else (fail (kind ++ (codes " tar extract failed with " ++ display)), w')
      ]

  unfoldable pub extract_tar_capped_under : Text → Text → Text → ℕ → W → Fallible (Unit {0}) × W
  unfolding feed_tar await_tar
  extract_tar_capped_under tarball dest_dir kind ceiling w =
      let (spawned, w') = spawn_tar dest_dir w in
      elim spawned [
        | err e ↦ (fail (codes "failed to spawn tar for " ++ (kind ++ codes " extract")), w')
        | ok ↦ elim (open_file tarball w') [
          | none ↦ (fail (codes "open verified tarball " ++ tarball), w')
          | some reads ↦
              let (fed, w'') = feed_tar tarball reads w' in
              elim fed [
                | fail message ↦ (fail message, w'')
                | pass _ ↦ await_tar dest_dir kind ceiling w''
              ]
        ]
      ]

  unfoldable pub extract_tar_capped : Text → Text → Text → W → Fallible (Unit {0}) × W
  unfolding extract_tar_capped_under
  extract_tar_capped tarball dest_dir kind w =
      extract_tar_capped_under tarball dest_dir kind artifact_max_extracted_bytes w
