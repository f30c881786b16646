-- ===== src/Tests/Fetches.antt =====
-- An artifact is fetched, and one with another hash is refused.
use decent_render.Prelude.{◌≡◌, refl, false, some, [], codes, text_eq}
use decent_render.Os.{pass, join}
use decent_render.FileTree.{size}
use decent_render.Cache.{dir_size, walk_size, add_blocks}
use decent_render.Artifact.{
  hex_lower, hex_digit, receive, receive_into, is_over, download_to_file_hashed_capped,
  download_to_file_hashed, feed_tar, await_tar, verify_extracted_size_under,
  extract_tar_capped_under, extract_tar_capped,
}
use decent_render.Artifact.Download.{IsDownloaded, download_hashes_disk}
use decent_render.Runner.Artifact.{
  ensure_artifact, ensure_under, worker_root, fill, fetch, unpack, publish, rename_twice, prepare,
}
use decent_render.Runner.Artifact.Verified.{IsVerified, ensure_artifact-IsVerified}
use decent_render.Tests.Machine.{node, wire, wire-Flushes, on_disk, home}

downloaded :
    (download_to_file_hashed_capped wire
      (codes "u")
      (codes "/t")
      (codes "payloads")
      3
      (false, [])).0
    ≡ pass (codes "616263")
unfolding download_to_file_hashed_capped is_over receive_into receive hex_lower hex_digit
downloaded = refl

download_hashes_disk_example :
    IsDownloaded wire on_disk
      (codes "u")
      (codes "/t")
      3
      (codes "616263")
      (false, [])
      (download_to_file_hashed_capped wire
        (codes "u")
        (codes "/t")
        (codes "payloads")
        3
        (false, [])).1
download_hashes_disk_example =
    download_hashes_disk wire on_disk on_disk wire-Flushes (codes "u") (codes "/t")
      (codes "payloads") 3 (false, []) (codes "616263") downloaded

fetched :
    (ensure_artifact node
      (some home)
      (codes "payloads")
      (codes "616263")
      (codes "u")
      (codes "m")
      (false, [])).0
    ≡ pass (codes "/h/.decent-worker/payloads/616263")
unfolding ensure_artifact ensure_under worker_root join fill prepare fetch unpack publish
    rename_twice download_to_file_hashed download_to_file_hashed_capped is_over receive_into receive
    hex_lower hex_digit extract_tar_capped extract_tar_capped_under feed_tar await_tar
    verify_extracted_size_under dir_size walk_size add_blocks size text_eq
fetched = refl

ensure_artifact-IsVerified_example :
    IsVerified node on_disk on_disk wire-Flushes
      (some home)
      (codes "payloads")
      (codes "616263")
      (codes "u")
      (codes "m")
      (false, [])
      (codes "/h/.decent-worker/payloads/616263")
      (ensure_artifact node
        (some home)
        (codes "payloads")
        (codes "616263")
        (codes "u")
        (codes "m")
        (false, [])).1
ensure_artifact-IsVerified_example =
    ensure_artifact-IsVerified node on_disk on_disk wire-Flushes (some home) (codes "payloads")
      (codes "616263") (codes "u") (codes "m") (false, [])
      (codes "/h/.decent-worker/payloads/616263") fetched
