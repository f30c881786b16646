-- ===== src/Tests/Caches.antt =====
-- The cache sweep and the frame checks at work on concrete data.
use decent_render.Prelude.{
  ◌+◌, ◌%◌, ◌^◌, ◌<◌, ◌≡◌, ◌⊎◌, inl, refl, List, [], ◌∷◌, Text, codes, length, arith, text_eq,
  starts_with, All,
}
use decent_render.Os.{Node, leaf, dir, nil, cons, unreadable, join}
use decent_render.FileTree.{size, push_all}
use decent_render.Cache.{
  Entry, dir_size, is_protected, is_entry, in_flight_key, collect_all, sweep_caches,
}
use decent_render.Cache.Sizes.{usage, dir_size_lem}
use decent_render.Cache.Eviction.{freed, removals, last_freed, total, Leaves}
use decent_render.Cache.Outcome.{sweep_caches-outcome}
use decent_render.Tests.World.{file, disk}

abbrev cache_root : Text
cache_root = codes "/cache"

-- One payload on disk, with its marker.
abbrev full : List Text
full = codes "/cache/payloads/notes" ∷ codes "/cache/payloads/notes/decent-render-runner" ∷ []

abbrev rows : List Entry
rows =
    record { kind = codes "bundles"; sha = codes "b"; path = codes "/b"; bytes = 10; last_use = 9 }
    ∷ record {
      kind = codes "payloads";
      sha = codes "a";
      path = codes "/a";
      bytes = 20;
      last_use = 4;
    }
    ∷ []

abbrev small_cache : Node
small_cache = dir file (cons (leaf file) (cons unreadable nil))

dir_size_lem_example : dir_size small_cache ≡ usage small_cache % 2 ^ 64
dir_size_lem_example = dir_size_lem small_cache

bytes_found : total (collect_all disk cache_root full) ≡ 2_147_483_648
unfolding collect_all dir_size join text_eq starts_with is_entry size push_all
bytes_found = refl

small_total : total (collect_all disk cache_root full) < 2 ^ 64
small_total = omega (arith, bytes_found)

sweep_caches-outcome_example :
    let (o, r) = sweep_caches disk cache_root 5 [] full in
    (o.entries ≡ length (collect_all disk cache_root full))
    × (o.bytes_before ≡ total (collect_all disk cache_root full))
    × (o.bytes_after + freed r.log ≡ total (collect_all disk cache_root full))
    × (o.evicted ≡ removals r.log)
    × ((o.evicted ≡ 0) ⊎ (5 < o.bytes_after + last_freed r.log))
sweep_caches-outcome_example = sweep_caches-outcome disk cache_root 5 [] full small_total

in_use :
    All
      (Leaves disk 5 (codes "payloads:notes" ∷ []) (codes "/cache/payloads/notes"))
      (collect_all disk cache_root full)
unfolding collect_all join is_protected text_eq starts_with is_entry in_flight_key
in_use = (inl refl, tt)
