-- ===== src/Cache/Outcome.antt =====
-- One sweep of the caches, from the collected entries to its outcome
-- (crates/supervisor-core/src/cache.rs).
use decent_render.Prelude.{
  ℕ, ◌+◌, ◌^◌, ◌≤◌, ◌<◌, ◌≡◌, refl, ◌⊎◌, List, [], ◌∷◌, Text, length, All, arith,
}
use decent_render.Os.{Os}
use decent_render.Cache.{
  Entry, insert_entry, sort_by_last_use, sum_bytes, collect_all, sweep_caches,
}
use decent_render.Cache.Order.{All-insert_entry}
use decent_render.Cache.Eviction.{
  freed, removals, last_freed, total, Leaves, evict-accounts, evict-needed, evict-keeps,
}

total-insert_entry : (e : Entry) (es : List Entry) → total (insert_entry e es) ≡ e.bytes + total es
unfolding insert_entry
total-insert_entry e [] = refl
total-insert_entry e (f ∷ fs) = ground (arith, total-insert_entry e fs)

total-sort : (es : List Entry) → total (sort_by_last_use es) ≡ total es
unfolding sort_by_last_use
total-sort [] = refl
total-sort (e ∷ es) = omega (arith, total-insert_entry e (sort_by_last_use es), total-sort es)

sum_bytes_lem : (es : List Entry) → total es < 2 ^ 64 → sum_bytes es ≡ total es
unfolding sum_bytes
sum_bytes_lem [] h = refl
sum_bytes_lem (e ∷ es) h = omega (arith, sum_bytes_lem es)

All-sort {κ} : (P : Entry → Type κ) (es : List Entry) → All P es → All P (sort_by_last_use es)
unfolding sort_by_last_use
All-sort P [] h = tt
All-sort P (e ∷ es) (p, h) = All-insert_entry P e (sort_by_last_use es) p (All-sort P es h)

module _ {W : Type 0} (os : Os W) (root : Text) (cap : ℕ) (in_flight : List Text) (w : W) where
  abbrev found : List Entry
  found = collect_all os root w

  -- The outcome tells the truth, if the sizes sum up to less than 2^64: the entries found and their
  -- size, the number removed, and the size that is left; and without its last removal the size would be
  -- over the cap.
  pub sweep_caches-outcome :
      total found < 2 ^ 64
      → let (o, r) = sweep_caches os root cap in_flight w in
        (o.entries ≡ length found)
        × (o.bytes_before ≡ total found)
        × (o.bytes_after + freed r.log ≡ total found)
        × (o.evicted ≡ removals r.log)
        × ((o.evicted ≡ 0) ⊎ (cap < o.bytes_after + last_freed r.log))
  unfolding sweep_caches
  sweep_caches-outcome h =
      let covers : total (sort_by_last_use found) ≤ sum_bytes found =
        omega (arith, total-sort found, sum_bytes_lem found h) in
      let accounts =
        evict-accounts os cap in_flight (sort_by_last_use found) (sum_bytes found) 0 w covers in
      let needed =
        evict-needed os cap in_flight (sort_by_last_use found) (sum_bytes found) 0 w covers in
      ground (arith, sum_bytes_lem found h, accounts, needed)

  -- A path survives the sweep if every entry found is in flight or leaves it alone when removed.
  pub sweep_caches-keeps :
      (keep : Text)
      → All (Leaves os cap in_flight keep) found
      → os.exists keep (sweep_caches os root cap in_flight w).1.world ≡ os.exists keep w
  unfolding sweep_caches
  sweep_caches-keeps keep h =
      evict-keeps os cap in_flight keep (sort_by_last_use found) (sum_bytes found) 0 w
        (All-sort (Leaves os cap in_flight keep) found h)
