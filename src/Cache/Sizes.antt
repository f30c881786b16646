-- ===== src/Cache/Sizes.antt =====
-- The size that `dir_size` measures, against a plain recursion, and the cap
-- (crates/supervisor-core/src/cache.rs).
use decent_render.Prelude.{
  ℕ, zero, suc, ◌+◌, ◌*◌, ◌%◌, ◌^◌, ◌≤◌, ◌<◌, ◌≡◌, refl, leb, Bool-cases, Option-cases, ◌⊎◌, inl,
  inr, Option, none, some, Text, arith,
}
use decent_render.Prelude.Decimal.{parse, print, parse-print, u64_max}
use decent_render.Os.{Node, Nodes, unreadable, leaf, dir, nil, cons}
use decent_render.FileTree.{push_all, size, size_all, size-push_all}
use decent_render.Cache.{
  add_blocks, walk_size, dir_size, min_cache_bytes, max_cache_bytes, parse_cache_cap_override,
}

-- The disk usage of a tree: the blocks of every entry whose metadata can be read, 512 bytes each.
mutual
  pub usage : Node → ℕ
  usage unreadable = 0
  usage (leaf md) = md.blocks * 512
  usage (dir md kids) = md.blocks * 512 + usage_all kids

  pub usage_all : Nodes → ℕ
  usage_all nil = 0
  usage_all (cons n ns) = usage n + usage_all ns

usage-push_all : (ns stack : Nodes) → usage_all (push_all ns stack) ≡ usage_all ns + usage_all stack
unfolding push_all usage_all
usage-push_all nil stack = omega arith
usage-push_all (cons n ns) stack = omega (arith, usage-push_all ns (cons n stack))

walk_size_lem :
    (f : ℕ) (stack : Nodes) (total : ℕ)
    → size_all stack < f
    → total < 2 ^ 64
    → walk_size f stack total ≡ (total + usage_all stack) % 2 ^ 64
unfolding walk_size usage_all usage size_all size add_blocks
walk_size_lem zero stack n h b = elim h [ ]
walk_size_lem (suc f) nil n h b = omega arith
walk_size_lem (suc f) (cons unreadable stack) n h b =
    omega (arith, walk_size_lem f stack n (omega arith) b)
walk_size_lem (suc f) (cons (leaf md) stack) n h b =
    omega (arith, walk_size_lem f stack (add_blocks md n) (omega arith) (omega arith))
walk_size_lem (suc f) (cons (dir md kids) stack) n h b = omega (
  arith,
  walk_size_lem f (push_all kids stack) (add_blocks md n) (omega (arith, size-push_all kids stack))
      (omega arith),
  usage-push_all kids stack,
)

-- The explicit stack visits the whole tree, whatever its shape: the result is the disk usage of the
-- tree, in 64 bits.
pub dir_size_lem : (root : Node) → dir_size root ≡ usage root % 2 ^ 64
unfolding dir_size usage_all size_all
dir_size_lem root =
    omega (arith, walk_size_lem (suc (size root)) (cons root nil) 0 (omega arith) (omega arith))

-- The cap is never below the floor, and it is the default or the number that the override gives.
pub cap_bounds :
    (raw : Option Text)
    → (min_cache_bytes ≤ parse_cache_cap_override raw)
      × ((parse_cache_cap_override raw ≡ max_cache_bytes)
          ⊎ ((text : Text) × (raw ≡ some text)
              × (parse u64_max text ≡ some (parse_cache_cap_override raw))))
unfolding parse_cache_cap_override
cap_bounds none = (omega arith, inl refl)
cap_bounds (some text) = elim (Option-cases (parse u64_max text)) [
  | inl garbled ↦ (ground (arith, garbled), inl (ground (arith, garbled)))
  | inr (n, e) ↦ elim (Bool-cases (leb min_cache_bytes n)) [
    | inl fits ↦ (ground (arith, e, fits), inr (text, refl, ground (arith, e, fits)))
    | inr low ↦ (ground (arith, e, low), inl (ground (arith, e, low)))
  ]
]

-- A printed number of 64 bits at or above the floor is taken as the cap.
pub cap-print :
    (n : ℕ) → min_cache_bytes ≤ n → n ≤ u64_max → parse_cache_cap_override (some (print n)) ≡ n
unfolding parse_cache_cap_override
cap-print n floor fits = ground (arith, parse-print u64_max n fits)
