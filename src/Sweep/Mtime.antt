-- ===== src/Sweep/Mtime.antt =====
-- The walk of `newest_mtime` (crates/supervisor-core/src/sweep.rs) against a plain recursion.
use Prim.Native.Nat.{max}
use decent_render.Prelude.{ℕ, zero, suc, ◌<◌, ◌≡◌, unwrap_or, arith}
use decent_render.Os.{Metadata, Node, Nodes, unreadable, leaf, dir, nil, cons}
use decent_render.FileTree.{push_all, size, size_all, size-push_all}
use decent_render.Sweep.{newer, walk_newest, newest_mtime}

-- The newest modification time in a tree, the epoch where none can be read.
mutual
  pub latest : Node → ℕ
  latest unreadable = 0
  latest (leaf md) = unwrap_or 0 md.modified
  latest (dir md kids) = max (unwrap_or 0 md.modified) (latest_all kids)

  pub latest_all : Nodes → ℕ
  latest_all nil = 0
  latest_all (cons n ns) = max (latest n) (latest_all ns)

latest-push_all :
    (ns stack : Nodes) → latest_all (push_all ns stack) ≡ max (latest_all ns) (latest_all stack)
unfolding push_all latest_all
latest-push_all nil stack = omega arith
latest-push_all (cons n ns) stack = omega (arith, latest-push_all ns (cons n stack))

newer_lem : (md : Metadata) (n : ℕ) → newer md n ≡ max n (unwrap_or 0 md.modified)
unfolding newer
newer_lem md n = ground arith

walk_newest_lem :
    (f : ℕ) (stack : Nodes) (n : ℕ)
    → size_all stack < f
    → walk_newest f stack n ≡ max n (latest_all stack)
unfolding walk_newest latest_all latest size_all size
walk_newest_lem zero stack n h = elim h [ ]
walk_newest_lem (suc f) nil n h = omega arith
walk_newest_lem (suc f) (cons unreadable stack) n h = omega (arith, walk_newest_lem f stack n)
walk_newest_lem (suc f) (cons (leaf md) stack) n h =
    omega (arith, walk_newest_lem f stack (newer md n) (omega arith), newer_lem md n)
walk_newest_lem (suc f) (cons (dir md kids) stack) n h = omega (
  arith,
  walk_newest_lem f (push_all kids stack) (newer md n) (omega (arith, size-push_all kids stack)),
  newer_lem md n,
  latest-push_all kids stack,
)

-- The explicit stack visits the whole tree, whatever its shape: the result is the newest time in it.
pub newest_mtime_lem : (root : Node) → newest_mtime root ≡ latest root
unfolding newest_mtime latest_all size_all
newest_mtime_lem root =
    omega (arith, walk_newest_lem (suc (size root)) (cons root nil) 0 (omega arith))
