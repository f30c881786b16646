-- ===== src/FileTree.antt =====
-- File trees walked with an explicit stack: what `newest_mtime` (crates/supervisor-core/src/sweep.rs)
-- and `dir_size` (crates/supervisor-core/src/cache.rs) share. The stack holds the subtrees that the
-- source's stack of paths names, the top first; the tree does not change during a walk.
use decent_render.Prelude.{ℕ, suc, ◌+◌, ◌≡◌, arith}
use decent_render.Os.{Node, Nodes, unreadable, leaf, dir, nil, cons}

-- `for entry in rd.flatten() { stack.push(entry.path()) }`.
unfoldable pub push_all : Nodes → Nodes → Nodes
push_all nil stack = stack
push_all (cons n ns) stack = push_all ns (cons n stack)

unfoldable mutual
  pub size : Node → ℕ
  size unreadable = 1
  size (leaf md) = 1
  size (dir md kids) = suc (size_all kids)

  pub size_all : Nodes → ℕ
  size_all nil = 0
  size_all (cons n ns) = size n + size_all ns

pub size-push_all : (ns stack : Nodes) → size_all (push_all ns stack) ≡ size_all ns + size_all stack
unfolding push_all size_all
size-push_all nil stack = omega arith
size-push_all (cons n ns) stack = omega (arith, size-push_all ns (cons n stack))
