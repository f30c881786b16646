-- ===== src/Runner/Workdir.antt =====
-- The size of a job's working directory
-- (`workdir_bytes` of crates/supervisor-core/src/runner.rs), against a plain recursion.
use decent_render.Prelude.{
  ℕ, zero, suc, ◌+◌, ◌%◌, ◌^◌, ◌≤◌, ◌<◌, ◌≡◌, List, [], ◌∷◌, unwrap_or, arith,
}
use decent_render.Os.{Metadata, Node, Nodes, unreadable, leaf, dir, nil, cons}
use decent_render.FileTree.{size, size_all}

-- `total += meta.len()` for a file.
add_len : Metadata → ℕ → ℕ
add_len md total = (total + unwrap_or 0 md.file_len) % 2 ^ 64

-- The loop over one directory's entries: the directories among them are pushed.
scan_entries : Nodes → List Nodes → ℕ → List Nodes × ℕ
unfolding add_len
scan_entries nil stack total = (stack, total)
scan_entries (cons unreadable ns) stack total = scan_entries ns stack total
scan_entries (cons (leaf md) ns) stack total = scan_entries ns stack (add_len md total)
scan_entries (cons (dir md kids) ns) stack total = scan_entries ns (kids ∷ stack) total

-- The loop over the stack, on fuel.
walk_bytes : ℕ → List Nodes → ℕ → ℕ
unfolding scan_entries
walk_bytes zero stack total = total
walk_bytes (suc f) [] total = total
walk_bytes (suc f) (kids ∷ stack) total =
    walk_bytes f (scan_entries kids stack total).0 (scan_entries kids stack total).1

-- The fuel is one more than the number of entries; a root that cannot be listed counts nothing.
unfoldable pub workdir_bytes : Node → ℕ
unfolding walk_bytes
workdir_bytes unreadable = 0
workdir_bytes (leaf md) = 0
workdir_bytes (dir md kids) = walk_bytes (suc (size (dir md kids))) (kids ∷ []) 0

-- The lengths of all regular files below a list of entries, at any depth.
mutual
  pub apparent : Node → ℕ
  apparent unreadable = 0
  apparent (leaf md) = unwrap_or 0 md.file_len
  apparent (dir md kids) = apparent_all kids

  pub apparent_all : Nodes → ℕ
  apparent_all nil = 0
  apparent_all (cons n ns) = apparent n + apparent_all ns

pub contents : Node → Nodes
contents unreadable = nil
contents (leaf md) = nil
contents (dir md kids) = kids

stack_size : List Nodes → ℕ
stack_size [] = 0
stack_size (kids ∷ stack) = suc (size_all kids) + stack_size stack

stack_bytes : List Nodes → ℕ
stack_bytes [] = 0
stack_bytes (kids ∷ stack) = apparent_all kids + stack_bytes stack

scan_entries-size :
    (ns : Nodes) (stack : List Nodes) (total : ℕ)
    → stack_size (scan_entries ns stack total).0 ≤ size_all ns + stack_size stack
unfolding scan_entries stack_size size_all size
scan_entries-size nil stack total = omega arith
scan_entries-size (cons unreadable ns) stack total = omega (arith, scan_entries-size ns stack total)
scan_entries-size (cons (leaf md) ns) stack total =
    omega (arith, scan_entries-size ns stack (add_len md total))
scan_entries-size (cons (dir md kids) ns) stack total =
    omega (arith, scan_entries-size ns (kids ∷ stack) total)

-- What is counted and what is left on the stack stay the same in sum.
scan_entries-bytes :
    (ns : Nodes) (stack : List Nodes) (total : ℕ)
    → total < 2 ^ 64
    → let (s, t) = scan_entries ns stack total in
      (t < 2 ^ 64)
      × ((t + stack_bytes s) % 2 ^ 64 ≡ (total + (apparent_all ns + stack_bytes stack)) % 2 ^ 64)
unfolding scan_entries stack_bytes apparent_all apparent add_len
scan_entries-bytes nil stack total h = (h, omega arith)
scan_entries-bytes (cons unreadable ns) stack total h =
    let (b, e) = scan_entries-bytes ns stack total h in (b, omega (arith, e))
scan_entries-bytes (cons (leaf md) ns) stack total h =
    let (b, e) = scan_entries-bytes ns stack (add_len md total) (omega arith) in
    (b, omega (arith, e))
scan_entries-bytes (cons (dir md kids) ns) stack total h =
    let (b, e) = scan_entries-bytes ns (kids ∷ stack) total h in (b, omega (arith, e))

walk_bytes_lem :
    (f : ℕ) (stack : List Nodes) (total : ℕ)
    → stack_size stack < f
    → total < 2 ^ 64
    → walk_bytes f stack total ≡ (total + stack_bytes stack) % 2 ^ 64
unfolding walk_bytes stack_size stack_bytes
walk_bytes_lem zero stack total h b = elim h [ ]
walk_bytes_lem (suc f) [] total h b = omega arith
walk_bytes_lem (suc f) (kids ∷ stack) total h b =
    let (b', e) = scan_entries-bytes kids stack total b in
    omega (
      arith,
      e,
      walk_bytes_lem f (scan_entries kids stack total).0 (scan_entries kids stack total).1
          (omega (arith, scan_entries-size kids stack total)) b',
    )

-- The walk gives the sum of the lengths of all regular files below the directory, at any depth,
-- modulo 2^64; the fuel suffices.
pub workdir_bytes_lem : (root : Node) → workdir_bytes root ≡ apparent_all (contents root) % 2 ^ 64
unfolding workdir_bytes contents apparent_all stack_size stack_bytes size
workdir_bytes_lem unreadable = omega arith
workdir_bytes_lem (leaf md) = omega arith
workdir_bytes_lem (dir md kids) =
    omega
      (arith, walk_bytes_lem (suc (size (dir md kids))) (kids ∷ []) 0 (omega arith) (omega arith))
