-- ===== src/Cache/Order.antt =====
-- The sweep's LRU order: sorted by last use, with the entries it was given
-- (crates/supervisor-core/src/cache.rs).
use mathlib.Core.List.{Perm}
use mathlib.Core.List.Perm
use decent_render.Prelude.{◌≤◌, List, [], ◌∷◌, All, arith, Bool-cases, leb, leb→le, inl, inr}
use decent_render.Cache.{Entry, insert_entry, sort_by_last_use}

-- Oldest last use first.
abbrev pub IsSorted : List Entry → Type 0
IsSorted [] = Unit
IsSorted (e ∷ es) = All (λ f. e.last_use ≤ f.last_use) es × IsSorted es

pub All-insert_entry {κ} :
    (P : Entry → Type κ) (e : Entry) (es : List Entry) → P e → All P es → All P (insert_entry e es)
unfolding insert_entry
All-insert_entry P e [] p h = (p, tt)
All-insert_entry P e (f ∷ fs) p h = elim (Bool-cases (leb e.last_use f.last_use)) [
  | inl first ↦ rw first (p, h)
  | inr later ↦ rw later (h.0, All-insert_entry P e fs p h.1)
]

All-older :
    (e f : Entry) (fs : List Entry)
    → e.last_use ≤ f.last_use
    → All (λ g. f.last_use ≤ g.last_use) fs
    → All (λ g. e.last_use ≤ g.last_use) fs
All-older e f [] h a = tt
All-older e f (g ∷ gs) h a = (omega arith, All-older e f gs h a.1)

insert_entry-IsSorted : (e : Entry) (es : List Entry) → IsSorted es → IsSorted (insert_entry e es)
unfolding insert_entry
insert_entry-IsSorted e [] s = (tt, tt)
insert_entry-IsSorted e (f ∷ fs) s = elim (Bool-cases (leb e.last_use f.last_use)) [
  | inl first ↦ rw first (
    (leb→le e.last_use f.last_use first, All-older e f fs (leb→le e.last_use f.last_use first) s.0),
    s,
  )
  | inr later ↦ rw later (
    All-insert_entry (λ g. f.last_use ≤ g.last_use) e fs (ground arith) s.0,
    insert_entry-IsSorted e fs s.1,
  )
]

insert_entry-perm : (e : Entry) (es : List Entry) → Perm (insert_entry e es) (e ∷ es)
unfolding insert_entry
insert_entry-perm e [] = Perm.refl (e ∷ [])
insert_entry-perm e (f ∷ fs) = elim (Bool-cases (leb e.last_use f.last_use)) [
  | inl first ↦ rw first (Perm.refl (e ∷ f ∷ fs))
  | inr later ↦ rw later (Perm.trans (Perm.cons f (insert_entry-perm e fs)) (Perm.swap e f fs))
]

-- The order is that of last use, oldest first, and has each entry as often as it was collected.
pub sort_by_last_use_lem :
    (es : List Entry) → IsSorted (sort_by_last_use es) × Perm (sort_by_last_use es) es
unfolding sort_by_last_use
sort_by_last_use_lem [] = (tt, Perm.refl [])
sort_by_last_use_lem (e ∷ es) =
    let (sorted, perm) = sort_by_last_use_lem es in
    (
      insert_entry-IsSorted e (sort_by_last_use es) sorted,
      Perm.trans (insert_entry-perm e (sort_by_last_use es)) (Perm.cons e perm),
    )
