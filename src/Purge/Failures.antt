-- ===== src/Purge/Failures.antt =====
-- The list of recorded purge failures: bounded, one entry to a path, and what a lookup finds after
-- each operation (crates/supervisor-core/src/purge.rs).
use decent_render.Prelude.{
  ◌≤◌, ◌<◌, ◌≡◌, refl, ◌≢◌, inl, inr, true, false, not, List, [], ◌∷◌, ◌++◌, Option, none, some,
  Text, text_eq, text_eq_refl, text_eq_iff, length, length-append, length-retain-le, any, retain,
  tail, arith, Bool-cases, if◌then◌else◌,
}
use decent_render.Purge.{
  PurgeFailure, max_recorded_purge_failures, update_first, make_room, record_purge_failure,
  clear_purge_failure,
}

-- The failure on record for a path.
unfoldable pub find : Text → List PurgeFailure → Option PurgeFailure
find path [] = none
find path (f ∷ fs) = if text_eq f.path path then some f else find path fs

-- No two entries have one path.
abbrev pub IsUnique : List PurgeFailure → Type 0
IsUnique [] = Unit
IsUnique (f ∷ fs) = (find f.path fs ≡ none) × IsUnique fs

pub record IsWellFormed (list : List PurgeFailure) : Type 0 where
  pub bounded : length list ≤ max_recorded_purge_failures
  pub unique : IsUnique list

any-find :
    (path : Text) (fs : List PurgeFailure)
    → any (λ g. text_eq g.path path) fs ≡ false
    → find path fs ≡ none
unfolding find
any-find path [] h = refl
any-find path (f ∷ fs) h = ground (arith, any-find path fs)

find-update_first :
    (f : PurgeFailure) (path : Text) (fs : List PurgeFailure)
    → any (λ g. text_eq g.path f.path) fs ≡ true
    → find path (update_first f fs) ≡ (if text_eq f.path path then some f else find path fs)
unfolding find update_first
find-update_first f path [] h = cc
find-update_first f path (g ∷ gs) h = ground (
  arith,
  text_eq_iff g.path f.path,
  text_eq_iff g.path path,
  text_eq_iff f.path path,
  find-update_first f path gs,
)

length-update_first :
    (f : PurgeFailure) (fs : List PurgeFailure) → length (update_first f fs) ≡ length fs
unfolding update_first
length-update_first f [] = refl
length-update_first f (g ∷ gs) = ground (arith, length-update_first f gs)

update_first_fresh :
    (f : PurgeFailure) (path : Text) (fs : List PurgeFailure)
    → find path fs ≡ none
    → text_eq f.path path ≡ false
    → find path (update_first f fs) ≡ none
unfolding find update_first
update_first_fresh f path [] h differ = refl
update_first_fresh f path (g ∷ gs) h differ = ground (arith, update_first_fresh f path gs)

update_first-IsUnique :
    (f : PurgeFailure) (fs : List PurgeFailure) → IsUnique fs → IsUnique (update_first f fs)
unfolding update_first
update_first-IsUnique f [] u = tt
update_first-IsUnique f (g ∷ gs) (fresh, u) = ground (
  arith,
  text_eq_iff g.path f.path,
  text_eq_iff f.path g.path,
  update_first_fresh f g.path gs fresh,
  update_first-IsUnique f gs u,
)

find-append :
    (path : Text) (fs : List PurgeFailure) (f : PurgeFailure)
    → find path fs ≡ none
    → find path (fs ++ f ∷ []) ≡ (if text_eq f.path path then some f else none)
unfolding find
find-append path [] f h = refl
find-append path (g ∷ gs) f h = ground (arith, find-append path gs f)

find-append_found :
    (path : Text) (fs : List PurgeFailure) (f : PurgeFailure)
    → text_eq f.path path ≡ false
    → find path (fs ++ f ∷ []) ≡ find path fs
unfolding find
find-append_found path [] f h = ground arith
find-append_found path (g ∷ gs) f h = ground (arith, find-append_found path gs f)

append-IsUnique :
    (fs : List PurgeFailure) (f : PurgeFailure)
    → IsUnique fs
    → find f.path fs ≡ none
    → IsUnique (fs ++ f ∷ [])
unfolding find
append-IsUnique [] f u h = (refl, tt)
append-IsUnique (g ∷ gs) f (fresh, u) h = ground (
  arith,
  text_eq_iff g.path f.path,
  text_eq_iff f.path g.path,
  find-append g.path gs f fresh,
  append-IsUnique gs f u,
)

find-tail :
    (path : Text) (fs : List PurgeFailure) → find path fs ≡ none → find path (tail fs) ≡ none
unfolding find
find-tail path [] h = refl
find-tail path (g ∷ gs) h = ground arith

tail-IsUnique : (fs : List PurgeFailure) → IsUnique fs → IsUnique (tail fs)
tail-IsUnique [] u = tt
tail-IsUnique (g ∷ gs) u = u.1

find-retain :
    (path q : Text) (fs : List PurgeFailure)
    → find q (retain (λ f. not (text_eq f.path path)) fs)
      ≡ (if text_eq path q then none else find q fs)
unfolding find
find-retain path q [] = ground arith
find-retain path q (g ∷ gs) = ground (
  arith,
  text_eq_iff g.path path,
  text_eq_iff g.path q,
  text_eq_iff path q,
  find-retain path q gs,
)

retain-IsUnique :
    (path : Text) (fs : List PurgeFailure)
    → IsUnique fs
    → IsUnique (retain (λ f. not (text_eq f.path path)) fs)
retain-IsUnique path [] u = tt
retain-IsUnique path (g ∷ gs) (fresh, u) =
    ground (arith, find-retain path g.path gs, retain-IsUnique path gs u)

make_room-fits :
    (list : List PurgeFailure)
    → length list ≤ max_recorded_purge_failures
    → length (make_room list) < max_recorded_purge_failures
unfolding make_room
make_room-fits [] h = omega arith
make_room-fits (g ∷ gs) h = ground arith

make_room-IsUnique : (list : List PurgeFailure) → IsUnique list → IsUnique (make_room list)
unfolding make_room
make_room-IsUnique list u = ground (arith, tail-IsUnique list u)

find-make_room :
    (path : Text) (list : List PurgeFailure)
    → find path list ≡ none
    → find path (make_room list) ≡ none
unfolding make_room
find-make_room path list h = ground (arith, find-tail path list h)

-- Recording a failure keeps the list within 64 entries and one entry to a path.
pub record-IsWellFormed :
    (f : PurgeFailure) (list : List PurgeFailure)
    → IsWellFormed list
    → IsWellFormed (record_purge_failure f list)
unfolding record_purge_failure
record-IsWellFormed f list v = elim (Bool-cases (any (λ g. text_eq g.path f.path) list)) [
  | inl known ↦ rw known (record {
    bounded = omega (arith, length-update_first f list, v.bounded);
    unique = update_first-IsUnique f list v.unique;
  })
  | inr new ↦ rw new (record {
    bounded = omega (arith, length-append (make_room list) (f ∷ []), make_room-fits list v.bounded);
    unique =
        append-IsUnique (make_room list) f (make_room-IsUnique list v.unique)
          (find-make_room f.path list (any-find f.path list new));
  })
]

-- Clearing a path keeps the list within 64 entries and one entry to a path.
pub clear-IsWellFormed :
    (path : Text) (list : List PurgeFailure)
    → IsWellFormed list
    → IsWellFormed (clear_purge_failure path list)
unfolding clear_purge_failure
clear-IsWellFormed path list v = record {
  bounded = omega (arith, length-retain-le (λ f. not (text_eq f.path path)) list, v.bounded);
  unique = retain-IsUnique path list v.unique;
}

-- After a failure is recorded a lookup of its path finds that failure.
pub find-record_self :
    (f : PurgeFailure) (list : List PurgeFailure)
    → find f.path (record_purge_failure f list) ≡ some f
unfolding record_purge_failure
find-record_self f list = elim (Bool-cases (any (λ g. text_eq g.path f.path) list)) [
  | inl known ↦
      rw known (ground (arith, find-update_first f f.path list known, text_eq_refl f.path))
  | inr new ↦ rw new (
      ground (
        arith,
        find-append f.path (make_room list) f
            (find-make_room f.path list (any-find f.path list new)),
        text_eq_refl f.path,
      ))
]

-- A lookup of any other path finds what it found before, as long as the list has room.
pub find-record_other :
    (f : PurgeFailure) (list : List PurgeFailure) (path : Text)
    → path ≢ f.path
    → length list < max_recorded_purge_failures
    → find path (record_purge_failure f list) ≡ find path list
unfolding record_purge_failure make_room
find-record_other f list path differ room =
    elim (Bool-cases (any (λ g. text_eq g.path f.path) list)) [
      | inl known ↦
          rw known (ground (arith, find-update_first f path list known, text_eq_iff f.path path))
      | inr new ↦ rw new (ground (arith, find-append_found path list f, text_eq_iff f.path path))
    ]

-- Clearing a path takes its failure off the list and leaves every other lookup as it was.
pub find-clear :
    (path q : Text) (list : List PurgeFailure)
    → find q (clear_purge_failure path list) ≡ (if text_eq path q then none else find q list)
unfolding clear_purge_failure
find-clear path q list = find-retain path q list
