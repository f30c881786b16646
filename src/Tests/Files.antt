-- ===== src/Tests/Files.antt =====
-- The purge and the sweep at work on the machine of World.
use decent_render.Prelude.{
  ◌≡◌, ◌⊎◌, refl, false, List, [], ◌∷◌, ◌++◌, none, some, Text, codes, starts_with, split, arith,
}
use decent_render.Prelude.Decimal.{print}
use decent_render.Os.{ok, Node, leaf, dir, nil, cons, unreadable, join}
use decent_render.Purge.{
  PurgeFailure, purge_attempts, record_purge_failure, drop_workdir, workdir_name, made, new_workdir,
}
use decent_render.Purge.Failures.{find, IsWellFormed, record-IsWellFormed}
use decent_render.Purge.Workdir.{failure, drop_workdir_accounts, new_workdir_fresh}
use decent_render.Sweep.{
  supervisor, foreign, supervisor_owner, classify_dir_name, newest_mtime, sweep_dir,
  stale_runner_dir_age,
}
use decent_render.Sweep.Names.{classify-workdir_name}
use decent_render.Sweep.Mtime.{latest, newest_mtime_lem}
use decent_render.Sweep.Safety.{
  Abandoned, dead_owner, stale_runner, IsJobEntry, sweep_dir-own_workdir,
}
use decent_render.Tests.World.{
  tmp, file, disk, disk-Removes, disk-Excludes, disk-Lists, disk-Spares,
}

abbrev busy_dir : Text
busy_dir = codes "/tmp/job-1-42-1800000000000000000-0"

abbrev busy_failure : PurgeFailure
busy_failure = record { path = busy_dir; error = codes "busy"; attempts = 3 }

abbrev old_failure : PurgeFailure
old_failure = record { path = codes "/tmp/x"; error = codes "denied"; attempts = 3 }

drop_workdir_accounts_example :
    let w1 = disk.sleep (disk.remove_dir_all busy_dir (busy_dir ∷ [])).1 in
    let w2 = disk.sleep (disk.remove_dir_all busy_dir w1).1 in
    let after = drop_workdir disk busy_dir (old_failure ∷ []) (busy_dir ∷ []) in
    (((failure (disk.remove_dir_all busy_dir (busy_dir ∷ [])).0 ≡ none)
        ⊎ ((failure (disk.remove_dir_all busy_dir w1).0 ≡ none)
            ⊎ (failure (disk.remove_dir_all busy_dir w2).0 ≡ none)))
      × (disk.exists busy_dir after.1 ≡ false)
      × (find busy_dir after.0 ≡ none))
    ⊎ ((first : Text) × (second : Text) × (e : Text) × (failure
            (disk.remove_dir_all busy_dir (busy_dir ∷ [])).0
          ≡ some first)
        × (failure (disk.remove_dir_all busy_dir w1).0 ≡ some second)
        × (failure (disk.remove_dir_all busy_dir w2).0 ≡ some e)
        × (find busy_dir after.0
            ≡ some (record { path = busy_dir; error = e; attempts = purge_attempts })))
drop_workdir_accounts_example =
    drop_workdir_accounts disk busy_dir (old_failure ∷ []) (busy_dir ∷ []) disk-Removes

fresh_name : (new_workdir disk (codes "job-1") 0 []).0 ≡ made busy_dir
unfolding new_workdir print join
fresh_name = refl

new_workdir_fresh_example :
    (before : List Text) × (disk.exists busy_dir before ≡ false)
    × ((disk.create_dir busy_dir before).0 ≡ ok)
    × ((new_workdir disk (codes "job-1") 0 []).2 ≡ (disk.create_dir busy_dir before).1)
new_workdir_fresh_example =
    new_workdir_fresh disk (codes "job-1") 0 [] busy_dir disk-Excludes fresh_name

one_recorded : IsWellFormed (old_failure ∷ [])
unfolding find
one_recorded = record { bounded = omega arith; unique = (refl, tt) }

record-IsWellFormed_example : IsWellFormed (record_purge_failure busy_failure (old_failure ∷ []))
record-IsWellFormed_example = record-IsWellFormed busy_failure (old_failure ∷ []) one_recorded

abbrev own_name : Text
own_name = workdir_name disk (codes "job-" ++ codes "1") 1_800_000_000_000_000_000 0

classify-workdir_name_example : classify_dir_name own_name ≡ supervisor 42
classify-workdir_name_example =
    classify-workdir_name disk (codes "1") 1_800_000_000_000_000_000 0 (omega arith) (ground arith)
      (ground arith) (ground arith) (ground arith)

abbrev small_tree : Node
small_tree = dir file (cons (leaf (record file { modified = some 5 })) (cons unreadable nil))

newest_mtime_lem_example : newest_mtime small_tree ≡ latest small_tree
newest_mtime_lem_example = newest_mtime_lem small_tree

own_job : IsJobEntry own_name
unfolding workdir_name print starts_with
own_job = (refl, ground arith)

sweep_dir-own_workdir_example :
    disk.exists (join tmp own_name) (sweep_dir disk tmp stale_runner_dir_age (busy_dir ∷ [])).1
    ≡ disk.exists (join tmp own_name) (busy_dir ∷ [])
sweep_dir-own_workdir_example =
    sweep_dir-own_workdir disk tmp stale_runner_dir_age (codes "1") 1_800_000_000_000_000_000 0
      (busy_dir ∷ []) (omega arith) (ground arith) (ground arith) (ground arith) (ground arith)
      disk-Lists (disk-Spares own_name own_job)

notes_job : IsJobEntry (codes "job-notes")
unfolding starts_with
notes_job = (refl, ground arith)

notes_foreign : classify_dir_name (codes "job-notes") ≡ foreign
unfolding classify_dir_name supervisor_owner split starts_with
notes_foreign = refl

notes-kept :
    (w : List Text)
    → ¬ Abandoned disk tmp 1_800_000_000_000_000_000 stale_runner_dir_age (codes "job-notes") w
notes-kept w (dead_owner pid e other dead) = cc (notes_foreign)
notes-kept w (stale_runner e old) = cc (notes_foreign)
