-- ===== src/Purge.antt =====
-- crates/supervisor-core/src/purge.rs: the purge rule. The process-global list of purge failures is
-- a list that each operation takes and returns (its mutex is never poisoned: no holder panics),
-- and the file system is a parameter. Log output is left out.
pub mod Failures
pub mod Workdir
use decent_render.Prelude.{
  ℕ, zero, suc, ◌+◌, ◌%◌, ◌^◌, not, List, [], ◌∷◌, ◌++◌, Option, none, some, Text, codes, text_eq,
  leb, length, any, retain, tail, unwrap_or, if◌then◌else◌,
}
use decent_render.Prelude.Decimal.{print}
use decent_render.Os.{Os, IoResult, ok, err, IoError, not_found, already_exists, other, join}

pub record PurgeFailure : Type 0 where
  pub path : Text
  pub error : Text
  pub attempts : ℕ

abbrev pub max_recorded_purge_failures : ℕ
max_recorded_purge_failures = 64

abbrev pub purge_attempts : ℕ
purge_attempts = 3

-- `*list.iter_mut().find(|f| f.path == failure.path) = failure`.
pub update_first : PurgeFailure → List PurgeFailure → List PurgeFailure
update_first f [] = []
update_first f (g ∷ gs) = if text_eq g.path f.path then f ∷ gs else g ∷ update_first f gs

-- `if list.len() >= MAX_RECORDED_PURGE_FAILURES { list.remove(0); }`.
pub make_room : List PurgeFailure → List PurgeFailure
make_room list = if leb max_recorded_purge_failures (length list) then tail list else list

pub record_purge_failure : PurgeFailure → List PurgeFailure → List PurgeFailure
record_purge_failure f list =
    if any (λ g. text_eq g.path f.path) list then update_first f list else make_room list ++ f ∷ []

pub clear_purge_failure : Text → List PurgeFailure → List PurgeFailure
clear_purge_failure path list = retain (λ f. not (text_eq f.path path)) list

pub data NewResult : Type 0 where
  made : Text → NewResult
  refused : IoError → NewResult

module _ {W : Type 0} (os : Os W) where
  open os use {remove_dir_all, create_dir, now, sleep, process_id, temp_dir}

  -- The loop `for attempt in 1..=PURGE_ATTEMPTS`, with the attempts that are left.
  pub remove_from : ℕ → Option Text → Text → W → Option Text × W
  remove_from zero last_err path w = (last_err, w)
  remove_from (suc left) last_err path w = elim (remove_dir_all path w).0 [
    | ok ↦ (none, (remove_dir_all path w).1)
    | err e ↦ elim e.kind [
      | not_found ↦ (none, (remove_dir_all path w).1)
      | _ ↦
          remove_from left (some e.message) path
            (if leb 1 left then sleep (remove_dir_all path w).1 else (remove_dir_all path w).1)
    ]
  ]

  pub remove_dir_all_with_retry : Text → W → Option Text × W
  unfolding remove_from
  remove_dir_all_with_retry path w = remove_from purge_attempts none path w

  -- `Drop for WorkDir`.
  pub drop_workdir : Text → List PurgeFailure → W → List PurgeFailure × W
  drop_workdir path failures w =
      let (outcome, w') = remove_dir_all_with_retry path w in
      (
        elim outcome [
          | some error ↦
              record_purge_failure
                (record { path = path; error = error; attempts = purge_attempts }) failures
          | none ↦ clear_purge_failure path failures
        ],
        w',
      )

  unfoldable pub create_private_dir : Text → W → IoResult × W
  create_private_dir path w = create_dir path w

  -- `"{prefix}-{pid}-{nanos}-{unique}"`.
  unfoldable pub workdir_name : Text → ℕ → ℕ → Text
  workdir_name prefix nanos unique =
      prefix ++ (b'-' ∷ (print process_id ++ (b'-' ∷ (print nanos ++ (b'-' ∷ print unique)))))

  unfoldable pub workdir_path : Text → ℕ → W → Text
  unfolding workdir_name
  workdir_path prefix counter w = join temp_dir (workdir_name prefix (unwrap_or 0 (now w)) counter)

  -- The loop of `WorkDir::new`, with the attempts that are left; `COUNTER` is a wrapping u64.
  unfoldable pub new_from : ℕ → Text → ℕ → W → NewResult × ℕ × W
  unfolding workdir_path create_private_dir
  new_from zero prefix counter w = (
    refused (record {
      kind = already_exists;
      message = codes "no free job workdir name under " ++ (temp_dir ++ codes " after 8 attempts");
    }),
    counter,
    w,
  )
  new_from (suc left) prefix counter w =
      let path = workdir_path prefix counter w in
      let counter' = (counter + 1) % 2 ^ 64 in
      elim (create_private_dir path w).0 [
        | ok ↦ (made path, counter', (create_private_dir path w).1)
        | err e ↦ elim e.kind [
          | already_exists ↦ new_from left prefix counter' (create_private_dir path w).1
          | _ ↦ (refused e, counter', (create_private_dir path w).1)
        ]
      ]

  unfoldable pub new_workdir : Text → ℕ → W → NewResult × ℕ × W
  unfolding new_from
  new_workdir prefix counter w = new_from 8 prefix counter w
