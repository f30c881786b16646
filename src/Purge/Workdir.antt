-- ===== src/Purge/Workdir.antt =====
-- The life of a job's working directory: its exclusive creation, and its removal when it is
-- dropped (crates/supervisor-core/src/purge.rs).
use decent_render.Prelude.{
  ℕ, zero, suc, ◌+◌, ◌%◌, ◌^◌, ◌≡◌, ◌≢◌, refl, ◌⊎◌, inl, inr, true, false, List, Option, none, some,
  Text, arith, Option-cases, text_eq_refl, leb, if◌then◌else◌,
}
use decent_render.Os.{Os, ErrorKind, IoError, IoResult, ok, err, not_found, already_exists, other}
use decent_render.Purge.{
  PurgeFailure, purge_attempts, remove_from, remove_dir_all_with_retry, drop_workdir,
  create_private_dir, made, workdir_path, new_from, new_workdir,
}
use decent_render.Purge.Failures.{find, find-record_self, find-clear}

-- What one removal leaves to report: nothing where the directory is gone, else the error.
unfoldable pub failure : IoResult → Option Text
failure ok = none
failure (err e) = elim e.kind [ not_found ↦ none | _ ↦ some e.message ]

failure-cases :
    (r : IoResult)
    → (failure r ≡ none) ⊎ ((e : IoError) × (r ≡ err e) × (failure r ≡ some e.message))
unfolding failure
failure-cases ok = inl refl
failure-cases (err e) = ground arith

taken-cases : (k : ErrorKind) → (k ≡ already_exists) ⊎ (k ≢ already_exists)
taken-cases already_exists = inl refl
taken-cases not_found = inr (λ q. cc)
taken-cases other = inr (λ q. cc)

create-cases :
    (r : IoResult)
    → (r ≡ ok)
      ⊎ (((e : IoError) × (r ≡ err e) × (e.kind ≡ already_exists))
          ⊎ ((e : IoError) × (r ≡ err e) × (e.kind ≢ already_exists)))
create-cases ok = inl refl
create-cases (err e) = elim (taken-cases e.kind) [
  | inl taken ↦ inr (inl (e, refl, taken))
  | inr differs ↦ inr (inr (e, refl, differs))
]

abbrev pub and_then : Option Text → Option Text → Option Text
and_then none later = none
and_then (some e) later = later

module _ {W : Type 0} (os : Os W) where
  open os use {remove_dir_all, create_dir, sleep, exists}

  -- The removal is tried three times with a pause between the tries; the first try that finds the
  -- directory gone ends it without an error, and otherwise the error is that of the third try.
  pub remove_dir_all_with_retry_lem :
      (path : Text) (w : W)
      → let w' = sleep (remove_dir_all path w).1 in
        let w'' = sleep (remove_dir_all path w').1 in
        (remove_dir_all_with_retry os path w).0
        ≡ and_then
            (failure (remove_dir_all path w).0)
            (and_then (failure (remove_dir_all path w').0) (failure (remove_dir_all path w'').0))
  unfolding remove_dir_all_with_retry remove_from failure
  remove_dir_all_with_retry_lem path w = ground arith

  -- The documented behaviour of `remove_dir_all`: what it reports gone does not exist.
  abbrev pub Removes : Type 0
  Removes =
      (p : Text) (v : W)
      → failure (remove_dir_all p v).0 ≡ none
      → exists p (remove_dir_all p v).1 ≡ false

  remove_from-gone :
      Removes
      → (left : ℕ) (last : Option Text) (path : Text) (w : W) → (left ≢ 0) ⊎ (last ≢ none)
      → (remove_from os left last path w).0 ≡ none
      → exists path (remove_from os left last path w).1 ≡ false
  unfolding remove_from failure
  remove_from-gone r zero last path w g h = ground arith
  remove_from-gone r (suc left) last path w g h =
      let v = (remove_dir_all path w).1 in
      elim (failure-cases (remove_dir_all path w).0) [
        | inl gone ↦ ground (arith, gone, r path w)
        | inr (e, failed, m) ↦ ground (
          arith,
          failed,
          m,
          remove_from-gone r left (some e.message) path (if leb 1 left then sleep v else v)
              (inr (λ q. cc)),
        )
      ]

  -- Either one of the three tries finds the directory gone, and a dropped directory is then gone and
  -- has no failure on record; or all three fail, and its failure is on record with the error of the
  -- third and the number of tries. `remove_dir_all` is assumed to remove what it reports gone.
  pub drop_workdir_accounts :
      (path : Text) (failures : List PurgeFailure) (w : W)
      → Removes
      → let w1 = sleep (remove_dir_all path w).1 in
        let w2 = sleep (remove_dir_all path w1).1 in
        let after = drop_workdir os path failures w in
        (((failure (remove_dir_all path w).0 ≡ none)
            ⊎ ((failure (remove_dir_all path w1).0 ≡ none)
                ⊎ (failure (remove_dir_all path w2).0 ≡ none)))
          × (exists path after.1 ≡ false)
          × (find path after.0 ≡ none))
        ⊎ ((first : Text) × (second : Text) × (e : Text) × (failure (remove_dir_all path w).0
              ≡ some first)
            × (failure (remove_dir_all path w1).0 ≡ some second)
            × (failure (remove_dir_all path w2).0 ≡ some e)
            × (find path after.0
                ≡ some (record { path = path; error = e; attempts = purge_attempts })))
  unfolding drop_workdir remove_dir_all_with_retry
  drop_workdir_accounts path failures w r =
      let w1 = sleep (remove_dir_all path w).1 in
      let w2 = sleep (remove_dir_all path w1).1 in
      let all = remove_dir_all_with_retry_lem path w in
      let cleared : (remove_from os purge_attempts none path w).0 ≡ none
          → (exists path (drop_workdir os path failures w).1 ≡ false)
            × (find path (drop_workdir os path failures w).0 ≡ none) =
        λ gone. (
          remove_from-gone r purge_attempts none path w (inl (λ q. cc)) gone,
          ground (arith, gone, find-clear path path failures, text_eq_refl path),
        ) in
      elim (Option-cases (failure (remove_dir_all path w).0)) [
        | inl one ↦
            let (gone, unlisted) = cleared (ground (arith, all, one)) in
            inl (inl one, gone, unlisted)
        | inr (first, f1) ↦ elim (Option-cases (failure (remove_dir_all path w1).0)) [
          | inl two ↦
              let (gone, unlisted) = cleared (ground (arith, all, f1, two)) in
              inl (inr (inl two), gone, unlisted)
          | inr (second, f2) ↦ elim (Option-cases (failure (remove_dir_all path w2).0)) [
            | inl three ↦
                let (gone, unlisted) = cleared (ground (arith, all, f1, f2, three)) in
                inl (inr (inr three), gone, unlisted)
            | inr (e, f3) ↦
                let kept : (remove_from os purge_attempts none path w).0 ≡ some e =
                  ground (arith, all, f1, f2, f3) in
                inr (
                  first,
                  second,
                  e,
                  f1,
                  f2,
                  f3,
                  ground (
                    arith,
                    kept,
                    find-record_self (record { path = path; error = e; attempts = purge_attempts })
                        failures,
                  ),
                )
          ]
        ]
      ]

  -- The documented behaviour of an exclusive creation: it fails where something exists.
  abbrev pub Excludes : Type 0
  Excludes = (p : Text) (v : W) → exists p v ≡ true → (create_dir p v).0 ≢ ok

  new_from_lem :
      (left : ℕ) (prefix : Text) (counter : ℕ) (w : W) (path : Text)
      → (new_from os left prefix counter w).0 ≡ made path
      → (before : W) × ((create_dir path before).0 ≡ ok)
        × ((new_from os left prefix counter w).2 ≡ (create_dir path before).1)
  unfolding new_from create_private_dir
  new_from_lem zero prefix counter w path h = cc
  new_from_lem (suc left) prefix counter w path h =
      let name = workdir_path os prefix counter w in
      elim (create-cases (create_dir name w).0) [
        | inl created ↦ (w, ground (arith, created), ground (arith, created))
        | inr (inl (e, taken, kind)) ↦
            let v = (create_dir name w).1 in
            let ih =
              new_from_lem left prefix ((counter + 1) % 2 ^ 64) v path
                (ground (arith, taken, kind)) in
            (ih.0, ih.1, ground (arith, taken, kind, ih.2))
        | inr (inr (e, failed, kind)) ↦ absurd (ground (arith, failed, kind))
      ]

  -- The directory that `WorkDir::new` returns is one that it created itself, where nothing existed.
  pub new_workdir_fresh :
      (prefix : Text) (counter : ℕ) (w : W) (path : Text)
      → Excludes
      → (new_workdir os prefix counter w).0 ≡ made path
      → (before : W) × (exists path before ≡ false)
        × ((create_dir path before).0 ≡ ok)
        × ((new_workdir os prefix counter w).2 ≡ (create_dir path before).1)
  unfolding new_workdir
  new_workdir_fresh prefix counter w path x h =
      let (before, created, final) = new_from_lem 8 prefix counter w path h in
      (before, ground (arith, x path before), created, final)
