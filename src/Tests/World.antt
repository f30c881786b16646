-- ===== src/Tests/World.antt =====
-- A machine whose file system is the list of the directories that exist, with every other process
-- dead and a fixed listing of its temp dir.
use decent_render.Prelude.{
  ◌≡◌, ◌≢◌, refl, sym, ◌∙◌, inl, inr, Bool, true, false, not, List, [], ◌∷◌, ◌++◌, Option, none,
  some, Text, codes, text_eq, text_eq_iff, any, retain, Bool-cases, if◌then◌else◌, arith,
}
use mathlib.Core.Path.{subst}
use decent_render.Os.{
  Os, Metadata, leaf, dir, nil, cons, IoError, ok, err, not_found, already_exists, esrch, join,
}
use decent_render.Purge.Workdir.{failure, Removes, Excludes}
use decent_render.Sweep.Safety.{Lists, Spares, IsJobEntry, IsListing}

abbrev pub tmp : Text
tmp = codes "/tmp"

abbrev pub left_behind : Text
left_behind = codes "job-1-77-1700000000000000000-0"

abbrev error_of : Bool → IoError
error_of true = record { kind = already_exists; message = codes "File exists" }
error_of false = record { kind = not_found; message = codes "No such file" }

abbrev has : Text → List Text → Bool
has p w = any (λ q. text_eq q p) w

abbrev pub listing : List (Option Text)
listing = some left_behind ∷ none ∷ some (codes "notes") ∷ []

abbrev pub file : Metadata
file = record {
  modified = some 1_700_000_000_000_000_000;
  blocks = 2_097_152;
  file_len = some 1_073_741_824;
}

abbrev pub disk : Os (List Text)
disk = record {
  remove_dir_all =
      λ p w. if has p w then (ok, retain (λ q. not (text_eq q p)) w) else (err (error_of false), w);
  create_dir = λ p w. if has p w then (err (error_of true), w) else (ok, p ∷ w);
  read_dir = λ p w. some listing;
  tree = λ p w. dir file (cons (leaf file) nil);
  is_dir = λ p w. has p w;
  exists = λ p w. has p w;
  read_to_string = λ p w. none;
  write = λ p text w. (ok, w);
  symlink_modified = λ p w. none;
  kill_0 = λ pid w. esrch;
  now = λ w. some 1_800_000_000_000_000_000;
  sleep = λ w. w;
  process_id = 42;
  temp_dir = tmp;
  file_name = λ p. none;
  trim = λ text. text;
}

any-retain_self : (p : Text) (w : List Text) → has p (retain (λ q. not (text_eq q p)) w) ≡ false
any-retain_self p [] = refl
any-retain_self p (q ∷ w) = ground (arith, any-retain_self p w)

any-retain_other :
    (p keep : Text) (w : List Text)
    → p ≢ keep
    → has keep (retain (λ q. not (text_eq q p)) w) ≡ has keep w
any-retain_other p keep [] h = refl
any-retain_other p keep (q ∷ w) h =
    ground (arith, any-retain_other p keep w h, text_eq_iff q p, text_eq_iff q keep)

pub disk-Removes : Removes disk
unfolding failure
disk-Removes p w h = elim (Bool-cases (has p w)) [
  | inl there ↦ rw there (any-retain_self p w)
  | inr gone ↦ rw gone gone
]

pub disk-Excludes : Excludes disk
disk-Excludes p w there = rw there (λ q. cc)

plain_listing : IsListing listing
plain_listing = ground arith

listed : {names : List (Option Text)} → some listing ≡ some names → listing ≡ names
listed e = ground (arith, e)

pub disk-Lists : Lists disk tmp
disk-Lists w names e = subst (λ x. IsListing x) (listed e) plain_listing

join-tmp : (name : Text) → IsJobEntry name → join tmp name ≡ codes "/tmp/" ++ name
unfolding join
join-tmp [] (job, plain) = refl
join-tmp (c ∷ name) (job, (other, plain)) = ground arith

tmp_injective : (a b : Text) → codes "/tmp/" ++ a ≡ codes "/tmp/" ++ b → a ≡ b
tmp_injective a b e = ground (arith, e)

-- Two entries of the temp dir do not share a path.
pub disk-Spares : (keep : Text) → IsJobEntry keep → Spares disk tmp keep
disk-Spares keep job name w entry differs =
    let distinct : join tmp name ≢ join tmp keep =
      λ e. differs (tmp_injective name keep (sym (join-tmp name entry) ∙ e ∙ join-tmp keep job)) in
    elim (Bool-cases (has (join tmp name) w)) [
      | inl there ↦ rw there (any-retain_other (join tmp name) (join tmp keep) w distinct)
      | inr gone ↦ rw gone refl
    ]
