-- ===== src/Os.antt =====
-- The operating system as the supervisor calls it: the standard library's file-system calls, the
-- clock, the process id and `kill(pid, 0)`. None of this is code of the repository, so it is a
-- record of functions over an abstract world `W`, a parameter of every definition that calls it.
-- Times count nanoseconds since the Unix epoch; a time before the epoch reads as the epoch.
use decent_render.Prelude.{
  ℕ, ◌≡◌, refl, ◌⊎◌, inl, inr, Bool, true, false, List, [], ◌∷◌, ◌++◌, Option, Text, ltb, ◌-◌, ◌^◌,
  ◌==◌, if◌then◌else◌,
}

-- `std::io::ErrorKind`, as far as the source distinguishes kinds.
pub data ErrorKind : Type 0 where
  not_found already_exists other : ErrorKind

pub record IoError : Type 0 where
  pub kind : ErrorKind
  pub message : Text

-- `std::io::Result<()>`.
pub data IoResult : Type 0 where
  ok : IoResult
  err : IoError → IoResult

pub IoResult-cases : (r : IoResult) → (r ≡ ok) ⊎ ((e : IoError) × (r ≡ err e))
IoResult-cases ok = inl refl
IoResult-cases (err e) = inr (e, refl)

-- `anyhow::Result<A>`, with the text that its error displays.
pub data Fallible {ℓ} (A : Type ℓ) : Type ℓ where
  pass : A → Fallible A
  fail : Text → Fallible A

-- A `libc::pid_t`, which is an i32: `negative n` is `-(n + 1)`.
pub data PidT : Type 0 where
  positive negative : ℕ → PidT

-- `pid as libc::pid_t` of a u32.
pub as_pid_t : ℕ → PidT
as_pid_t pid = if ltb pid (2 ^ 31) then positive pid else negative (2 ^ 32 - 1 - pid)

-- What `kill(pid, 0)` answers: 0, or -1 with an errno.
pub data Signal : Type 0 where
  delivered esrch other_errno : Signal

-- The metadata that a walk reads of one entry.
pub record Metadata : Type 0 where
  pub modified : Option ℕ
  pub blocks : ℕ
  -- the length of a regular file, `none` for any other entry
  pub file_len : Option ℕ

-- A file tree as a walk without symbolic links sees it: an entry that has no metadata, an entry
-- that is no directory, or a directory with the entries that can be listed.
mutual
  pub data Node : Type 0 where
    unreadable : Node
    leaf : Metadata → Node
    dir : Metadata → Nodes → Node

  pub data Nodes : Type 0 where
    nil : Nodes
    cons : Node → Nodes → Nodes

pub Fallible-cases {ℓ} :
    {A : Type ℓ} (r : Fallible A) → ((a : A) × (r ≡ pass a)) ⊎ ((m : Text) × (r ≡ fail m))
Fallible-cases (pass a) = inl (a, refl)
Fallible-cases (fail m) = inr (m, refl)

pub record Os (W : Type 0) : Type 0 where
  pub remove_dir_all : Text → W → IoResult × W
  -- `DirBuilder::new().mode(0o700).create(path)`
  pub create_dir : Text → W → IoResult × W
  -- the file names, `none` for a name that is no UTF-8
  pub read_dir : Text → W → Option (List (Option Text))
  pub tree : Text → W → Node
  pub is_dir : Text → W → Bool
  pub exists : Text → W → Bool
  pub read_to_string : Text → W → Option Text
  pub write : Text → Text → W → IoResult × W
  pub symlink_modified : Text → W → Option ℕ
  pub kill_0 : PidT → W → Signal
  pub now : W → Option ℕ
  pub sleep : W → W
  pub process_id : ℕ
  pub temp_dir : Text
  -- `Path::file_name`, where it is UTF-8
  pub file_name : Text → Option Text
  -- `str::trim`
  pub trim : Text → Text

abbrev slash : ℕ
slash = b'/'

starts_with_slash : Text → Bool
starts_with_slash [] = false
starts_with_slash (c ∷ s) = c == slash

-- Whether no separator has to be put behind a directory's path.
unfoldable pub is_separated : Text → Bool
is_separated [] = true
is_separated (c ∷ []) = c == slash
is_separated (c ∷ d ∷ s) = is_separated (d ∷ s)

-- `Path::join` of the standard library.
unfoldable pub join : Text → Text → Text
unfolding starts_with_slash is_separated
join base name =
    if starts_with_slash name
    then name
    else if is_separated base
    then base ++ name
    else base ++ slash ∷ name
