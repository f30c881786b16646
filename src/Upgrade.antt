-- ===== src/Upgrade.antt =====
-- bins/decent/src/auto_upgrade.rs: the attempt ledger of unattended upgrades, with what it uses of
-- bins/decent/src/main.rs, the reading of versions and the verdict on an upgrade. The file system and
-- serde are a parameter, `Ledger W`; the package manager is an argument.
pub mod Fuse
pub mod Suppression
pub mod Newer
use decent_render.Prelude.{
  ℕ, zero, suc, ◌+◌, ◌-◌, ◌*◌, Bool, true, false, not, ◌||◌, ◌&&◌, List, [], ◌∷◌, ◌++◌, Option,
  none, some, Text, codes, text_eq, ltb, leb, ◌==◌, length, split, unwrap_or, if◌then◌else◌,
}
use decent_render.Prelude.Decimal.{print, parse, u64_max}
use decent_render.Os.{
  Os, IoResult, ok, err, not_found, already_exists, other, Fallible, pass, fail, join,
}
use decent_render.Artifact.{Net}

abbrev pub retry_suppress_ms : ℕ
retry_suppress_ms = 24 * 60 * 60 * 1000

pub data AttemptOutcome : Type 0 where
  started failed rejected upgraded already_current : AttemptOutcome

-- `needs_attention`.
pub needs_attention : AttemptOutcome → Bool
needs_attention started = true
needs_attention failed = true
needs_attention rejected = true
needs_attention upgraded = false
needs_attention already_current = false

pub record AttemptRecord : Type 0 where
  pub target_version : Text
  pub attempted_at_ms : ℕ
  pub outcome : AttemptOutcome
  pub detail : Text

pub data ApplyDisposition : Type 0 where
  restart : Text → Text → Option Text → ApplyDisposition
  reconnect : AttemptOutcome → Text → ApplyDisposition

pub data UpgradeOutcome : Type 0 where
  current_already : Text → UpgradeOutcome
  swapped : Text → Text → UpgradeOutcome

-- `strip_prefix`.
unfoldable pub strip : Text → Text → Option Text
strip [] s = some s
strip (a ∷ p) [] = none
strip (a ∷ p) (b ∷ s) = if a == b then strip p s else none

-- `trim_start_matches` of a text that is not empty, with as much fuel as there are bytes.
unfoldable pub trim_text : ℕ → Text → Text → Text
unfolding strip
trim_text zero p s = s
trim_text (suc f) p s = elim (strip p s) [ none ↦ s | some rest ↦ trim_text f p rest ]

unfoldable pub trim_byte : ℕ → Text → Text
trim_byte c [] = []
trim_byte c (b ∷ s) = if b == c then trim_byte c s else b ∷ s

unfoldable pub all_digits : Text → Bool
all_digits [] = true
all_digits (c ∷ s) = leb b'0' c && leb c b'9' && all_digits s

unfoldable pub is_number : Text → Bool
unfolding all_digits
is_number [] = false
is_number (c ∷ s) = all_digits (c ∷ s)

unfoldable pub is_version : List Text → Bool
unfolding is_number
is_version (a ∷ b ∷ c ∷ []) = is_number a && is_number b && is_number c
is_version _ = false

unfoldable pub find_version : List Text → Option Text
unfolding trim_text trim_byte is_version
find_version [] = none
find_version (word ∷ words) =
    let w = trim_byte b'v' (trim_text (length word) (codes "rust-") word) in
    if is_version (split b'.' w) then some w else find_version words

unfoldable pub numbers : List Text → Option (ℕ × ℕ × ℕ)
numbers (a ∷ b ∷ c ∷ rest) = elim (parse u64_max a) [
  | none ↦ none
  | some x ↦ elim (parse u64_max b) [
    | none ↦ none
    | some y ↦ elim (parse u64_max c) [ none ↦ none | some z ↦ some (x, y, z) ]
  ]
]
numbers _ = none

unfoldable pub triplet_of : Option Text → Option (ℕ × ℕ × ℕ)
unfolding numbers
triplet_of none = none
triplet_of (some version) = numbers (split b'.' version)

-- `target > current` on `[u64; 3]`.
unfoldable pub is_newer : ℕ × ℕ × ℕ → ℕ × ℕ × ℕ → Bool
is_newer (a, b, c) (x, y, z) = ltb x a || (a == x && (ltb y b || (b == y && ltb z c)))

-- The verdict once the package manager has returned.
pub upgrade_outcome : Text → Option Text → Option Text → Fallible UpgradeOutcome
upgrade_outcome before after latest =
    if not (text_eq (unwrap_or before after) before)
    then pass (swapped before (unwrap_or before after))
    else if not (text_eq (unwrap_or before latest) before)
    then fail (
        codes "The channel offers "
        ++ (unwrap_or before latest
            ++ (codes " but the installed binary is still "
                ++ (before
                    ++ codes
                        ". Run `brew update && brew upgrade decent` and check `decent --version`."))))
    else pass (current_already before)

pub record Ledger (W : Type 0) : Type 0 where
  pub net : Net W
  pub open net use *
  pub split_whitespace : Text → List Text
  pub read : Text → W → Option Text
  pub is_file : Text → W → Bool
  pub to_vec_pretty : AttemptRecord → Fallible Text
  pub from_slice : Text → Option AttemptRecord

flag_path : Text → Text
flag_path config_dir = join config_dir (codes "auto-upgrade")

unfoldable pub state_path : Text → Text
state_path config_dir = join config_dir (codes "auto-upgrade-state.json")

module _ {W : Type 0} (ledger : Ledger W) where
  open ledger use {
    os, net, create_dir_all, set_permissions, rename, remove_file, parent, split_whitespace, read,
    is_file, to_vec_pretty, from_slice,
  }

  unfoldable pub version_triplet : Text → Option (ℕ × ℕ × ℕ)
  unfolding find_version triplet_of
  version_triplet text = triplet_of (find_version (split_whitespace text))

  unfoldable pub tmp_path : Text → Text → Text
  tmp_path up path = join up (
      codes "."
      ++ (unwrap_or (codes "decent") (os.file_name path) ++ (codes ".tmp-" ++ print os.process_id)))

  unfoldable pub set_mode : Text → ℕ → W → W
  set_mode path mode w = (set_permissions path mode w).1

  -- From the new file's mode on.
  unfoldable pub replace : Text → Text → W → Fallible (Unit {0}) × W
  unfolding set_mode
  replace tmp path w =
      let (renamed, w') = rename tmp path (set_mode tmp 384 w) in
      elim renamed [
        | ok ↦ (pass tt, set_mode path 384 w')
        | err e ↦ (fail e.message, (remove_file tmp w').1)
      ]

  unfoldable pub write_into : Text → Text → Text → W → Fallible (Unit {0}) × W
  unfolding replace
  write_into tmp path bytes w =
      let (written, w') = os.write tmp bytes w in
      elim written [ ok ↦ replace tmp path w' | err e ↦ (fail e.message, (remove_file tmp w').1) ]

  unfoldable pub atomic_private_write : Text → Text → W → Fallible (Unit {0}) × W
  unfolding set_mode write_into
  atomic_private_write path bytes w = elim (parent path) [
    | none ↦ (fail (codes "config file has no parent: " ++ path), w)
    | some up ↦
        let (created, w') = create_dir_all up w in
        elim created [
          | err e ↦ (fail e.message, w')
          | ok ↦ write_into (tmp_path up path) path bytes (set_mode up 448 w')
        ]
  ]

  unfoldable pub is_enabled : Text → W → Bool
  unfolding flag_path
  is_enabled config_dir w = is_file (flag_path config_dir) w

  pub set_enabled : Text → Bool → W → Fallible (Unit {0}) × W
  unfolding flag_path atomic_private_write
  set_enabled config_dir true w = atomic_private_write (flag_path config_dir) (codes "enabled\n") w
  set_enabled config_dir false w =
      let (removed, w') = remove_file (flag_path config_dir) w in
      elim removed [
        | ok ↦ (pass tt, w')
        | err e ↦ elim e.kind [ not_found ↦ (pass tt, w') | _ ↦ (fail e.message, w') ]
      ]

  unfoldable pub read_attempt : Text → W → Option AttemptRecord
  read_attempt config_dir w = elim (read (state_path config_dir) w) [
    | none ↦ none
    | some bytes ↦ from_slice bytes
  ]

  unfoldable pub write_attempt : Text → AttemptRecord → W → Fallible (Unit {0}) × W
  unfolding atomic_private_write
  write_attempt config_dir attempt w = elim (to_vec_pretty attempt) [
    | fail e ↦ (fail e, w)
    | pass bytes ↦ atomic_private_write (state_path config_dir) (bytes ++ b'\n' ∷ []) w
  ]

  pub suppresses : AttemptOutcome → Bool
  suppresses upgraded = false
  suppresses _ = true

  pub suppression_of : Option AttemptRecord → ℕ → Option (Text × ℕ)
  unfolding suppresses
  suppression_of none now_ms = none
  suppression_of (some r) now_ms =
      let age = now_ms - r.attempted_at_ms in
      if suppresses r.outcome && ltb age retry_suppress_ms
      then some (r.target_version, retry_suppress_ms - age)
      else none

  unfoldable pub suppression : Text → ℕ → W → Option (Text × ℕ)
  unfolding suppression_of
  suppression config_dir now_ms w = suppression_of (read_attempt config_dir w) now_ms

  -- A record of this attempt is written, and the connection is told to reconnect.
  unfoldable pub settle : Text → AttemptRecord → W → Fallible ApplyDisposition × W
  settle config_dir attempt w =
      let (written, w') = write_attempt config_dir attempt w in
      elim written [
        | fail e ↦ (fail e, w')
        | pass _ ↦ (pass (reconnect attempt.outcome attempt.detail), w')
      ]

  pub record_error : Fallible (Unit {0}) → Option Text
  record_error (pass _) = none
  record_error (fail e) = some e

  -- What follows the package manager; `started_record` is the record of the attempt.
  unfoldable pub conclude :
      Text → AttemptRecord → Fallible UpgradeOutcome → W → Fallible ApplyDisposition × W
  unfolding settle record_error
  conclude config_dir started_record (pass (swapped from to)) w =
      let (written, w') =
        write_attempt config_dir
          (record started_record { outcome = upgraded; detail = from ++ (codes " -> " ++ to) }) w in
      (pass (restart from to (record_error written)), w')
  conclude config_dir started_record (pass (current_already current)) w =
      settle config_dir
        (record started_record {
          outcome = already_current;
          detail = codes "channel and installed binary are " ++ current;
        })
        w
  conclude config_dir started_record (fail error) w =
      let (written, w') =
        write_attempt config_dir (record started_record { outcome = failed; detail = error }) w in
      (pass (reconnect failed error), w')

  -- With a newer target: the package manager runs behind the durable record only.
  unfoldable pub attempt :
      Text → AttemptRecord → (W → Fallible UpgradeOutcome × W) → W → Fallible ApplyDisposition × W
  unfolding conclude
  attempt config_dir started_record upgrade w =
      let (written, w') = write_attempt config_dir started_record w in
      elim written [
        | fail e ↦ (fail e, w')
        | pass _ ↦ let (result, w'') = upgrade w' in conclude config_dir started_record result w''
      ]

  unfoldable pub compare_versions : Option (ℕ × ℕ × ℕ) → Option (ℕ × ℕ × ℕ) → Option Bool
  compare_versions none current = none
  compare_versions (some target) none = none
  compare_versions (some target) (some current) = some (is_newer target current)

  unfoldable pub apply :
      Text → Text → Text → ℕ → (W → Fallible UpgradeOutcome × W) → W → Fallible ApplyDisposition × W
  unfolding compare_versions attempt settle
  apply config_dir target_version current_version attempted_at_ms upgrade w =
      let blank : AttemptRecord = record {
        target_version = target_version;
        attempted_at_ms = attempted_at_ms;
        outcome = started;
        detail = codes "idle-safe connection handoff complete";
      } in
      elim (compare_versions (version_triplet target_version) (version_triplet current_version)) [
        | none ↦
            settle config_dir
              (record blank {
                outcome = rejected;
                detail = codes "dispatch target is not an exact semantic version";
              })
              w
        | some newer ↦
            if newer
            then attempt config_dir blank upgrade w
            else settle config_dir
                (record blank {
                  outcome = already_current;
                  detail = codes "ignored non-newer dispatch target; running " ++ current_version;
                })
                w
      ]
