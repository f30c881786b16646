-- ===== src/Tests/Upgrades.antt =====
-- An unattended upgrade whose package manager fails, and what its ledger does.
use mathlib.Core.Path.{subst}
use decent_render.Prelude.{
  ℕ, inl, zero, suc, ◌-◌, ◌≡◌, ◌⊎◌, refl, true, false, [], ◌∷◌, ◌++◌, Option, none, some, Text,
  codes, split, text_eq, arith, if◌then◌else◌,
}
use decent_render.Os.{leaf, ok, Fallible, pass, fail, delivered, join}
use decent_render.Artifact.{answered, tar_exited}
use decent_render.Upgrade.{
  Ledger, AttemptOutcome, AttemptRecord, started, failed, rejected, upgraded, already_current,
  reconnect, UpgradeOutcome, apply, suppression, write_attempt, version_triplet, attempt, conclude,
  settle, atomic_private_write, write_into, replace, set_mode, compare_versions, find_version,
  trim_text, trim_byte, strip, is_version, is_number, all_digits, triplet_of, numbers, is_newer,
  retry_suppress_ms, state_path, tmp_path,
}
use decent_render.Prelude.Decimal.{parse}
use decent_render.Upgrade.Fuse.{Keeps}
use decent_render.Upgrade.Suppression.{begun, apply_suppresses}
use decent_render.Upgrade.Newer.{IsLater, apply_runs}
use decent_render.Tests.World.{file}

-- The temp file and the state file, each with what it holds.
abbrev Files : Type 0
Files = Option Text × Option Text

abbrev config : Text
config = codes "/c"

mark : Text → Text → Text
mark [] rest = 0 ∷ rest
mark (c ∷ t) rest = suc c ∷ mark t rest

unmark : Text → Text × Text
unmark [] = ([], [])
unmark (zero ∷ s) = ([], s)
unmark (suc c ∷ s) = let (t, rest) = unmark s in (c ∷ t, rest)

unmark-mark : (t rest tail : Text) → unmark (mark t rest ++ tail) ≡ (t, rest ++ tail)
unfolding mark unmark
unmark-mark [] rest tail = refl
unmark-mark (c ∷ t) rest tail = ground (arith, unmark-mark t rest tail)

abbrev code_of : AttemptOutcome → ℕ
code_of started = 0
code_of failed = 1
code_of rejected = 2
code_of upgraded = 3
code_of already_current = 4

abbrev recorded_outcome : ℕ → AttemptOutcome
recorded_outcome zero = started
recorded_outcome (suc zero) = failed
recorded_outcome (suc (suc zero)) = rejected
recorded_outcome (suc (suc (suc zero))) = upgraded
recorded_outcome (suc (suc (suc (suc n)))) = already_current

recorded_outcome-code_of : (o : AttemptOutcome) → recorded_outcome (code_of o) ≡ o
recorded_outcome-code_of started = refl
recorded_outcome-code_of failed = refl
recorded_outcome-code_of rejected = refl
recorded_outcome-code_of upgraded = refl
recorded_outcome-code_of already_current = refl

record_text : AttemptRecord → Text
unfolding mark
record_text r = code_of r.outcome ∷ r.attempted_at_ms ∷ mark r.target_version (mark r.detail [])

text_record : Text → Option AttemptRecord
unfolding unmark
text_record (o ∷ at ∷ s) = some (record {
  target_version = (unmark s).0;
  attempted_at_ms = at;
  outcome = recorded_outcome o;
  detail = (unmark (unmark s).1).0;
})
text_record _ = none

reads_back : (r : AttemptRecord) → text_record (record_text r ++ b'\n' ∷ []) ≡ some r
unfolding record_text text_record
reads_back r = ground (
  arith,
  unmark-mark r.target_version (mark r.detail []) (b'\n' ∷ []),
  unmark-mark r.detail [] (b'\n' ∷ []),
  recorded_outcome-code_of r.outcome,
)

encoded :
    (r : AttemptRecord) (bytes : Text)
    → ◌≡◌ {A = Fallible Text} (pass (record_text r)) (pass bytes)
    → record_text r ≡ bytes
encoded r bytes e = cc e

abbrev paper : Ledger Files
paper = record {
  net = record {
    os = record {
      remove_dir_all = λ p w. (ok, w);
      create_dir = λ p w. (ok, w);
      read_dir = λ p w. none;
      tree = λ p w. leaf file;
      is_dir = λ p w. true;
      exists = λ p w. true;
      read_to_string = λ p w. none;
      write = λ p text w. (ok, (some text, w.1));
      symlink_modified = λ p w. none;
      kill_0 = λ pid w. delivered;
      now = λ w. none;
      sleep = λ w. w;
      process_id = 42;
      temp_dir = codes "/tmp";
      file_name = λ p. some (codes "auto-upgrade-state.json");
      trim = λ text. text;
    };
    send = λ url w. (answered none [], w);
    sha256 = λ text. text;
    create_file = λ p w. (ok, w);
    append = λ p c w. (ok, w);
    flush = λ p w. (ok, w);
    remove_file = λ p w. (ok, (none, w.1));
    create_dir_all = λ p w. (ok, w);
    rename = λ from to w. (ok, (none, w.0));
    set_permissions = λ p m w. (ok, w);
    parent = λ p. some config;
    spawn_tar = λ p w. (ok, w);
    open_file = λ p w. none;
    feed = λ b w. (ok, w);
    wait_tar = λ w. (tar_exited true [], w);
  };
  split_whitespace = λ text. split b' ' text;
  read = λ p w. if text_eq p (codes "/c/auto-upgrade-state.json") then w.1 else w.0;
  is_file = λ p w. false;
  to_vec_pretty = λ r. pass (record_text r);
  from_slice = text_record;
}

paper-Keeps : Keeps paper config config
unfolding state_path tmp_path join text_eq record_text text_record
paper-Keeps = record {
  up_is = refl;
  dirs = λ w. refl;
  modes = λ p q m w. refl;
  writes = λ bytes w e. refl;
  spares = λ bytes w. refl;
  moves = λ w e. refl;
  stays = λ w e. absurd (e refl);
  removes = λ w. refl;
  reads = λ r bytes e.
      subst (λ b. text_record (b ++ b'\n' ∷ []) ≡ some r) (encoded r bytes e) (reads_back r);
}

-- The package manager fails.
abbrev stuck : Files → Fallible UpgradeOutcome × Files
stuck w = (fail (codes "brew lock"), w)

reconnects :
    (apply paper config (codes "rust-0.0.12") (codes "0.0.11") 7 stuck (none, none)).0
    ≡ pass (reconnect failed (codes "brew lock"))
unfolding apply attempt conclude settle write_attempt atomic_private_write write_into replace
    set_mode compare_versions version_triplet find_version trim_text trim_byte strip is_version
    is_number all_digits triplet_of numbers is_newer split text_eq join record_text parse
reconnects = refl

apply_suppresses_example :
    suppression paper config 9
      (apply paper config (codes "rust-0.0.12") (codes "0.0.11") 7 stuck (none, none)).1
    ≡ some (codes "rust-0.0.12", retry_suppress_ms - (9 - 7))
apply_suppresses_example =
    apply_suppresses paper config config paper-Keeps (codes "rust-0.0.12") (codes "0.0.11") 7 9
      stuck (none, none) (λ v. refl) (inl (failed, codes "brew lock", reconnects)) (omega arith)

apply_runs_example :
    (apply paper config (codes "0.0.10") (codes "0.0.11") 7 stuck (none, none)
      ≡ apply paper config (codes "0.0.10") (codes "0.0.11") 7 (λ w. (fail [], w)) (none, none))
    ⊎ ((target : ℕ × ℕ × ℕ) × (current : ℕ × ℕ × ℕ) × (version_triplet paper (codes "0.0.10")
          ≡ some target)
        × (version_triplet paper (codes "0.0.11") ≡ some current)
        × IsLater target current
        × ((write_attempt paper config (begun (codes "0.0.10") 7) (none, none)).0 ≡ pass tt))
apply_runs_example =
    apply_runs paper config (codes "0.0.10") (codes "0.0.11") 7 stuck (λ w. (fail [], w))
      (none, none)
