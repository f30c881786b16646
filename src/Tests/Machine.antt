-- ===== src/Tests/Machine.antt =====
-- A node at work: a world in which every path exists once tar has run, and of the text that was
-- written last, a server that answers with three bytes, and a child that exits well.
use decent_render.Prelude.{
  false, refl, Bool, true, List, [], ◌∷◌, ◌++◌, Option, none, some, Text, codes, split,
}
use decent_render.Prelude.Decimal.{print}
use decent_render.Os.{Os, leaf, ok, pass, delivered}
use decent_render.Artifact.{Net, Delivery, chunk, answered, block, tar_exited}
use decent_render.Artifact.Download.{Flushes}
use decent_render.Protocol.{JobAssignMessage}
use decent_render.Runner.Event.{RunnerEvent, done}
use decent_render.Runner.Host.{Host, exited}
use decent_render.Runner.Loop.{Turn, Event, line, tick, eof, cancel}
use decent_render.Runner.Job.{Machine}
use decent_render.Tests.World.{tmp, file}
use decent_render.Tests.Sessions.{assignment}

-- Whether tar has run, and the text written last.
abbrev pub Desk : Type 0
Desk = Bool × Text

abbrev pub home : Text
home = codes "/h"

abbrev pub desk : Os Desk
desk = record {
  remove_dir_all = λ p w. (ok, w);
  create_dir = λ p w. (ok, w);
  read_dir = λ p w. none;
  tree = λ p w. leaf file;
  is_dir = λ p w. w.0;
  exists = λ p w. w.0;
  read_to_string = λ p w. some w.1;
  write = λ p text w. (ok, (w.0, text));
  symlink_modified = λ p w. none;
  kill_0 = λ pid w. delivered;
  now = λ w. none;
  sleep = λ w. w;
  process_id = 42;
  temp_dir = tmp;
  file_name = λ p. none;
  trim = λ text. text;
}

abbrev pub body : List Delivery
body = chunk (codes "ab") ∷ chunk (codes "c") ∷ []

-- The digest is the text itself.
abbrev pub wire : Net Desk
wire = record {
  os = desk;
  send = λ url w. (answered (some 3) body, w);
  sha256 = λ text. text;
  create_file = λ p w. (ok, (w.0, []));
  append = λ p c w. (ok, (w.0, w.1 ++ c));
  flush = λ p w. (ok, w);
  remove_file = λ p w. (ok, w);
  create_dir_all = λ p w. (ok, w);
  rename = λ from to w. (ok, w);
  set_permissions = λ p m w. (ok, w);
  parent = λ p. some (codes "/h/.decent-worker/payloads");
  spawn_tar = λ p w. (ok, w);
  open_file = λ p w. some (block w.1 ∷ []);
  feed = λ b w. (ok, w);
  wait_tar = λ w. (tar_exited true (codes "exit status: 0"), (true, w.1));
}

abbrev pub on_disk : Text → Desk → Text
on_disk p w = w.1

pub wire-Flushes : Flushes wire on_disk on_disk
wire-Flushes = record {
  created = λ p w e. refl;
  appended = λ p c w e. refl;
  flushed = λ p w e. refl;
}

abbrev reading : Text → Option RunnerEvent
reading [] = none
reading (c ∷ s) = some (done 10 20 none)

abbrev pub node : Host Desk
node = record {
  net = wire;
  killpg = λ pid s w. w;
  ps_lstart = λ pid w. some (codes "noon");
  split_whitespace = λ text. split b' ' text;
  lines = λ text. split b'\n' text;
  child_id = λ w. some 99;
  wait_in_grace =
      λ w. (some (exited (record { success = false; display = codes "signal: 15" })), w);
  exit = λ w. (some (exited (record { success = true; display = codes "exit status: 0" })), w);
  wait = λ w. (exited (record { success = true; display = codes "exit status: 0" }), w);
  vars = (codes "PATH", codes "/bin") ∷ (codes "WORKER_TOKEN", codes "secret") ∷ [];
  spawn = λ runner env dir w. (pass (record { stdin = true; stdout = true }), w);
  write_all = λ text w. (ok, w);
  shutdown = λ w. (ok, w);
  from_str = reading;
  to_vec = λ assign. pass (codes "{}");
  format_secs = λ n. print n;
}

abbrev pub assigned : JobAssignMessage
assigned = record { fields = assignment }

-- The payload is cached.
abbrev pub machine : Machine Desk
machine = record { world = (true, codes "7 noon"); counter = 0; purge_failures = [] }

abbrev now_turn : Event → Turn Desk
now_turn e = record { happened = λ w. w; event = e }

-- A sample, a report, and the end of stdout.
abbrev pub good_turns : List (Turn Desk)
good_turns = now_turn (tick none) ∷ now_turn (line (codes "d")) ∷ now_turn eof ∷ []

abbrev pub sampled : List (Turn Desk)
sampled = now_turn (tick none) ∷ []

abbrev pub canceled : Turn Desk
canceled = now_turn cancel
