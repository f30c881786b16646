-- ===== src/Cache.antt =====
-- crates/supervisor-core/src/cache.rs: the size-capped LRU sweep over the content-addressed caches.
-- The events that the eviction loop logs are kept, since they say what it did; other log output is
-- left out. A sum of sizes wraps at 64 bits, as a release build's does.
pub mod Sizes
pub mod Eviction
pub mod Order
pub mod Outcome
use decent_render.Prelude.{
  ℕ, zero, suc, ◌+◌, ◌-◌, ◌*◌, ◌/◌, ◌%◌, ◌^◌, Bool, true, false, not, ◌&&◌, List, [], ◌∷◌, ◌++◌,
  Option, none, some, Text, codes, text_eq, length, any, leb, ltb, ◌==◌, unwrap_or, if◌then◌else◌,
  starts_with,
}
use decent_render.Prelude.Decimal.{parse, print, u64_max}
use decent_render.Os.{
  Os, Metadata, Node, Nodes, unreadable, leaf, dir, nil, cons, IoResult, ok, err, join,
}
use decent_render.FileTree.{push_all, size}

abbrev pub max_cache_bytes : ℕ
max_cache_bytes = 20 * 1024 * 1024 * 1024

abbrev pub min_cache_bytes : ℕ
min_cache_bytes = 1024 * 1024 * 1024

abbrev pub last_use_marker : Text
last_use_marker = codes ".last-use"

abbrev nanos_per_sec : ℕ
nanos_per_sec = 1_000_000_000

-- The seconds that a `SystemTime` can hold.
abbrev i64_max : ℕ
i64_max = 2 ^ 63 - 1

abbrev in_range : Option ℕ → ℕ
in_range none = max_cache_bytes
in_range (some bytes) = if leb min_cache_bytes bytes then bytes else max_cache_bytes

pub parse_cache_cap_override : Option Text → ℕ
parse_cache_cap_override none = in_range none
parse_cache_cap_override (some raw) = in_range (parse u64_max raw)

pub record Entry : Type 0 where
  pub kind : Text
  pub sha : Text
  pub path : Text
  pub bytes : ℕ
  pub last_use : ℕ

unfoldable pub in_flight_key : Entry → Text
in_flight_key e = e.kind ++ b':' ∷ e.sha

abbrev pub payloads : Text
payloads = codes "payloads"

abbrev pub browsers : Text
browsers = codes "browsers"

abbrev pub bundles : Text
bundles = codes "bundles"

unfoldable pub completion_marker : Text → Text
completion_marker kind =
    if text_eq kind payloads
    then codes "decent-render-runner"
    else if text_eq kind browsers
    then codes "executable"
    else if text_eq kind bundles
    then codes "index.html"
    else []

-- `total += md.blocks() * 512`, in 64 bits.
unfoldable pub add_blocks : Metadata → ℕ → ℕ
add_blocks md total = (total + md.blocks * 512) % 2 ^ 64

-- The loop of `dir_size`, on fuel.
unfoldable pub walk_size : ℕ → Nodes → ℕ → ℕ
walk_size zero stack total = total
walk_size (suc f) nil total = total
walk_size (suc f) (cons unreadable stack) total = walk_size f stack total
walk_size (suc f) (cons (leaf md) stack) total = walk_size f stack (add_blocks md total)
walk_size (suc f) (cons (dir md kids) stack) total =
    walk_size f (push_all kids stack) (add_blocks md total)

-- The fuel is one more than the number of entries below `root`.
unfoldable pub dir_size : Node → ℕ
unfolding walk_size add_blocks
dir_size root = walk_size (suc (size root)) (cons root nil) 0

pub record SweepOutcome : Type 0 where
  pub entries : ℕ
  pub bytes_before : ℕ
  pub bytes_after : ℕ
  pub evicted : ℕ

-- What the eviction loop logs: a removal, or a removal that failed.
pub data Event : Type 0 where
  removed failed : Entry → Event

pub record EvictionResult (W : Type 0) : Type 0 where
  pub running : ℕ
  pub evicted : ℕ
  pub log : List Event
  pub world : W

-- `entries.sort_by_key(|e| e.last_use)`, a stable sort of the standard library.
pub insert_entry : Entry → List Entry → List Entry
insert_entry e [] = e ∷ []
insert_entry e (f ∷ fs) =
    let later = insert_entry e fs in if leb e.last_use f.last_use then e ∷ f ∷ fs else f ∷ later

pub sort_by_last_use : List Entry → List Entry
unfolding insert_entry
sort_by_last_use [] = []
sort_by_last_use (e ∷ es) = insert_entry e (sort_by_last_use es)

-- `entries.iter().map(|e| e.bytes).sum()`, in 64 bits.
pub sum_bytes : List Entry → ℕ
sum_bytes [] = 0
sum_bytes (e ∷ es) = (e.bytes + sum_bytes es) % 2 ^ 64

unfoldable pub is_protected : List Text → Entry → Bool
is_protected in_flight e = any (λ key. text_eq key (in_flight_key e)) in_flight

module _ {W : Type 0} (os : Os W) where
  open os use {
    remove_dir_all, read_dir, tree, is_dir, exists, read_to_string, write, symlink_modified, now,
    trim,
  }

  -- The time that a marker file's text gives.
  marker_time : Option Text → Option ℕ
  marker_time none = none
  marker_time (some text) = elim (parse u64_max (trim text)) [
    | none ↦ none
    | some secs ↦ if leb secs i64_max then some (secs * nanos_per_sec) else none
  ]

  pub entry_last_use : Text → W → ℕ
  unfolding marker_time
  entry_last_use path w = elim (marker_time (read_to_string (join path last_use_marker) w)) [
    | some t ↦ t
    | none ↦ unwrap_or 0 (symlink_modified path w)
  ]

  unfoldable pub touch_last_use : Text → W → Bool × W
  touch_last_use path w =
      let secs = unwrap_or 0 (now w) / nanos_per_sec in
      let written = write (join path last_use_marker) (print secs) w in
      if secs == 0 then (false, w) else (elim written.0 [ ok ↦ true | err e ↦ false ], written.1)

  -- Whether the sweep accounts for a name under a root: it is no hidden sibling, is a directory and
  -- holds the completion marker of its kind.
  unfoldable pub is_entry : Text → Text → Text → W → Bool
  unfolding completion_marker
  is_entry kind root name w =
      not (starts_with (codes ".") name)
      && (is_dir (join root name) w && exists (join (join root name) (completion_marker kind)) w)

  -- The loop over the names of one root.
  unfoldable pub collect : Text → Text → List (Option Text) → W → List Entry
  collect kind root [] w = []
  collect kind root (none ∷ names) w = collect kind root names w
  collect kind root (some name ∷ names) w =
      let rest = collect kind root names w in
      let path = join root name in
      if is_entry kind root name w
      then record {
        kind = kind;
        sha = name;
        path = path;
        bytes = dir_size (tree path w);
        last_use = entry_last_use path w;
      }
        ∷ rest
      else rest

  unfoldable pub collect_root : Text → Text → W → List Entry
  unfolding collect
  collect_root root kind w = elim (read_dir (join root kind) w) [
    | none ↦ []
    | some names ↦ collect kind (join root kind) names w
  ]

  unfoldable pub collect_all : Text → W → List Entry
  unfolding collect_root
  collect_all root w =
      collect_root root payloads w ++ (collect_root root browsers w ++ collect_root root bundles w)

  -- The eviction loop: `running` is the size so far, `evicted` the count so far.
  pub evict : ℕ → List Text → List Entry → ℕ → ℕ → W → EvictionResult W
  evict cap in_flight [] running evicted w = record {
    running = running;
    evicted = evicted;
    log = [];
    world = w;
  }
  evict cap in_flight (e ∷ es) running evicted w =
      let attempt = remove_dir_all e.path w in
      let stop : EvictionResult W = record {
        running = running;
        evicted = evicted;
        log = [];
        world = w;
      } in
      let skip = evict cap in_flight es running evicted w in
      let gone = evict cap in_flight es (running - e.bytes) (evicted + 1) attempt.1 in
      let kept = evict cap in_flight es running evicted attempt.1 in
      if ltb cap running
      then (if is_protected in_flight e then skip else elim attempt.0 [
        | ok ↦ record gone { log = removed e ∷ gone.log }
        | err x ↦ record kept { log = failed e ∷ kept.log }
      ])
      else stop

  pub sweep_caches : Text → ℕ → List Text → W → SweepOutcome × EvictionResult W
  unfolding collect_all sort_by_last_use sum_bytes evict
  sweep_caches root cap in_flight w =
      let entries = collect_all root w in
      let bytes_before = sum_bytes entries in
      let done = evict cap in_flight (sort_by_last_use entries) bytes_before 0 w in
      (
        record {
          entries = length entries;
          bytes_before = bytes_before;
          bytes_after = done.running;
          evicted = done.evicted;
        },
        done,
      )
