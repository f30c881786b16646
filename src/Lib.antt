-- ===== src/Lib.antt =====
-- decent-render: the core of the render node's supervisor, the Rust crate crates/supervisor-core. A
-- node holds one outbound connection to the dispatch service, takes one render job at a time, runs it
-- in a child process in a working directory of its own, and reports how it ended. The directories of
-- jobs are purged, those that a killed supervisor left are swept, and the downloaded artifacts are
-- kept in a cache with a cap on its size.
--
-- The parts, and the files that model them:
-- - Os: what the standard library and the system calls give (files, clock, process id, `kill`), a
--   record of functions over an abstract world that every definition takes as a parameter. FileTree:
--   the trees that the walks of the code share.
-- - Purge (crates/supervisor-core/src/purge.rs): the list of recorded failures, taken and returned by
--   each operation, and the creation and the drop of a workdir. Purge/Failures and Purge/Workdir
--   prove what they do.
-- - Sweep (crates/supervisor-core/src/sweep.rs): the classification of names, the sweep of the temp
--   dir and the retry of recorded failures; Sweep/Names, Mtime, Safety and Retry.
-- - Cache (crates/supervisor-core/src/cache.rs): the cap, the accounting and the eviction; Cache/Sizes,
--   Order, Eviction and Outcome.
-- - Protocol (crates/supervisor-core/src/protocol.rs): the frames; JSON is serde's. Status
--   (crates/supervisor-core/src/status.rs): the snapshot that is shown.
-- - Runner (crates/supervisor-core/src/runner.rs): the record of a job in flight and the limits; Event
--   the lines a runner prints, Host the calls on processes and signals, Browser the wrapper script and
--   the sweep of recorded browsers, Environment what the child inherits, Artifact the install into the
--   cache, Workdir the sampler, Terminate `terminate_child`, Loop the `select!` of `run_job_inner`,
--   Child its spawn and its reap, Job `run_job` over them all. Silence is the timing of that `select!`
--   alone. The other files beside these hold theorems.
-- - Artifact (crates/supervisor-core/src/artifact_fetch.rs): the download and the extraction.
-- - Token (crates/supervisor-core/src/worker_token.rs) with its child Dispatch
--   (crates/supervisor-core/src/dispatch_url.rs): what the node checks of its configuration.
-- - Keepawake (crates/supervisor-core/src/keepawake.rs): the idle-sleep assertion of a job, on macOS.
-- - Upgrade (bins/decent/src/auto_upgrade.rs and three functions of bins/decent/src/main.rs): the
--   upgrade that the gate of a session asks for.
-- - Connection (crates/supervisor-core/src/connection.rs): Gate is `AutoUpgradeGate`, Backoff is
--   `ReconnectBackoff`, CancelAck has the acks and their queue, Session the variables of
--   `run_session` as a record and the drain, Connect what comes before its loop, Timers, Worker and
--   Server the arms of the `select!`, with `step` over them all, and Run whole sessions and
--   `run_until_exit`. Drain, Ownership, Bounds, Waiting, Cancel and the children of Run hold
--   the theorems.
-- - Prelude: texts as lists of character codes, Boolean tests, decimal numerals, lists over native
--   numbers. Tests: small machines, a session and the theorems at work on them.
--
-- A session is a state that each arm takes and returns; what it does to the outside (frames, spawns,
-- joins, cache sweeps) is a trace in the state, the latest effect first. What the outside answers in
-- one iteration is the record `Env`, and the events come in any order: the order that `biased` gives
-- to arms that are ready at once is one of them. A task is a number; that its join returns is an
-- entry of the trace. The connection sweeps the caches and the workdirs at points that the trace and
-- the start of a session show; what a sweep does is Sweep's and Cache's.
--
-- A job's machine is a record of what the job calls outside of this code; the turns of its loop are a
-- list, one entry for each arm that became ready with what it read, and each operation that acts on
-- the child or on the workdir adds to a list of acts, the first act first. A list of turns that ends
-- before the loop does is a loop that waits, and the wait behind the end of stdout, which the code does
-- not limit, may never return; a wait for a child that was killed is taken to return. A download's
-- bytes are handed to tokio's file, and only a flush without an error says that they are on disk.
--
-- Numbers are those of the machine where the code can reach their limits: sizes and job counters wrap
-- at 2^64, heartbeats at 2^32, the attempt saturates, a duration is capped. Times count nanoseconds,
-- or milliseconds where the code does. Loops are structural where they walk a list. The walks of a
-- tree run on fuel of one more than its entries, the connect loop on one more than its attempts, the
-- trimming of a word on its length, the teardown of a caffeinate on one poll more than a second has
-- pauses: the walks visit everything, and the connect loop and the teardown end. A series of events or
-- of sessions is finite, and theorems hold for every one.
--
-- Not modelled: log output; the branches for other systems than Unix; the construction of the HTTP
-- client; the probing of capabilities.rs; the rest of the command line in bins/decent and the desktop
-- app in apps/decent-app, which call this crate.
pub mod Prelude
pub mod Os
pub mod FileTree
pub mod Purge
pub mod Sweep
pub mod Cache
pub mod Protocol
pub mod Status
pub mod Token
pub mod Artifact
pub mod Runner
pub mod Connection
pub mod Upgrade
pub mod Keepawake
pub mod Tests
