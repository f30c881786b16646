-- ===== src/Tests.antt =====
-- Concrete runs: a small machine, a session and the theorems at work on them.
pub mod World
pub mod Files
pub mod Caches
pub mod Sessions
pub mod Runs
pub mod Machine
pub mod Jobs
pub mod Fetches
pub mod Tokens
pub mod Upgrades
pub mod Awake
