-- ===== src/Core.antt =====
-- Setting up the core, src/components/sk_core.c. An engine is a number: 0 is the master, the workers
-- follow, and behind them the background engines.
pub mod Engines
pub mod Linked
pub mod Setup
pub mod Workflows
pub mod Unique
pub mod Paths
pub mod Init
pub mod Ready
mod Tests
