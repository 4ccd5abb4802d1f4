-- ===== src/Examples.antt =====
-- The theorems at concrete inputs, and runs of the code. `Bank` is a chain with one denomination.
pub mod Bank
pub mod Samples
mod PoolTests
mod LpTests
mod NodeTests
mod SelectionTests
mod TrackerTests
mod GrantsTests
mod FulfillerTests
mod SourcesTests
mod FinalizerTests
mod StartupTests
mod ClientTests
mod SystemTests
mod LaunchTests
mod RunTests
mod CommandTests
mod IndexerTests
