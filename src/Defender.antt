-- ===== src/Defender.antt =====
-- The defender: its policy on proposed actions, its capability graph, its evidence, its state
-- store and the loop that joins them.
pub mod Address
pub mod Config
pub mod Policy
pub mod Graph
pub mod Flags
pub mod Kimi
pub mod Evidence
pub mod Service
pub mod Store
pub mod Collect
mod Tests
mod GraphTests
mod FlagTests
mod StoreTests
mod LoopTests
mod ViewTests
