-- ===== src/Tests.antt =====
-- Runs of the model at concrete inputs, and each theorem at an input that meets its hypotheses.
pub mod FifoTests
pub mod PhyTests
pub mod BusTests
pub mod LoopTests
pub mod LinkTests
pub mod PrintTests
pub mod Rn52Tests
pub mod AppTests
pub mod MainTests
pub mod DemoTests
