-- ===== src/Scenarios.antt =====
-- Concrete runs of the modelled parts.
pub mod Toy
pub mod Exchange
pub mod Runs
pub mod ExactRuns
pub mod PipeRuns
pub mod SessionRuns
pub mod PumpRuns
pub mod FrameRuns
pub mod CacheRuns
pub mod Team
pub mod ScopedRuns
pub mod ResourceRuns
pub mod Shop
pub mod UseRuns
