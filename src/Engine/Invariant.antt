-- ===== src/Engine/Invariant.antt =====
-- The invariant of the fill engine, and that fills, stops and whole bars preserve it.
mod Frame
mod Fills
mod Outcomes
mod Steps
mod Exits
pub use Frame.*
pub use Fills.*
pub use Outcomes.*
pub use Steps.*
pub use Exits.*
