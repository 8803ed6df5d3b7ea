-- ===== src/Engine.antt =====
-- pl_transpiler/engine.py and its mixins: the bar-by-bar order and fill engine.
pub mod State
pub mod Trades
pub mod Position
pub mod FillLog
pub mod Stops
pub mod Outcomes
pub mod Orders
pub mod Bar
pub mod Report
pub mod Invariant
