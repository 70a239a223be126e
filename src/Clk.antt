-- ===== src/Clk.antt =====
-- The clocks of 32.CCF子系统: the gate, its parent of fixed rate, and a user of the gate.
pub mod Gate
pub mod Tree
mod Tests
pub mod Setup
