-- ===== src/Examples.antt =====
-- The theorems at concrete inputs.
pub mod Fixtures
mod Charts
mod Updates
mod Selections
