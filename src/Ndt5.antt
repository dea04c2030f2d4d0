-- ===== src/Ndt5.antt =====
-- The tests of the ndt5 protocol: ndt5/.
pub mod C2s
pub mod Meta
pub mod S2c
pub mod Login
pub mod Suites
pub mod Panics
pub mod SingleServing
pub mod Events
pub mod Labels
pub mod Control
pub mod Plain
pub mod Handler
pub mod Servers
pub mod Saving
mod Tests
