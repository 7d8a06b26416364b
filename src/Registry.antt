-- ===== src/Registry.antt =====
-- registry/src: recordings reduced to comparable behaviours, their difference, and the index of them.
pub mod Behavior
pub mod Diff
pub mod Errors
pub mod Index
pub mod Tests
