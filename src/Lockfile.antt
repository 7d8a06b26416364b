-- ===== src/Lockfile.antt =====
-- lockfile/src: what a lockfile resolves, and what changes between two of them.
pub mod Model
pub mod Diff
pub mod Tests
