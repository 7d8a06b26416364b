-- ===== src/Core.antt =====
-- The crate `core`: the event schema, the placement of paths, the rule catalog, the rules engine
-- and its findings.
pub mod Events
pub mod Errors
pub mod Zones
pub mod Findings
pub mod Coverage
pub mod Catalog
pub mod Rules
pub mod Tests
