-- ===== src/Generation.antt =====
-- The generator of platform/backend/internal/modules/assembly/generation: regions of integration files,
-- the preparation of a target, and the commit of a change set.
pub mod Model
pub mod Region
pub mod Paths
pub mod Inspect
pub mod Target
pub mod Commit
mod Tests
