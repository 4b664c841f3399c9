-- ===== src/Assembly.antt =====
-- The assembly module (platform/backend/internal/modules/assembly) and the workflow that runs it
-- (platform/backend/internal/workflows/assemblyexecution).
pub mod Model
pub mod Transition
pub mod Evolution
pub mod Document
pub mod Store
pub mod Evidence
pub mod Service
pub mod Workflow
mod Tests
