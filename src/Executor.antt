-- ===== src/Executor.antt =====
-- backend/secuscan/executor.py: `TaskExecutor`.
pub mod Lifecycle
pub mod Guardrails
pub mod Result
pub mod Streams
mod Tests
