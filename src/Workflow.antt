-- ===== src/Workflow.antt =====
-- backend/secuscan/workflows.py and the workflow tables of backend/secuscan/database.py: the scheduler,
-- the runs it records and the versions they are of.
pub mod Runs
pub mod Versions
pub mod Steps
pub mod Scheduler
mod Tests
