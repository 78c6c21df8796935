-- ===== src/Deploy.antt =====
-- The deployment of a binary on SANs (server/utils/deployment-job-runner.ts) and the tables that it
-- keeps (server/db/repositories/deployment.repository.ts).
pub mod Types
pub mod Tables
pub mod Install
pub mod Runner
pub mod Jobs
pub mod Statuses
pub mod JobRows
pub mod Verdict
pub mod Ended
pub mod Ending
pub mod Rounds
mod Tests
