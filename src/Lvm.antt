-- ===== src/Lvm.antt =====
-- LVM management: the shared types (types/lvm.ts), the commands (server/utils/lvm-actions.ts), the
-- checks of a request (server/utils/lvm-validation.ts, server/utils/lvm-cluster-pv-validation.ts)
-- and the plan and its execution on every node of a cluster (server/utils/lvm-cluster-execution.ts).
pub mod Types
pub mod Commands
pub mod Plan
pub mod Execute
mod Tests
