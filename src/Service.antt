-- ===== src/Service.antt =====
-- CodeJam/apps/server/src/agent-service.ts: the Agents, their Runs, and the control plane's grants.
-- A closure that the source hands to `store.mutate` is a function from a database to a result; what
-- happens between two waits is one step.
pub mod Store
pub mod Progress
pub mod Agents
pub mod Runs
pub mod Retryable
pub mod Admission
pub mod Changes
pub mod Execution
pub mod Migration
pub mod Startup
pub mod Finalization
pub mod Revocation
pub mod Queries
