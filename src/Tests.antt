-- ===== src/Tests.antt =====
-- The theorems at concrete inputs: one Agent, one Run, and the answers of a control plane and of a
-- Runtime that work.
mod Data
mod Executions
mod Handlers
mod Agents
mod Runtimes
mod Runners
mod Gateway
mod Fixtures
mod Requests
mod Browser
mod ControlPlane
mod Consoles
mod Files
mod Environments
