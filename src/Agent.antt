-- ===== src/Agent.antt =====
-- packages/sdk/src/agent-allowance.ts: the agent: its allowances, its evidence
-- and its payments.
pub mod Preflight
pub mod Evidence
pub mod Attempt
pub mod Pay
pub mod System
pub mod Advance
pub mod Safe
pub mod Once
pub mod Outcomes
pub mod Allowances
