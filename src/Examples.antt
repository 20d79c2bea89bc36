-- ===== src/Examples.antt =====
-- The theorems at concrete values.
mod Fixtures
mod Merchant
mod Entries
mod Policies
mod Relay
mod Allowances
mod Payments
mod Settlement
mod Plugin
mod Amounts
mod Building
