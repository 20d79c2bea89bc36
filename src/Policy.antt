-- ===== src/Policy.antt =====
-- packages/facilitator-policy: the manifest of a smart account's policies (src/manifest.ts) and, in
-- children, the checks of simulation events (src/events.ts), of the transaction
-- (src/verify-authorization.ts) and of the whole payment (src/verify.ts).
pub mod Manifest
pub mod Events
pub mod Spending
pub mod Simulation
pub mod Payment
