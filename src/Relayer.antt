-- ===== src/Relayer.antt =====
-- packages/relayer-plugin-x402-facilitator: the plugin's routes, the verification
-- and the settlement of a payment.
pub mod Reasons
pub mod Entries
pub mod Transfers
pub mod Request
pub mod Profile
pub mod Signatures
pub mod Verify
pub mod Channel
pub mod Settle
pub mod Arguments
pub mod Guards
pub mod Handler
