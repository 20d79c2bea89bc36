-- ===== src/Payer.antt =====
-- packages/x402-payer: the facilitator's client (src/facilitator.ts), the receipt test
-- (src/receipt.ts) and the choice of a transaction fee (src/payment.ts).
pub mod Fee
pub mod Receipt
