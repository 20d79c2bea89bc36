-- ===== src/Payer/Receipt/Laws.antt =====
-- What `assertReceiptMatches` still decides about a receipt that `settle` has built.
use agent_allowance.Common.{
  String, true, false, not, truthy, ◌||◌, ◌&&◌, ◌≡◌, or_else, ◌===◌, ===_refl, arith, next,
  >>=-eq-next, next-injective, subst, throw_if,
}
use agent_allowance.Shared.{PaymentRequirements, SettlementReceipt}
use agent_allowance.Payer.Receipt.{
  SettleAnswer, Exchange, body, broken, settle_receipt, receipt_matches, is_sha256,
}

fits :
    (requirements : PaymentRequirements) (payer transaction expected_payer : String)
    → receipt_matches
        (record {
          success = true;
          transaction = transaction;
          network = requirements.network;
          payer = payer;
          amount = requirements.amount;
          asset = requirements.asset;
          pay_to = requirements.pay_to;
          challenge_id = or_else requirements.extra.challenge_id "";
        })
        requirements
        expected_payer
      ≡ (payer === expected_payer && is_sha256 transaction)
unfolding receipt_matches
fits requirements payer transaction expected_payer = ground (
  arith,
  ===_refl requirements.network,
  ===_refl requirements.amount,
  ===_refl requirements.asset,
  ===_refl requirements.pay_to,
  ===_refl (or_else requirements.extra.challenge_id ""),
)

-- A receipt that the settlement client has built passes the receipt test for its own requirements
-- exactly when its payer is the expected one and its transaction is a hash: whatever the facilitator
-- answers, the network, the amount, the asset, the recipient and the challenge are the required ones.
pub receipt_matches-settle_receipt :
    {R : Type 0} (answer : Exchange SettleAnswer) (requirements : PaymentRequirements)
    (receipt : SettlementReceipt) (expected_payer : String)
    → settle_receipt {R = R} answer requirements ≡ next receipt
    → receipt_matches receipt requirements expected_payer
      ≡ (receipt.payer === expected_payer && is_sha256 receipt.transaction)
unfolding settle_receipt
receipt_matches-settle_receipt (body a) requirements receipt expected_payer h =
    let refused =
      not (or_else a.success false) || not (truthy a.transaction) || not (truthy a.payer) in
    let message = or_else a.error_reason "Facilitator settlement failed" in
    let (u1, h1, k1) = >>=-eq-next (throw_if refused message) _ h in
    subst
      (λ (r : SettlementReceipt).
        receipt_matches r requirements expected_payer
        ≡ (r.payer === expected_payer && is_sha256 r.transaction))
      (next-injective k1)
      (fits requirements (or_else a.payer "") (or_else a.transaction "") expected_payer)
receipt_matches-settle_receipt (broken m) requirements receipt expected_payer h = cc
