-- ===== src/DemoApi.antt =====
-- apps/x402-demo-api/src/app.ts: the merchant's `/premium` route. The handler is cut at its awaits
-- (`facilitator.verify`, `facilitator.settle`); what stands between two awaits runs at once.
-- The parsed header, the digest and the kind of an address are parameters.
pub mod Table
pub mod System
pub mod Segments
pub mod Safe
pub mod Once
pub mod Unlock
use agent_allowance.Common.{
  ℕ, ◌+◌, String, Bool, true, false, not, ◌&&◌, ◌||◌, Option, none, some, ltb, ◌===◌, truthy,
  is_text, same_text, or_else, same_flag, eqb_ℤ, pos, if◌then◌else◌, next, Flow,
}
use agent_allowance.Shared.{PaymentRequirements, SettlementReceipt, StellarPaymentPayload}
use agent_allowance.Shared.Challenge.{decode_payment_signature}
use agent_allowance.Payer.Receipt.{
  VerifyAnswer, SettleAnswer, Exchange, body, broken, settle_receipt, receipt_matches,
}
use agent_allowance.DemoApi.Table.{
  Store, Row, Claim, acquired, pending, conflict, settled, get, create, claim, release, settle,
}

unfoldable pub same_requirements : PaymentRequirements → PaymentRequirements → Bool
same_requirements left right =
    left.scheme === right.scheme
    && left.network === right.network
    && left.amount === right.amount
    && left.pay_to === right.pay_to
    && left.asset === right.asset
    && eqb_ℤ left.max_timeout_seconds right.max_timeout_seconds
    && same_text left.extra.challenge_id right.extra.challenge_id
    && same_flag left.extra.are_fees_sponsored right.extra.are_fees_sponsored

pub record DemoApiConfig : Type 0 where
  pub network : String
  pub asset_contract : String
  pub merchant : String
  pub unapproved_recipient : String
  pub amount_atomic : String
  pub over_limit_amount_atomic : String

-- A response: a challenge (402), an error status with its code, or the protected resource.
pub data Reply : Type 0 where
  challenged : PaymentRequirements → Reply
  failed : ℕ → String → Reply
  unlocked : SettlementReceipt → Reply

pub data Phase : Type 0 where
  verifying : Phase
  settling : String → Phase

-- A request that waits for the facilitator: it holds the claim of its challenge. `settling` carries
-- the payer that was verified.
pub record Flight : Type 0 where
  pub id : String
  pub payload_hash : String
  pub payload : StellarPaymentPayload
  pub requirements : PaymentRequirements
  pub phase : Phase

pub data Progress : Type 0 where
  replied : Reply → Progress
  waiting : Flight → Progress

-- A request without PAYMENT-SIGNATURE: a fresh challenge that is valid for a minute.
unfoldable pub issue_challenge :
    DemoApiConfig → Store → String → Option String → ℕ → Progress × Store
unfolding create
issue_challenge config db challenge_id scenario now =
    let requirements : PaymentRequirements = record {
      scheme = "exact";
      network = config.network;
      amount =
          if is_text scenario "over-limit"
          then config.over_limit_amount_atomic
          else config.amount_atomic;
      pay_to =
          if is_text scenario "unapproved-recipient"
          then config.unapproved_recipient
          else config.merchant;
      max_timeout_seconds = pos 60;
      asset = config.asset_contract;
      extra = record { are_fees_sponsored = true; challenge_id = some challenge_id };
    } in
    elim (create db challenge_id requirements (now + 60000)) [
      | none ↦ (replied (failed 500 "Internal Server Error"), db)
      | some db' ↦ (replied (challenged requirements), db')
    ]

abbrev after_claim : Flight → Claim × Store → Progress × Store
after_claim flight (acquired, db) = (waiting flight, db)
after_claim flight (pending, db) = (replied (failed 202 "SETTLEMENT_PENDING"), db)
after_claim flight (conflict, db) = (replied (failed 409 "CHALLENGE_ALREADY_CLAIMED"), db)
after_claim flight (settled receipt, db) = (replied (unlocked receipt), db)

module _ (parse : String → Option StellarPaymentPayload) (stable_hash : String → String) where
  abbrev start_found :
      Store → String → StellarPaymentPayload → String → ℕ → Option Row → Progress × Store
  start_found db header payload id now none = (replied (failed 404 "CHALLENGE_NOT_FOUND"), db)
  start_found db header payload id now (some row) =
      if ltb row.expires_at now
      then (replied (failed 410 "CHALLENGE_EXPIRED"), db)
      else if not (same_requirements payload.accepted row.requirements)
      then (replied (failed 400 "PAYMENT_REQUIREMENTS_MISMATCH"), db)
      else after_claim
          (record {
            id = id;
            payload_hash = stable_hash header;
            payload = payload;
            requirements = row.requirements;
            phase = verifying;
          })
          (claim db id (stable_hash header))

  abbrev start_decoded : Store → String → ℕ → Option StellarPaymentPayload → Progress × Store
  start_decoded db header now none = (replied (failed 400 "MALFORMED_PAYMENT_SIGNATURE"), db)
  start_decoded db header now (some payload) =
      let id = or_else payload.accepted.extra.challenge_id "" in
      start_found db header payload id now (get db id)

  -- From the header to the claim.
  unfoldable pub start : Store → String → ℕ → Progress × Store
  unfolding get
  start db header now = start_decoded db header now (decode_payment_signature parse header)

-- `verifiedPayer`: a payer that is a contract.
abbrev verified_payer : (String → Option String) → VerifyAnswer → Option String
verified_payer address_type answer =
    if answer.is_valid
      && truthy answer.payer
      && is_text (address_type (or_else answer.payer "")) "contract"
    then answer.payer
    else none

abbrev after_verify : Store → Flight → Option String → Progress × Store
after_verify db flight none =
    (replied (failed 402 "FACILITATOR_REJECTED"), release db flight.id flight.payload_hash)
after_verify db flight (some payer) = (waiting (record flight { phase = settling payer }), db)

-- From the facilitator's verdict to the call of `facilitator.settle`.
unfoldable pub on_verified :
    (String → Option String) → Store → Flight → Exchange VerifyAnswer → Progress × Store
on_verified address_type db flight (broken m) =
    (replied (failed 502 "FACILITATOR_UNAVAILABLE"), release db flight.id flight.payload_hash)
on_verified address_type db flight (body answer) =
    after_verify db flight (verified_payer address_type answer)

abbrev on_receipt : Store → Flight → String → Flow ⊥ SettlementReceipt → Progress × Store
on_receipt db flight payer (next receipt) =
    if receipt_matches receipt flight.requirements payer
    then (replied (unlocked receipt), settle db flight.id flight.payload_hash receipt)
    else (replied (failed 502 "SETTLEMENT_FAILED"), db)
on_receipt db flight payer (Flow.stop r) = absurd r
on_receipt db flight payer (Flow.thrown m) = (replied (failed 502 "SETTLEMENT_FAILED"), db)

-- From the facilitator's settlement to the response.
unfoldable pub on_settled : Store → Flight → String → Exchange SettleAnswer → Progress × Store
on_settled db flight payer answer =
    on_receipt db flight payer (settle_receipt answer flight.requirements)

-- `/payments/:challengeId`
unfoldable pub payment_status : Store → String → Reply
unfolding get
payment_status db id = elim (get db id) [
  | none ↦ failed 404 "NOT_FOUND"
  | some row ↦ elim row.receipt [ none ↦ failed 202 "PENDING" | some receipt ↦ unlocked receipt ]
]
