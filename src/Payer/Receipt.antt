-- ===== src/Payer/Receipt.antt =====
-- packages/x402-payer/src/receipt.ts and the reading of the facilitator's answers in
-- src/facilitator.ts. The HTTP exchange itself is a value that the caller is given.
pub mod Laws
use agent_allowance.Common.{
  ℕ, String, Bool, true, false, not, ◌&&◌, ◌||◌, Option, leb, ◌==◌, ◌===◌, truthy, or_else,
  if◌then◌else◌, length, all, Flow, throw_if, next, or_throw, ◌>>=◌, ◌>>◌,
}
use agent_allowance.Shared.{PaymentRequirements, SettlementReceipt}
use agent_allowance.Shared.Amounts.{codes, is_digit}

-- `[0-9a-f]` under the flag `i`
abbrev pub is_hex : ℕ → Bool
is_hex c = is_digit c || leb b'a' c && leb c b'f' || leb b'A' c && leb c b'F'

-- `/^[0-9a-f]{64}$/i`
unfoldable pub is_sha256 : String → Bool
is_sha256 s = length (codes s) == 64 && all is_hex (codes s)

-- Whether `assertReceiptMatches` returns; it throws otherwise.
unfoldable pub receipt_matches : SettlementReceipt → PaymentRequirements → String → Bool
receipt_matches receipt requirements expected_payer =
    receipt.success
    && receipt.network === requirements.network
    && receipt.asset === requirements.asset
    && receipt.amount === requirements.amount
    && receipt.pay_to === requirements.pay_to
    && receipt.payer === expected_payer
    && receipt.challenge_id === or_else requirements.extra.challenge_id ""
    && is_sha256 receipt.transaction

pub record VerifyAnswer : Type 0 where
  pub is_valid : Bool
  pub payer : Option String
  pub invalid_reason : Option String

pub record SettleAnswer : Type 0 where
  pub success : Option Bool
  pub error_reason : Option String
  pub transaction : Option String
  pub payer : Option String

-- An exchange with the facilitator: its JSON body under an OK status, or the message of what
-- `#post` throws.
pub data Exchange (A : Type 0) : Type 0 where
  body : A → Exchange A
  broken : String → Exchange A

abbrev exchange : {R A : Type 0} → Exchange A → Flow R A
exchange (body a) = next a
exchange (broken m) = Flow.thrown m

-- `FacilitatorClient.settle`: what is paid is taken from the requirements, not from the answer.
unfoldable pub settle_receipt :
    {R : Type 0} → Exchange SettleAnswer → PaymentRequirements → Flow R SettlementReceipt
settle_receipt response requirements = do
  answer ← exchange response
  throw_if
      (not (or_else answer.success false)
        || not (truthy answer.transaction)
        || not (truthy answer.payer))
      (or_else answer.error_reason "Facilitator settlement failed")
  next (record {
    success = true;
    transaction = or_else answer.transaction "";
    network = requirements.network;
    payer = or_else answer.payer "";
    amount = requirements.amount;
    asset = requirements.asset;
    pay_to = requirements.pay_to;
    challenge_id = or_else requirements.extra.challenge_id "";
  })
