-- ===== src/Shared.antt =====
-- packages/shared: the records that the parts exchange (src/types.ts), the reasons
-- (src/reason-codes.ts) and, in children, amounts and challenges.
pub mod Amounts
pub mod Challenge
pub mod Decimal
use agent_allowance.Common.{ℕ, ℤ, String, Bool, Option, List}

pub data AllowanceStatus : Type 0 where
  draft active exhausted expired revoked error : AllowanceStatus

pub data AttemptState : Type 0 where
  created validated signed submitted settled unlocked blocked failed unknown : AttemptState

pub data Decision : Type 0 where
  allow block pending error : Decision

pub data PolicyReason : Type 0 where
  network_mismatch asset_not_allowed recipient_not_allowed budget_exceeded : PolicyReason
  allowance_expired allowance_revoked allowance_not_found allowance_not_active : PolicyReason
  signer_not_authorized scope_not_allowed malformed_challenge unsupported_scheme : PolicyReason
  facilitator_rejected settlement_unknown receipt_mismatch resource_unlock_failed : PolicyReason
  duplicate_attempt unsupported_call configuration_error : PolicyReason

-- `extra`, with the two keys that the source reads.
pub record Extra : Type 0 where
  pub are_fees_sponsored : Bool
  pub challenge_id : Option String

pub record PaymentRequirements : Type 0 where
  pub scheme : String
  pub network : String
  pub amount : String
  pub pay_to : String
  pub max_timeout_seconds : ℤ
  pub asset : String
  pub extra : Extra

pub record SettlementReceipt : Type 0 where
  pub success : Bool
  pub transaction : String
  pub network : String
  pub payer : String
  pub amount : String
  pub asset : String
  pub pay_to : String
  pub challenge_id : String

pub record StellarPaymentPayload : Type 0 where
  pub x402_version : ℕ
  pub accepted : PaymentRequirements
  pub transaction : String

pub record AllowanceRecord : Type 0 where
  pub allowance_id : String
  pub label : String
  pub network : String
  pub treasury_contract : String
  pub asset_contract : String
  pub delegated_signer : String
  pub max_spend_atomic : String
  pub spent_atomic : String
  pub window_ledgers : ℕ
  pub allowed_recipients : List String
  pub valid_until_ledger : ℕ
  pub context_rule_id : ℕ
  pub create_tx_hash : Option String
  pub revoke_tx_hash : Option String
  pub status : AllowanceStatus
  pub created_at : String
  pub updated_at : String

pub record PaymentAttempt : Type 0 where
  pub attempt_id : String
  pub allowance_id : String
  pub url : String
  pub request_reference : String
  pub challenge_hash : String
  pub amount_atomic : String
  pub pay_to : String
  pub asset_contract : String
  pub state : AttemptState
  pub decision : Decision
  pub reason_code : Option PolicyReason
  pub safe_detail : Option String
  pub facilitator_status : Option String
  pub tx_hash : Option String
  pub receipt_hash : Option String
  pub receipt : Option SettlementReceipt
  pub response_hash : Option String
  pub created_at : String
  pub updated_at : String

pub data PolicyDecision : Type 0 where
  allowed : ℤ → PolicyDecision
  refused : PolicyReason → PolicyDecision
