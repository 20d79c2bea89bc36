-- ===== src/Relayer/Reasons.antt =====
-- The reasons of src/stellar/verify.ts, without their prefix `invalid_exact_stellar_payload_`.
use agent_allowance.Policy.Payment.{PaymentReason}

pub data RelayReason : Type 0 where
  invalid_x402_version invalid_scheme invalid_network unsupported_asset : RelayReason
  verify_network_mismatch malformed wrong_operation wrong_asset : RelayReason
  wrong_function_name wrong_function_args unsafe_from_address wrong_recipient : RelayReason
  wrong_amount unsafe_policy_participant has_envelope_signatures : RelayReason
  missing_auth_entries facilitator_in_auth unsupported_credential_type : RelayReason
  has_subinvocations missing_payer_auth unsigned_auth_entry : RelayReason
  unsafe_tx_or_op_source simulation_failed auth_already_expired : RelayReason
  auth_expiration_too_far fee_below_minimum fee_exceeds_maximum no_transfer_events : RelayReason
  event_missing_contract_id event_not_transfer unexpected_balance_changes : RelayReason
  unexpected_verify_error : RelayReason
  policy_refused : PaymentReason → RelayReason
