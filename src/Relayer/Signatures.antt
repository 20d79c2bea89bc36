-- ===== src/Relayer/Signatures.antt =====
-- packages/relayer-plugin-x402-facilitator/src/stellar/verify.ts: the terms of the call and its signatures.
pub mod Signed
use agent_allowance.Common.{
  ℕ, ℤ, pos, String, Bool, true, false, not, ◌||◌, ◌&&◌, Option, none, some, List, [], ◌∷◌, ◌++◌,
  ◌===◌, ◌==◌, map, is_text, same_text, truthy, or_else, includes, any, find, lookup, dedup_from,
  is_some, ◌+◌, length, get_elem?, eqb_ℤ, ltb_ℤ, if◌then◌else◌, Flow, next, stop, thrown, stop_if,
  need, or_throw, ◌>>=◌, ◌>>◌,
}
use agent_allowance.Shared.{PaymentRequirements}
use agent_allowance.Shared.Amounts.{big_int}
use agent_allowance.Xdr.{
  ScVal, Native, text, bigint, number, nothing, is_string, is_bigint, InvokeArgs, AuthEntry,
  Operation, invoke_host_function, other_operation, HostFunction, invoke_contract, other_function,
  Transaction, Sdk, sdk_call,
}
use agent_allowance.Policy.Manifest.{Adapter, Manifest, RecipientPolicyBinding}
use agent_allowance.Policy.Events.{RawEvent, same_lower_case}
use agent_allowance.Policy.Simulation.{Hashes}
use agent_allowance.Policy.Payment.{
  single, three_args, invocation, refuse_as, ObservedRule, PaymentOptions, PaymentValid,
  verify_payment,
}
use agent_allowance.Relayer.Reasons.{
  RelayReason, invalid_x402_version, invalid_scheme, invalid_network, unsupported_asset,
  verify_network_mismatch, malformed, wrong_operation, wrong_asset, wrong_function_name,
  wrong_function_args, unsafe_from_address, wrong_recipient, wrong_amount,
  unsafe_policy_participant, has_envelope_signatures, missing_auth_entries, missing_payer_auth,
  unsigned_auth_entry, unsafe_tx_or_op_source, simulation_failed, fee_below_minimum,
  fee_exceeds_maximum, no_transfer_events, unexpected_balance_changes, policy_refused,
  unexpected_verify_error,
}
use agent_allowance.Relayer.Entries.{
  present, validate_auth_entries, signed_addresses, validate_expirations,
}
use agent_allowance.Relayer.Transfers.{validate_simulation_events}
use agent_allowance.Relayer.Request.{
  VerifyRequest, NetworkConfig, LedgerEntry, Answer, answered, refused, rejected, Simulation,
  Relayer, VerifyResponse, valid, invalid, check_protocol, Call, read_call, protected,
}

-- `a && from === a`
abbrev pub is_address : Option String → Native → Bool
is_address none sender = false
is_address (some a) sender = not (a === "") && is_string sender a

-- Step 5: the payer, the recipient and the amount; the required amount is the result.
unfoldable pub check_terms : VerifyRequest → NetworkConfig → Relayer → Call → Flow RelayReason ℤ
check_terms request config relayer call = do
  stop_if (is_address relayer.address call.sender || is_address config.fund_address call.sender)
      unsafe_from_address
  stop_if (not (is_string call.recipient request.requirements.pay_to)) wrong_recipient
  stop_if (request.requirements.amount === "") wrong_amount
  required ← or_throw (big_int request.requirements.amount) "BigInt"
  stop_if (not (is_bigint call.amount required)) wrong_amount
  next required

abbrev pub signed_payer : List String → Native → Option String
signed_payer signed (text s) = if includes signed s then some s else none
signed_payer signed other = none

abbrev pub none_left : List String → Flow RelayReason (Unit {0})
none_left [] = next tt
none_left (a ∷ as_) = stop unsigned_auth_entry

-- Step 8: `operation.source === relayerInfo.address` and the other comparisons.
abbrev pub unsafe_source : NetworkConfig → Relayer → Call → Bool
unsafe_source config relayer call =
    same_text call.source relayer.address
    || is_text relayer.address call.transaction.source
    || (truthy config.fund_address
        && (same_text call.source config.fund_address
            || is_text config.fund_address call.transaction.source))

module _ (sdk : Sdk) where
  -- Steps 6 to 9: the envelope, the authorization entries, the sources and the expirations. The
  -- result is the payer, who signed.
  unfoldable pub check_signatures :
      VerifyRequest → NetworkConfig → Relayer → Call → Flow RelayReason String
  check_signatures request config relayer call = do
    stop_if (not (call.transaction.signatures == 0)) has_envelope_signatures
    stop_if (length call.auth == 0) missing_auth_entries
    validate_auth_entries sdk call.auth (relayer.address ∷ config.fund_address ∷ [])
    payer ← need (signed_payer (signed_addresses sdk call.auth).0 call.sender) missing_payer_auth
    none_left (signed_addresses sdk call.auth).1
    stop_if (unsafe_source config relayer call) unsafe_tx_or_op_source
    validate_expirations relayer.latest_ledger request.requirements.max_timeout_seconds call.auth
    next payer
