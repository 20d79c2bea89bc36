-- ===== src/Relayer/Verify.antt =====
-- packages/relayer-plugin-x402-facilitator/src/stellar/verify.ts: the simulated effects and the whole check.
pub mod Accepted
use agent_allowance.Common.{
  ℕ, ℤ, pos, String, Bool, true, false, not, ◌||◌, ◌&&◌, Option, none, some, List, [], ◌∷◌, ◌++◌,
  ◌===◌, ◌==◌, map, is_text, same_text, truthy, or_else, includes, any, find, lookup, dedup_from,
  is_some, ◌+◌, length, get_elem?, eqb_ℤ, ltb_ℤ, if◌then◌else◌, Flow, next, stop, thrown, stop_if,
  need, or_throw, ◌>>=◌, ◌>>◌,
}
use agent_allowance.Shared.{PaymentRequirements}
use agent_allowance.Shared.Amounts.{big_int}
use agent_allowance.Xdr.{
  ScVal, Native, text, bigint, number, nothing, is_string, is_bigint, InvokeArgs, AuthEntry,
  Operation, invoke_host_function, other_operation, HostFunction, invoke_contract, other_function,
  Transaction, Sdk, sdk_call,
}
use agent_allowance.Policy.Manifest.{Adapter, Manifest, RecipientPolicyBinding}
use agent_allowance.Policy.Events.{RawEvent, same_lower_case}
use agent_allowance.Policy.Simulation.{Hashes}
use agent_allowance.Policy.Payment.{
  single, three_args, invocation, refuse_as, ObservedRule, PaymentOptions, PaymentValid,
  verify_payment,
}
use agent_allowance.Relayer.Reasons.{
  RelayReason, invalid_x402_version, invalid_scheme, invalid_network, unsupported_asset,
  verify_network_mismatch, malformed, wrong_operation, wrong_asset, wrong_function_name,
  wrong_function_args, unsafe_from_address, wrong_recipient, wrong_amount,
  unsafe_policy_participant, has_envelope_signatures, missing_auth_entries, missing_payer_auth,
  unsigned_auth_entry, unsafe_tx_or_op_source, simulation_failed, fee_below_minimum,
  fee_exceeds_maximum, no_transfer_events, unexpected_balance_changes, policy_refused,
  unexpected_verify_error,
}
use agent_allowance.Relayer.Entries.{
  present, validate_auth_entries, signed_addresses, validate_expirations,
}
use agent_allowance.Relayer.Transfers.{validate_simulation_events}
use agent_allowance.Relayer.Request.{
  VerifyRequest, NetworkConfig, LedgerEntry, Answer, answered, refused, rejected, Simulation,
  Relayer, VerifyResponse, valid, invalid, check_protocol, Call, read_call, protected,
}
use agent_allowance.Relayer.Signatures.{check_terms, check_signatures}
use agent_allowance.Relayer.Profile.{resolve_hashes, choose_profile}

abbrev pub simulated : Answer Simulation → Flow RelayReason Simulation
simulated (answered simulation) = next simulation
simulated refused = stop simulation_failed
simulated rejected = thrown "rpc"

-- `if (a && b) { if (BigInt(a) < BigInt(b)) return r; }`
abbrev pub less_refused : String → String → RelayReason → Flow RelayReason (Unit {0})
less_refused a b r = if a === "" || b === "" then next tt else (do
  left ← or_throw (big_int a) "BigInt"
  right ← or_throw (big_int b) "BigInt"
  stop_if (ltb_ℤ left right) r)

-- Step 10: the fee lies between the simulation's minimum and the configured maximum.
unfoldable pub check_fee : NetworkConfig → String → Simulation → Flow RelayReason (Unit {0})
check_fee config fee simulation = do
  less_refused fee (or_else simulation.min_resource_fee "") fee_below_minimum
  less_refused (or_else config.max_fee "") fee fee_exceeds_maximum

abbrev pub options_for :
    VerifyRequest
    → Relayer
    → Manifest
    → String
    → List (String × String)
    → List RawEvent
    → PaymentOptions
options_for request relayer m payer hashes events = record {
  x402_version = request.x402_version;
  transaction_xdr = request.transaction;
  requirements = request.requirements;
  simulation_events = events;
  manifest = m;
  payer = payer;
  hashes = some hashes;
  resolve_rule =
      λ id account. if truthy relayer.address then relayer.rule_of m id account else none;
}

abbrev pub hashes_or :
    Relayer
    → Manifest
    → String
    → Option (List (String × String))
    → Flow RelayReason (List (String × String))
hashes_or relayer m payer (some hashes) = next hashes
hashes_or relayer m payer none = resolve_hashes relayer m payer

module _ (sdk : Sdk) where
  -- Step 12: the simulated events, under the profile where there is one.
  unfoldable pub check_effects :
      VerifyRequest
      → NetworkConfig
      → Relayer
      → String
      → ℤ
      → List RawEvent
      → Option (Manifest × Option (List (String × String)))
      → Flow RelayReason (Unit {0})
  check_effects request config relayer payer required events none = do
    transfers ←
        refuse_as (λ code. or_else code unexpected_balance_changes)
          (validate_simulation_events sdk events request.requirements.asset payer
            request.requirements.pay_to required)
    next tt
  check_effects request config relayer payer required events (some (m, hashes)) = do
    observed ← hashes_or relayer m payer hashes
    decision ←
        refuse_as policy_refused
          (verify_payment sdk (options_for request relayer m payer observed events))
    stop_if (includes (protected relayer config) decision.delegate) unsafe_policy_participant

  -- Everything after the call is read; the result is the payer.
  unfoldable pub check_payment :
      VerifyRequest → NetworkConfig → Relayer → Call → Flow RelayReason String
  check_payment request config relayer call = do
    required ← check_terms request config relayer call
    profile ← choose_profile relayer call.sender config.policy_manifests
    stop_if (is_some profile && includes (protected relayer config) request.requirements.pay_to)
        unsafe_policy_participant
    payer ← check_signatures sdk request config relayer call
    simulation ← simulated (relayer.simulate request.transaction)
    check_fee config call.transaction.fee simulation
    stop_if (length simulation.events == 0) no_transfer_events
    check_effects request config relayer payer required simulation.events profile
    next payer

  -- The refusals that name the payer and those that do not.
  unfoldable pub verify_flow :
      VerifyRequest → NetworkConfig → Relayer → Flow (RelayReason × Option Native) String
  verify_flow request config relayer = do
    refuse_as (λ r. (r, none)) (check_protocol request config relayer)
    call ← refuse_as (λ r. (r, none)) (read_call sdk request)
    refuse_as (λ r. (r, some call.sender)) (check_payment request config relayer call)

  abbrev pub respond : Flow (RelayReason × Option Native) String → VerifyResponse
  respond (next payer) = valid payer
  respond (stop (r, payer)) = invalid r payer
  respond (thrown m) = invalid unexpected_verify_error none

  -- `verify`
  unfoldable pub verify : VerifyRequest → NetworkConfig → Relayer → VerifyResponse
  verify request config relayer = respond (verify_flow request config relayer)
