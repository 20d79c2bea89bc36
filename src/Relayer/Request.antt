-- ===== src/Relayer/Request.antt =====
-- packages/relayer-plugin-x402-facilitator/src/stellar/verify.ts: the request, and its steps before the payer is known.
pub mod Reads
use agent_allowance.Common.{
  ℕ, ℤ, pos, String, Bool, true, false, not, ◌||◌, ◌&&◌, Option, none, some, List, [], ◌∷◌, ◌++◌,
  ◌===◌, ◌==◌, map, is_text, same_text, truthy, or_else, includes, any, find, lookup, dedup_from,
  is_some, ◌+◌, length, get_elem?, eqb_ℤ, ltb_ℤ, if◌then◌else◌, Flow, next, stop, thrown, stop_if,
  need, or_throw, ◌>>=◌, ◌>>◌,
}
use agent_allowance.Shared.{PaymentRequirements}
use agent_allowance.Shared.Amounts.{big_int}
use agent_allowance.Xdr.{
  ScVal, Native, text, bigint, number, nothing, is_string, is_bigint, InvokeArgs, AuthEntry,
  Operation, invoke_host_function, other_operation, HostFunction, invoke_contract, other_function,
  Transaction, Sdk, sdk_call,
}
use agent_allowance.Policy.Manifest.{Adapter, Manifest, RecipientPolicyBinding}
use agent_allowance.Policy.Events.{RawEvent, same_lower_case}
use agent_allowance.Policy.Simulation.{Hashes}
use agent_allowance.Policy.Payment.{
  single, three_args, invocation, refuse_as, ObservedRule, PaymentOptions, PaymentValid,
  verify_payment,
}
use agent_allowance.Relayer.Reasons.{
  RelayReason, invalid_x402_version, invalid_scheme, invalid_network, unsupported_asset,
  verify_network_mismatch, malformed, wrong_operation, wrong_asset, wrong_function_name,
  wrong_function_args, unsafe_from_address, wrong_recipient, wrong_amount,
  unsafe_policy_participant, has_envelope_signatures, missing_auth_entries, missing_payer_auth,
  unsigned_auth_entry, unsafe_tx_or_op_source, simulation_failed, fee_below_minimum,
  fee_exceeds_maximum, no_transfer_events, unexpected_balance_changes, policy_refused,
  unexpected_verify_error,
}
use agent_allowance.Relayer.Entries.{
  present, validate_auth_entries, signed_addresses, validate_expirations,
}
use agent_allowance.Relayer.Transfers.{validate_simulation_events}

pub record VerifyRequest : Type 0 where
  pub x402_version : ℕ
  pub accepted : Option PaymentRequirements
  pub transaction : String
  pub requirements : PaymentRequirements

pub record NetworkConfig : Type 0 where
  pub network : String
  pub type_name : String
  pub assets : List String
  pub api_url : Option String
  pub api_key : Option String
  pub fund_relayer_id : Option String
  pub fund_address : Option String
  pub max_fee : Option String
  pub policy_manifests : List Manifest

pub record LedgerEntry : Type 0 where
  pub key : Option String
  pub entry_xdr : Option String

-- The answer to a request for simulation or for ledger entries.
pub data Answer (A : Type 0) : Type 0 where
  answered : A → Answer A
  refused : Answer A
  rejected : Answer A

pub record Simulation : Type 0 where
  pub min_resource_fee : Option String
  pub events : List RawEvent

-- The relayer that `api.useRelayer` gives, with the decoders of ledger entries.
pub record Relayer : Type 0 where
  pub address : Option String
  pub network : String
  pub latest_ledger : Option ℕ
  pub simulate : String → Answer Simulation
  pub ledger_entries : List String → Answer (List LedgerEntry)
  -- `contractInstanceLedgerKey` and `extractContractWasmHash`, `none` where they throw
  pub ledger_key : String → Option String
  pub wasm_hash : String → Option String
  -- `resolveRecipientPolicyRule`
  pub rule_of : Manifest → ℕ → String → Option ObservedRule

pub data VerifyResponse : Type 0 where
  valid : String → VerifyResponse
  invalid : RelayReason → Option Native → VerifyResponse

-- `networksMatch`
abbrev pub networks_match : String → String → Bool
networks_match a b = a === b

-- `isValidStellarNetwork`
abbrev pub is_valid_network : String → Bool
is_valid_network network = network === "stellar:pubnet" || network === "stellar:testnet"

-- `mapRelayerNetworkToStellar`
abbrev pub map_network : String → String
map_network network = if network === "testnet" then "stellar:testnet" else "stellar:pubnet"

-- Steps 1: the version, the scheme, the networks, the asset.
unfoldable pub check_protocol :
    VerifyRequest → NetworkConfig → Relayer → Flow RelayReason (Unit {0})
check_protocol request config relayer = do
  stop_if (not (request.x402_version == 2)) invalid_x402_version
  accepted ← need request.accepted invalid_x402_version
  stop_if (not (accepted.scheme === "exact")) invalid_scheme
  stop_if (not (request.requirements.scheme === "exact")) invalid_scheme
  stop_if (not (is_valid_network request.requirements.network)) invalid_network
  stop_if
      (not (networks_match accepted.network request.requirements.network)
        || not (networks_match accepted.network config.network))
      invalid_network
  stop_if (not (includes config.assets request.requirements.asset)) unsupported_asset
  stop_if (not (networks_match (map_network relayer.network) config.network))
      verify_network_mismatch

-- What the transaction asks for; the payer is the native value of the first argument.
pub record Call : Type 0 where
  pub transaction : Transaction
  pub source : Option String
  pub auth : List AuthEntry
  pub sender : Native
  pub recipient : Native
  pub amount : Native

abbrev pub source_of : Operation → Option String
source_of (invoke_host_function source f auth) = source
source_of (other_operation source type) = source

-- `getNetworkPassphrase`: the keys of its table are in lower case.
unfoldable pub network_passphrase : String → String
network_passphrase network =
    if same_lower_case network "stellar:pubnet" || same_lower_case network "mainnet"
    then "Public Global Stellar Network ; September 2015"
    else "Test SDF Network ; September 2015"

-- The texts among the relayer's two addresses that are not empty.
abbrev pub protected : Relayer → NetworkConfig → List String
protected relayer config = present (relayer.address ∷ config.fund_address ∷ [])

module _ (sdk : Sdk) where
  -- Steps 2 to 5: the transaction and its one call.
  unfoldable pub read_call : VerifyRequest → Flow RelayReason Call
  read_call request = do
    stop_if (request.transaction === "") malformed
    transaction ←
        need
          (sdk.parse_transaction request.transaction
            (network_passphrase request.requirements.network))
          malformed
    operation ← single transaction.operations wrong_operation
    (call, auth) ← invocation operation wrong_operation
    contract ← sdk_call (sdk.address_text call.contract_address)
    stop_if (not (contract === request.requirements.asset)) wrong_asset
    stop_if (not (call.function_name === "transfer")) wrong_function_name
    (sender_val, recipient_val, amount_val) ← three_args call.args wrong_function_args
    sender ← sdk_call (sdk.native sender_val)
    recipient ← sdk_call (sdk.native recipient_val)
    amount ← sdk_call (sdk.native amount_val)
    next (record {
      transaction = transaction;
      source = source_of operation;
      auth = auth;
      sender = sender;
      recipient = recipient;
      amount = amount;
    })
