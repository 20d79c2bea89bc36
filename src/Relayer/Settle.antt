-- ===== src/Relayer/Settle.antt =====
-- packages/relayer-plugin-x402-facilitator/src/stellar/settle.ts: the settlement of a payment.
pub mod Sound
pub mod Returns
pub mod Steps
use agent_allowance.Common.{
  ℕ, ℤ, pos, negsuc, zero, suc, ◌+◌, ◌-◌, ◌*◌, String, Bool, true, false, not, ◌||◌, ◌&&◌, Option,
  none, some, List, [], ◌∷◌, ◌===◌, leb, truthy, if◌then◌else◌, Flow, next, stop, thrown, or_throw,
  ◌>>=◌,
}
use agent_allowance.Shared.{PaymentRequirements}
use agent_allowance.Xdr.{
  Native, text, ScVal, ScVals, ScEntries, InvokeArgs, AuthEntry, HostFunction, invoke_contract,
  other_function, Operation, invoke_host_function, other_operation, Transaction, Sdk, sdk_call,
}
use agent_allowance.Relayer.Reasons.{RelayReason, unexpected_verify_error}
use agent_allowance.Relayer.Request.{
  VerifyRequest, NetworkConfig, Relayer, VerifyResponse, valid, invalid, networks_match,
  map_network, network_passphrase,
}
use agent_allowance.Relayer.Verify.{verify}
use agent_allowance.Relayer.Arguments.{JsonArg, json_args}
use agent_allowance.Relayer.Channel.{
  Channel, SettleResponse, payload_malformed, wrong_operation, transaction_failed, network_mismatch,
  unexpected_settle_error, not_verified, success_response, error_response,
  settle_via_channel_service,
}

-- An operation of type `invoke_contract`, as `relayer.sendTransaction` is given it.
pub record ContractCall : Type 0 where
  pub network : String
  pub contract_address : String
  pub function_name : String
  pub args : List JsonArg
  pub auth : List AuthEntry

pub record TransactionStatus : Type 0 where
  pub status : String
  pub hash : Option String

-- What surrounds one settlement: the time of its start, the network of `getRelayer`, `none` where it
-- rejects, the relayer at each verification and the time after it, the channel service, and
-- `sendTransaction` with the `wait` that it gives, `none` where one rejects, and the time between them.
pub record Surroundings : Type 0 where
  pub start_time : ℕ
  pub relayer_network : Option String
  pub relayers : ℕ → Relayer
  pub verified_at : ℕ → ℕ
  pub channel : Channel
  pub send : ContractCall → Option (ℕ → Option TransactionStatus)
  pub sent_at : ℕ

-- `Math.max(remainingMs, 0)` is the subtraction on natural numbers.
unfoldable pub settle_via_relayer :
    Sdk
    → Surroundings
    → InvokeArgs
    → List AuthEntry
    → String
    → ℕ
    → Option Native
    → Flow (Unit {0}) SettleResponse
settle_via_relayer sdk around call auth network deadline payer = do
  contract ← sdk_call (sdk.address_text call.contract_address)
  args ← json_args sdk call.args
  wait ←
      or_throw
        (around.send (record {
          network = network;
          contract_address = contract;
          function_name = call.function_name;
          args = args;
          auth = auth;
        }))
        "sendTransaction"
  confirmed ← or_throw (wait (deadline - around.sent_at)) "wait"
  next (
      if confirmed.status === "confirmed"
      then success_response confirmed.hash network payer
      else error_response transaction_failed network payer confirmed.hash)

-- A verification that is not tried again.
abbrev pub is_settled_verdict : VerifyResponse → Bool
is_settled_verdict (valid payer) = true
is_settled_verdict (invalid unexpected_verify_error payer) = false
is_settled_verdict (invalid other payer) = true

module _ (sdk : Sdk) (request : VerifyRequest) (config : NetworkConfig) (relayers : ℕ → Relayer)
    (verified_at : ℕ → ℕ) (deadline : ℕ) where
  -- The loop over the delays, with the result of verification `i`.
  unfoldable pub verify_again : List ℕ → ℕ → VerifyResponse → VerifyResponse
  verify_again [] i result = result
  verify_again (delay ∷ delays) i result =
      let again = verify_again delays (i + 1) (verify sdk request config (relayers (i + 1))) in
      if is_settled_verdict result
      then result
      else if leb deadline (verified_at i + delay)
      then result
      else again

  abbrev pub verify_for_settlement : VerifyResponse
  verify_for_settlement = verify_again (250 ∷ 750 ∷ []) 0 (verify sdk request config (relayers 0))

-- `deadlineMs`: below zero it is zero, which every test on it answers in the same way.
unfoldable pub deadline_ms : ℕ → ℤ → ℕ
deadline_ms start (pos seconds) =
    let timeout = 1000 * seconds in
    let half = 500 * seconds in start + (timeout - (if leb half 2000 then half else 2000))
deadline_ms start (negsuc n) = start - 500 * (n + 1)

-- `catch (error)` around the settlement.
abbrev pub caught :
    String → Option Native → Flow (Unit {0}) SettleResponse → Flow (Unit {0}) SettleResponse
caught network payer (next response) = next response
caught network payer (stop u) = stop u
caught network payer (thrown m) = next (error_response unexpected_settle_error network payer none)

module _ (sdk : Sdk) (request : VerifyRequest) (config : NetworkConfig) (around : Surroundings)
    (fuel : ℕ) (network : String) where
  abbrev pub deadline : ℕ
  deadline = deadline_ms around.start_time request.requirements.max_timeout_seconds

  -- Steps 3 and 4, by the transaction's first operation.
  abbrev pub submit_operation : Option Native → Operation → Flow (Unit {0}) SettleResponse
  submit_operation payer (invoke_host_function source (invoke_contract call) auth) =
      if truthy config.api_url && truthy config.api_key
      then settle_via_channel_service around.channel (invoke_contract call) auth config network
          deadline payer fuel
      else settle_via_relayer sdk around call auth network deadline payer
  submit_operation payer (invoke_host_function source (other_function type) auth) =
      next (error_response wrong_operation network payer none)
  submit_operation payer (other_operation source type) =
      next (error_response wrong_operation network payer none)

  abbrev pub submit_operations : Option Native → List Operation → Flow (Unit {0}) SettleResponse
  submit_operations payer [] = thrown "undefined is not an object"
  submit_operations payer (operation ∷ operations) = submit_operation payer operation

  -- Step 2.
  abbrev pub submit_transaction :
      Option Native → Option Transaction → Flow (Unit {0}) SettleResponse
  submit_transaction payer none = thrown "stellar-sdk"
  submit_transaction payer (some transaction) = submit_operations payer transaction.operations

  abbrev pub on_verified : VerifyResponse → Flow (Unit {0}) SettleResponse
  on_verified (invalid reason payer) =
      next (error_response (not_verified reason) network payer none)
  on_verified (valid payer) = caught network (some (text payer)) (
      submit_transaction (some (text payer)) (
        sdk.parse_transaction request.transaction
          (network_passphrase request.requirements.network)))

  abbrev pub on_relayer : Option String → Flow (Unit {0}) SettleResponse
  on_relayer none = thrown "getRelayer"
  on_relayer (some relayer_network) =
      if not (networks_match (map_network relayer_network) config.network)
      then next (error_response network_mismatch network none none)
      else on_verified
          (verify_for_settlement sdk request config around.relayers around.verified_at deadline)

abbrev pub settle_accepted :
    Sdk
    → VerifyRequest
    → NetworkConfig
    → Surroundings
    → ℕ
    → Option PaymentRequirements
    → Flow (Unit {0}) SettleResponse
settle_accepted sdk request config around fuel none =
    next (error_response payload_malformed "" none none)
settle_accepted sdk request config around fuel (some accepted) =
    if not (networks_match accepted.network request.requirements.network)
      || not (networks_match accepted.network config.network)
    then next (error_response network_mismatch accepted.network none none)
    else on_relayer sdk request config around fuel accepted.network around.relayer_network

-- `settle`: `thrown` where it rejects, and `stop` where the polling takes more turns than the fuel.
unfoldable pub settle :
    Sdk → VerifyRequest → NetworkConfig → Surroundings → ℕ → Flow (Unit {0}) SettleResponse
settle sdk request config around fuel =
    settle_accepted sdk request config around fuel request.accepted
