-- ===== src/Policy/Payment.antt =====
-- packages/facilitator-policy/src/verify-authorization.ts and src/verify.ts: the transaction and the
-- whole policy-aware payment. The lookup of a rule (`resolveAllowanceRule`) is a parameter.
pub mod OneCall
pub mod Sound
use text.Mathlib.Text.{starts_with}
use agent_allowance.Common.{
  ℕ, ℤ, pos, String, Bool, true, false, not, ◌||◌, ◌&&◌, Option, none, some, List, [], ◌∷◌, ◌===◌,
  ◌==◌, leb, is_text, truthy, or_else, any, eqb_ℤ, is_some, if◌then◌else◌, Flow, next, stop, thrown,
  stop_if, need, ◌>>=◌, ◌>>◌,
}
use agent_allowance.Shared.{PaymentRequirements}
use agent_allowance.Shared.Amounts.{codes, is_digits, digits_value}
use agent_allowance.Xdr.{
  ScVal, Transaction, Operation, invoke_host_function, other_operation, HostFunction,
  invoke_contract, other_function, InvokeArgs, AuthEntry, is_bigint, Sdk, sdk_call,
}
use agent_allowance.Auth.{AuthReason, structure_invalid, Transfer, AuthValid, validate_entries}
use agent_allowance.Policy.Manifest.{Manifest, RecipientPolicyBinding}
use agent_allowance.Policy.Events.{
  RawEvent, EventReason, ExpectedTransfer, Approved, observed_is, event_missing_contract_id,
  event_not_transfer, transfer_event_missing, transfer_event_duplicate, transfer_event_mismatch,
  policy_event_unapproved, policy_event_malformed, policy_event_context_mismatch,
  policy_event_duplicate, manifest_mismatch,
}
use agent_allowance.Policy.Simulation.{Hashes, observed, validate_simulation}

pub record TransactionValid : Type 0 where
  pub payer : String
  pub delegate : String
  pub context_rule_id : ℕ
  pub auth_entries : List AuthEntry

abbrev pub single : {A R : Type 0} → List A → R → Flow R A
single (a ∷ []) r = next a
single other r = stop r

abbrev pub three_args : {R : Type 0} → List ScVal → R → Flow R (ScVal × ScVal × ScVal)
three_args (a ∷ b ∷ c ∷ []) r = next (a, b, c)
three_args other r = stop r

abbrev pub invocation : {R : Type 0} → Operation → R → Flow R (InvokeArgs × List AuthEntry)
invocation (invoke_host_function source (invoke_contract call) auth) r = next (call, auth)
invocation other r = stop r

-- `contextRuleIds[0]`; an accepted payload has a rule.
abbrev first_rule : List ℕ → Flow AuthReason ℕ
first_rule [] = stop structure_invalid
first_rule (id ∷ ids) = next id

module _ (sdk : Sdk) where
  -- The operation's call is the required transfer.
  unfoldable pub check_call : InvokeArgs → Transfer → Flow AuthReason (Unit {0})
  check_call call expected = do
    token ← sdk_call (sdk.address_text call.contract_address)
    stop_if (not (token === expected.token)) structure_invalid
    stop_if (not (call.function_name === "transfer")) structure_invalid
    (sender_val, recipient_val, amount_val) ← three_args call.args structure_invalid
    sender ← sdk_call (sdk.address_of_val sender_val)
    stop_if (not (sender === expected.sender)) structure_invalid
    recipient ← sdk_call (sdk.address_of_val recipient_val)
    stop_if (not (recipient === expected.recipient)) structure_invalid
    amount ← sdk_call (sdk.native amount_val)
    stop_if (not (is_bigint amount expected.amount)) structure_invalid

  -- `validateDelegatedPaymentTransaction`
  unfoldable pub validate_transaction :
      String → String → Transfer → Option ℤ → Flow AuthReason TransactionValid
  validate_transaction xdr passphrase expected rule = do
    transaction ← need (sdk.parse_transaction xdr passphrase) structure_invalid
    stop_if (not (transaction.signatures == 0)) structure_invalid
    operation ← single transaction.operations structure_invalid
    (call, auth) ← invocation operation structure_invalid
    check_call call expected
    valid ← validate_entries sdk auth expected passphrase rule
    id ← first_rule valid.context_rule_ids
    next (record {
      payer = valid.payer;
      delegate = valid.delegate;
      context_rule_id = id;
      auth_entries = auth;
    })

pub data PaymentReason : Type 0 where
  invalid_x402_version invalid_scheme invalid_network wrong_amount auth_structure : PaymentReason
  event_unapproved event_malformed event_context_mismatch : PaymentReason
  policy_manifest_mismatch unexpected_balance_changes : PaymentReason

unfoldable pub reason_text : EventReason → String
reason_text event_missing_contract_id = "EVENT_MISSING_CONTRACT_ID"
reason_text event_not_transfer = "EVENT_NOT_TRANSFER"
reason_text transfer_event_missing = "TRANSFER_EVENT_MISSING"
reason_text transfer_event_duplicate = "TRANSFER_EVENT_DUPLICATE"
reason_text transfer_event_mismatch = "TRANSFER_EVENT_MISMATCH"
reason_text policy_event_unapproved = "POLICY_EVENT_UNAPPROVED"
reason_text policy_event_malformed = "POLICY_EVENT_MALFORMED"
reason_text policy_event_context_mismatch = "POLICY_EVENT_CONTEXT_MISMATCH"
reason_text policy_event_duplicate = "POLICY_EVENT_DUPLICATE"
reason_text manifest_mismatch = "FACILITATOR_POLICY_MANIFEST_MISMATCH"

-- `mapEventReason`, on the reason's text.
unfoldable pub map_event_reason : String → PaymentReason
map_event_reason reason =
    if reason === "POLICY_EVENT_UNAPPROVED"
    then event_unapproved
    else if reason === "POLICY_EVENT_CONTEXT_MISMATCH"
    then event_context_mismatch
    else if reason === "FACILITATOR_POLICY_MANIFEST_MISMATCH"
    then policy_manifest_mismatch
    else if starts_with reason "POLICY_EVENT_"
    then event_malformed
    else unexpected_balance_changes

pub record ObservedRule : Type 0 where
  pub context_rule_id : ℕ
  pub token : String
  pub recipient : String

pub record PaymentValid : Type 0 where
  pub payer : String
  pub delegate : String
  pub context_rule_id : ℕ

-- The result of an inner check, with its reason for a refusal replaced.
abbrev pub refuse_as : {R S A : Type 0} → (R → S) → Flow R A → Flow S A
refuse_as f (next a) = next a
refuse_as f (stop r) = stop (f r)
refuse_as f (thrown m) = thrown m

abbrev pub hash_pinned : Hashes → Option String → String → Bool
hash_pinned hashes none id = true
hash_pinned hashes (some h) id = h === "" || observed_is (observed hashes id) h

-- `!allowedRuleIds.includes(id)`, negated.
abbrev rule_allowed : Option (List ℤ) → ℕ → Bool
rule_allowed none id = true
rule_allowed (some ids) id = any (λ z. eqb_ℤ z (pos id)) ids

unfoldable pub recipient_pinned : Hashes → Option RecipientPolicyBinding → Bool
recipient_pinned hashes none = false
recipient_pinned hashes (some r) = observed_is (observed hashes r.contract_id) r.expected_wasm_hash

-- The observed rule is the signed one and pays this recipient in this token.
unfoldable pub rule_matches : Option ObservedRule → ℕ → PaymentRequirements → Bool
rule_matches none id requirements = false
rule_matches (some rule) id requirements =
    rule.context_rule_id == id
    && rule.token === requirements.asset
    && rule.recipient === requirements.pay_to

-- What `verifyPolicyAwarePayment` is given.
pub record PaymentOptions : Type 0 where
  pub x402_version : ℕ
  pub transaction_xdr : String
  pub requirements : PaymentRequirements
  pub simulation_events : List RawEvent
  pub manifest : Manifest
  pub payer : String
  pub hashes : Hashes
  pub resolve_rule : ℕ → String → Option ObservedRule

abbrev pub transfer_for : PaymentOptions → Transfer
transfer_for o = record {
  token = o.requirements.asset;
  sender = o.payer;
  recipient = o.requirements.pay_to;
  amount = pos (digits_value (codes o.requirements.amount) 0);
}

abbrev pub event_expected : PaymentOptions → ℕ → ExpectedTransfer
event_expected o id = record {
  token = o.requirements.asset;
  sender = o.payer;
  recipient = o.requirements.pay_to;
  amount = pos (digits_value (codes o.requirements.amount) 0);
  context_rule_id = id;
}

-- The checks before the transaction is read.
unfoldable pub check_request : PaymentOptions → Flow PaymentReason (Unit {0})
check_request o = do
  stop_if (not (o.x402_version == 2)) invalid_x402_version
  stop_if (not (o.requirements.scheme === "exact")) invalid_scheme
  stop_if (not (o.requirements.network === o.manifest.network)) invalid_network
  stop_if
      (not (is_digits (codes o.requirements.amount))
        || leb (digits_value (codes o.requirements.amount) 0) 0)
      wrong_amount
  stop_if (truthy o.manifest.smart_account && not (is_text o.manifest.smart_account o.payer))
      policy_manifest_mismatch
  stop_if (not (hash_pinned o.hashes o.manifest.smart_account_wasm_hash o.payer))
      policy_manifest_mismatch

-- A manifest without a fixed rule: the recipient policy's code and the signed rule's terms.
unfoldable pub check_rule : PaymentOptions → ℕ → Flow PaymentReason (Unit {0})
check_rule o id = if is_some o.manifest.expected_rule_id then next tt else (do
  stop_if (not (recipient_pinned o.hashes o.manifest.recipient_policy)) policy_manifest_mismatch
  stop_if (not (rule_matches (o.resolve_rule id o.payer) id o.requirements))
      policy_manifest_mismatch)

module _ (sdk : Sdk) where
  abbrev pub passphrase_for : String → String
  passphrase_for network =
      if network === "stellar:pubnet" then sdk.public_passphrase else sdk.testnet_passphrase

  -- `verifyPolicyAwarePayment`
  unfoldable pub verify_payment : PaymentOptions → Flow PaymentReason PaymentValid
  verify_payment o = do
    check_request o
    auth ←
        refuse_as (λ r. auth_structure)
          (validate_transaction sdk o.transaction_xdr (passphrase_for o.requirements.network)
            (transfer_for o) o.manifest.expected_rule_id)
    stop_if (not (rule_allowed o.manifest.allowed_rule_ids auth.context_rule_id))
        policy_manifest_mismatch
    check_rule o auth.context_rule_id
    approved ←
        refuse_as (λ r. map_event_reason (reason_text r))
          (validate_simulation sdk o.manifest o.hashes (event_expected o auth.context_rule_id)
            o.simulation_events)
    next (record {
      payer = o.payer;
      delegate = auth.delegate;
      context_rule_id = auth.context_rule_id;
    })
