-- ===== src/Examples/Policies.antt =====
-- A policy manifest, the events of a payment under it, and the fees.
use agent_allowance.Auth.{
  same_bytes, check_digest, check_delegate, selects, read_auth_payload, check_payload,
  contract_function, check_transfer, is_void, check_credentials, address_of, pick_entries,
  validate_entries,
}
use agent_allowance.Payer.Receipt.{is_sha256}
use agent_allowance.Common.{
  ◌≡◌, ◌⊎◌, ◌≤◌, ◌<◌, ◌*◌, ◌+◌, truthy, pos, none, some, true, [], ◌∷◌, refl, List, String,
}
use agent_allowance.Shared.Amounts.{codes, digits_value}
use agent_allowance.Shared.Challenge.{is_contract}
use agent_allowance.Xdr.{ScVal, u32, i128, symbol, vec, nil, cons, entry, end, DiagnosticEvent}
use agent_allowance.Payer.Fee.{select_transaction_fee}
use agent_allowance.Payer.Fee.Bounds.{select_transaction_fee-bounds}
use agent_allowance.Policy.Manifest.{
  adapter_ok, is_dynamic, is_rule_id, option_all, absent_or, is_blank, Manifest, Adapter,
  RecipientPolicyBinding, assert_production_manifest, spending_limit_kind,
}
use agent_allowance.Policy.Manifest.Sound.{assert_production_manifest_sound}
use agent_allowance.Policy.Events.{
  same_lower_case, parse_transfer, parse_event, map_fields, ExpectedTransfer, ParsedEvent, RawEvent,
  decoded, Approved, parse_contract_events,
}
use agent_allowance.Policy.Spending.{
  check_context, check_amounts, numeric_fields, check_payer, check_spending,
}
use agent_allowance.Policy.Spending.Sound.{check_spending_sound, IsSpending}
use agent_allowance.Policy.Simulation.Sound.{IsSimulated, validate_simulation_sound}
use agent_allowance.Policy.Simulation.{
  check_transfer_event, check_events, check_event, is_expected, identity_ok, Hashes,
  validate_simulation, required_seen,
}
use agent_allowance.Policy.Payment.{
  check_rule, check_call, validate_transaction, check_request, PaymentOptions, PaymentValid,
  verify_payment,
}
use agent_allowance.Policy.Payment.Sound.{verify_payment_sound, IsSafePayment}
use agent_allowance.Examples.Fixtures.{
  sdk, payer, token, policy, delegate, merchant, testnet, code_hash, at, requirements, envelope,
}

abbrev adapter : Adapter
adapter = record {
  kind = spending_limit_kind;
  contract_id = policy;
  expected_wasm_hash = some code_hash;
  required = true;
}

abbrev pub manifest : Manifest
manifest = record {
  id = "fixed";
  network = testnet;
  smart_account = some payer;
  smart_account_wasm_hash = none;
  expected_rule_id = some (pos 4);
  allowed_rule_ids = none;
  recipient_policy = none;
  adapters = adapter ∷ [];
}

abbrev embedded : ScVal
embedded = vec (
    cons (symbol "Contract") (
      cons
        (ScVal.map (
          entry (symbol "contract") (at token) (
            entry (symbol "fn_name") (symbol "transfer") (
              entry (symbol "args")
                (vec (cons (at payer) (cons (at merchant) (cons (i128 (pos 0) 5) nil)))) end))))
        nil))

abbrev spending_data : ScVal
spending_data = ScVal.map (
    entry (symbol "amount") (i128 (pos 0) 5) (
      entry (symbol "context") embedded (
        entry (symbol "context_rule_id") (u32 4)
          (entry (symbol "total_spent_in_period") (i128 (pos 0) 9) end))))

abbrev spending_event : ParsedEvent
spending_event = record {
  contract_id = policy;
  event_name = some "spending_limit_enforced";
  topics = symbol "spending_limit_enforced" ∷ at payer ∷ [];
  payload = spending_data;
}

abbrev expected : ExpectedTransfer
expected = record {
  token = token;
  sender = payer;
  recipient = merchant;
  amount = pos 5;
  context_rule_id = 4;
}

check_spending_sound_example : IsSpending sdk spending_event expected
unfolding check_spending check_payer sdk map_fields numeric_fields check_amounts check_context
check_spending_sound_example = check_spending_sound sdk spending_event expected refl

abbrev transfer_event : DiagnosticEvent
transfer_event = record {
  type_name = "contract";
  in_successful_call = true;
  contract_id = some (1 ∷ []);
  topics = symbol "transfer" ∷ at payer ∷ at merchant ∷ [];
  payload = i128 (pos 0) 5;
}

abbrev limit_event : DiagnosticEvent
limit_event = record {
  type_name = "contract";
  in_successful_call = true;
  contract_id = some (2 ∷ 2 ∷ []);
  topics = symbol "spending_limit_enforced" ∷ at payer ∷ [];
  payload = spending_data;
}

abbrev events : List RawEvent
events = decoded transfer_event ∷ decoded limit_event ∷ []

abbrev hashes : Hashes
hashes = some ((policy, code_hash) ∷ [])

abbrev approved : List Approved
approved =
    record {
      kind = spending_limit_kind;
      contract_id = policy;
      event_name = some "spending_limit_enforced";
    }
    ∷ []

validate_simulation_sound_example : IsSimulated sdk manifest hashes expected events
unfolding validate_simulation parse_contract_events parse_event parse_transfer same_lower_case sdk
    identity_ok is_expected required_seen check_event check_events check_transfer_event
    check_spending check_payer map_fields numeric_fields check_amounts check_context
validate_simulation_sound_example =
    validate_simulation_sound sdk manifest hashes expected events approved refl

abbrev options : PaymentOptions
options = record {
  x402_version = 2;
  transaction_xdr = envelope;
  requirements = requirements;
  simulation_events = events;
  manifest = manifest;
  payer = payer;
  hashes = hashes;
  resolve_rule = λ id account. none;
}

abbrev paid : PaymentValid
paid = record { payer = payer; delegate = delegate; context_rule_id = 4 }

verify_payment_sound_example : IsSafePayment sdk options paid
unfolding validate_simulation parse_contract_events parse_event parse_transfer same_lower_case sdk
    identity_ok is_expected required_seen check_event check_events check_transfer_event
    check_spending check_payer map_fields numeric_fields check_amounts check_context verify_payment
    check_request digits_value validate_transaction check_call validate_entries pick_entries
    address_of check_credentials is_void check_transfer contract_function check_payload
    read_auth_payload selects check_delegate check_digest same_bytes check_rule
verify_payment_sound_example = verify_payment_sound sdk options paid refl

assert_production_manifest_sound_example :
    ((truthy manifest.smart_account ≡ true) ⊎ (truthy manifest.smart_account_wasm_hash ≡ true))
    × ((a : Adapter) × (manifest.adapters ≡ a ∷ [])
        × (a.kind ≡ spending_limit_kind)
        × (is_contract a.contract_id ≡ true)
        × (a.required ≡ true)
        × (h : String) × (a.expected_wasm_hash ≡ some h)
        × (is_sha256 h ≡ true))
    × (manifest.expected_rule_id ≡ none
        → (r : RecipientPolicyBinding) × (manifest.recipient_policy ≡ some r)
          × (is_contract r.contract_id ≡ true)
          × (is_sha256 r.expected_wasm_hash ≡ true))
unfolding assert_production_manifest is_blank absent_or is_contract option_all is_rule_id is_dynamic
    adapter_ok is_sha256
assert_production_manifest_sound_example = assert_production_manifest_sound manifest tt refl

select_transaction_fee-bounds_example :
    (1200 ≤ digits_value (codes "10000000") 0)
    × (11 * digits_value (codes "1000") 0 + 1000 ≤ 10 * 1200)
    × (10 * 1200 < 11 * digits_value (codes "1000") 0 + 1010)
unfolding select_transaction_fee digits_value
select_transaction_fee-bounds_example = select_transaction_fee-bounds (some "1000") none 1200 refl
