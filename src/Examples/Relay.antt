-- ===== src/Examples/Relay.antt =====
-- The relayer's checks of the same payment, and of one without a policy manifest.
use agent_allowance.Common.{
  subst, arith, next, ℕ, pos, none, some, true, [], ◌∷◌, refl, ◌≡◌, List, All,
}
use agent_allowance.Xdr.{
  AddressCredentials, by_address, Native, symbol, i128, AuthEntry, DiagnosticEvent,
}
use agent_allowance.Policy.Events.{RawEvent, decoded}
use agent_allowance.Relayer.Entries.{
  validate_expirations, expiration_ledgers, max_expiration, validate_auth_entries, all_addresses,
  check_expirations, check_shapes,
}
use agent_allowance.Relayer.Entries.Sound.{
  by_address-injective, IsTimely, IsTimelyEntry, IsForeign, IsPlain, validate_expirations_sound,
  validate_expirations_complete, validate_auth_entries_sound,
}
use agent_allowance.Relayer.Transfers.{TransferEvent}
use agent_allowance.Relayer.Request.{VerifyRequest, NetworkConfig, Relayer, answered, refused}
use agent_allowance.Examples.Fixtures.{
  sdk, payer, token, merchant, testnet, at, requirements, envelope, payer_entry, delegate_entry,
}

abbrev auth : List AuthEntry
auth = delegate_entry ∷ payer_entry ∷ []

validate_expirations_sound_example :
    (current : ℕ) × (some 100 ≡ some current) × All (IsTimelyEntry current (pos 60)) auth
unfolding validate_expirations check_expirations expiration_ledgers max_expiration
validate_expirations_sound_example = validate_expirations_sound (some 100) (pos 60) auth tt refl

validate_auth_entries_sound_example :
    All (IsForeign sdk (some "GRELAYER" ∷ none ∷ [])) auth × All (IsPlain sdk) auth
unfolding validate_auth_entries all_addresses sdk check_shapes
validate_auth_entries_sound_example =
    validate_auth_entries_sound sdk auth (some "GRELAYER" ∷ none ∷ []) tt refl

abbrev transfer_event : DiagnosticEvent
transfer_event = record {
  type_name = "contract";
  in_successful_call = true;
  contract_id = some (1 ∷ []);
  topics = symbol "transfer" ∷ at payer ∷ at merchant ∷ [];
  payload = i128 (pos 0) 5;
}

abbrev diagnostic_event : DiagnosticEvent
diagnostic_event = record {
  type_name = "diagnostic";
  in_successful_call = true;
  contract_id = none;
  topics = symbol "fn_call" ∷ [];
  payload = i128 (pos 0) 5;
}

abbrev events : List RawEvent
events = decoded diagnostic_event ∷ decoded transfer_event ∷ []

abbrev pub config : NetworkConfig
config = record {
  network = testnet;
  type_name = "stellar";
  assets = token ∷ [];
  api_url = some "https://channels";
  api_key = some "key";
  fund_relayer_id = none;
  fund_address = some "GFUND";
  max_fee = some "10000";
  policy_manifests = [];
}

abbrev pub relayer : Relayer
relayer = record {
  address = some "GRELAYER";
  network = "testnet";
  latest_ledger = some 100;
  simulate = λ xdr. answered (record { min_resource_fee = some "600"; events = events });
  ledger_entries = λ keys. refused;
  ledger_key = λ id. none;
  wasm_hash = λ xdr. none;
  rule_of = λ m id account. none;
}

abbrev pub request : VerifyRequest
request = record {
  x402_version = 2;
  accepted = some requirements;
  transaction = envelope;
  requirements = requirements;
}

abbrev required_event : TransferEvent
required_event = record {
  contract_id = token;
  sender = payer;
  recipient = merchant;
  amount = Native.bigint (pos 5);
}

payer-IsTimely :
    (c : AddressCredentials)
    → payer_entry.credentials ≡ by_address c
    → IsTimely 100 60 c.expiration_ledger
payer-IsTimely c same =
    subst (λ (x : AddressCredentials). IsTimely 100 60 x.expiration_ledger)
      (by_address-injective _ c same) (omega arith)

delegate-IsTimely :
    (c : AddressCredentials)
    → delegate_entry.credentials ≡ by_address c
    → IsTimely 100 60 c.expiration_ledger
delegate-IsTimely c same =
    subst (λ (x : AddressCredentials). IsTimely 100 60 x.expiration_ledger)
      (by_address-injective _ c same) (omega arith)

validate_expirations_complete_example : validate_expirations (some 100) (pos 60) auth ≡ next tt
validate_expirations_complete_example =
    validate_expirations_complete 100 60 auth (delegate-IsTimely, (payer-IsTimely, tt))
