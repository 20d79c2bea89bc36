-- ===== src/Examples/Plugin.antt =====
-- The plugin's routes on the same payment.
use agent_allowance.Payer.Receipt.{is_sha256}
use agent_allowance.Shared.Challenge.{is_contract}
use agent_allowance.Policy.Manifest.{
  adapter_ok, is_dynamic, is_rule_id, option_all, absent_or, is_blank, assert_production_manifest,
}
use agent_allowance.Relayer.Transfers.{
  read_event, parse_transfer_events, validate_simulation_events,
}
use agent_allowance.Auth.{is_void}
use agent_allowance.Relayer.Entries.{
  check_expirations, max_expiration, expiration_ledgers, validate_expirations, signed_addresses,
  check_shapes, all_addresses, validate_auth_entries,
}
use agent_allowance.Relayer.Profile.{choose_profile}
use agent_allowance.Shared.Amounts.{big_int}
use agent_allowance.Relayer.Signatures.{check_signatures, check_terms}
use agent_allowance.Relayer.Verify.{check_effects, check_fee, check_payment, verify_flow, verify}
use agent_allowance.Common.{◌≡◌, refl, ℤ, pos, String, true, some, [], ◌∷◌, Option, List, or_else}
use agent_allowance.Shared.{PaymentRequirements}
use agent_allowance.Relayer.Request.{read_call, check_protocol, network_passphrase, NetworkConfig}
use agent_allowance.Relayer.Channel.{
  call_channel_service, poll_transaction_status, submit, settle_via_channel_service,
}
use agent_allowance.Relayer.Guards.{
  is_valid_payment_requirements_object, read_requirements, Json, JsonFields, json_object, json_text,
  json_number, json_bool, no_fields, json_field, field, validate_base_request_params, read_request,
}
use agent_allowance.Relayer.Guards.Shape.{IsRequirements, validate_base_request_params_sound}
use agent_allowance.Relayer.Handler.{
  check_manifest, handle_settle, handle_verify, PluginConfig, PluginApi,
  assert_trusted_policy_configuration, handle_supported, handler,
}
use agent_allowance.Relayer.Handler.Trusted.{
  AreTrusted, AllNew, profiles_of, assert_trusted_policy_configuration_sound,
}
use agent_allowance.Relayer.Handler.Supported.{IsGrouped, listed, signs, handle_supported-IsGrouped}
use agent_allowance.Relayer.Handler.Routes.{
  AreConfigured, IsChosen, handler-IsVerified, handler-IsSettled,
}
use agent_allowance.Relayer.Verify.Accepted.{IsVerified}
use agent_allowance.Relayer.Settle.{deadline_ms, verify_again, settle}
use agent_allowance.Relayer.Settle.Sound.{IsSettled}
use agent_allowance.Examples.Relay.{config, relayer}
use agent_allowance.Examples.Policies.{manifest}
use agent_allowance.Examples.Settlement.{around, hash_response}
use agent_allowance.Examples.Fixtures.{payer, token, merchant, testnet, envelope, sdk}

infixr 5 ◌▸◌
abbrev ◌▸◌ : String × Json → JsonFields → JsonFields
(key, value) ▸ rest = json_field key value rest

abbrev requirements_json : Json
requirements_json = json_object (
    ("scheme", json_text "exact")
    ▸ ("network", json_text testnet)
    ▸ ("amount", json_text "5")
    ▸ ("payTo", json_text merchant)
    ▸ ("maxTimeoutSeconds", json_number (pos 60))
    ▸ ("asset", json_text token)
    ▸ (
      "extra",
      json_object
          (("areFeesSponsored", json_bool true) ▸ ("challengeId", json_text "c1") ▸ no_fields),
    )
    ▸ no_fields)

abbrev params : Json
params = json_object (
    (
      "paymentPayload",
      json_object (
          ("x402Version", json_number (pos 2))
          ▸ ("accepted", requirements_json)
          ▸ ("payload", json_object (("transaction", json_text envelope) ▸ no_fields))
          ▸ no_fields),
    )
    ▸ ("paymentRequirements", requirements_json)
    ▸ no_fields)

abbrev plugin : PluginConfig
plugin = record { networks = some (config ∷ []) }

abbrev api : PluginApi
api = record { relayer = λ c. relayer; around = λ c. around; address = λ c. some (some "GRELAYER") }

validate_base_request_params_sound_example :
    IsRequirements (field params "paymentRequirements") (read_request params).requirements
    × ((accepted : PaymentRequirements) × ((read_request params).accepted ≡ some accepted)
        × IsRequirements (field (field params "paymentPayload") "accepted") accepted)
    × ((version : ℤ) × (field (field params "paymentPayload") "x402Version" ≡ json_number version))
unfolding validate_base_request_params is_valid_payment_requirements_object
validate_base_request_params_sound_example = validate_base_request_params_sound params refl

-- Two networks, one with a policy manifest.
abbrev two_networks : List NetworkConfig
two_networks =
    record config { policy_manifests = manifest ∷ [] }
    ∷ record config { network = "stellar:pubnet" }
    ∷ []

assert_trusted_policy_configuration_sound_example :
    (◌≡◌ {A = Option (List NetworkConfig)} (some two_networks) (some two_networks))
    × AreTrusted two_networks
    × AllNew [] (profiles_of two_networks)
unfolding assert_trusted_policy_configuration check_manifest assert_production_manifest is_blank
    absent_or is_contract option_all is_rule_id is_dynamic adapter_ok is_sha256
assert_trusted_policy_configuration_sound_example =
    assert_trusted_policy_configuration_sound (record { networks = some two_networks }) two_networks
      refl

handle_supported-IsGrouped_example :
    IsGrouped (or_else (handle_supported api two_networks).signers [])
    × ((network address : String)
        → listed (or_else (handle_supported api two_networks).signers []) network address
          ≡ signs api network address two_networks)
handle_supported-IsGrouped_example = handle_supported-IsGrouped api two_networks

handler-IsVerified_example :
    (validate_base_request_params params ≡ true)
    × ((networks : List NetworkConfig) × AreConfigured (some plugin) networks
        × ((chosen : NetworkConfig) × IsChosen networks
              (read_request params).requirements.network
              chosen
            × IsVerified sdk (read_request params) chosen (api.relayer chosen) payer))
unfolding network_passphrase verify verify_flow check_protocol read_call sdk check_payment
    check_terms big_int choose_profile check_signatures validate_auth_entries all_addresses
    check_shapes signed_addresses is_void validate_expirations expiration_ledgers max_expiration
    check_expirations check_fee check_effects validate_simulation_events parse_transfer_events
    read_event handler handle_verify assert_trusted_policy_configuration
    validate_base_request_params read_request read_requirements is_valid_payment_requirements_object
handler-IsVerified_example = handler-IsVerified sdk api 57 (some plugin) "/verify" params payer refl

handler-IsSettled_example :
    (validate_base_request_params params ≡ true)
    × ((networks : List NetworkConfig) × AreConfigured (some plugin) networks
        × ((chosen : NetworkConfig) × IsChosen networks
              (read_request params).requirements.network
              chosen
            × IsSettled sdk (read_request params) chosen (api.around chosen) 57 hash_response))
unfolding network_passphrase verify verify_flow check_protocol read_call sdk check_payment
    check_terms big_int choose_profile check_signatures validate_auth_entries all_addresses
    check_shapes signed_addresses is_void validate_expirations expiration_ledgers max_expiration
    check_expirations check_fee check_effects validate_simulation_events parse_transfer_events
    read_event handler handle_verify assert_trusted_policy_configuration
    validate_base_request_params read_request read_requirements is_valid_payment_requirements_object
    settle verify_again deadline_ms settle_via_channel_service submit poll_transaction_status
    call_channel_service handle_settle
handler-IsSettled_example =
    handler-IsSettled sdk api 57 (some plugin) "/settle" params hash_response refl refl
