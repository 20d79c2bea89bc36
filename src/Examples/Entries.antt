-- ===== src/Examples/Entries.antt =====
-- Authorization entries of a payment, as the payer and the delegate sign them.
use agent_allowance.Common.{pos, some, [], ◌∷◌, refl}
use agent_allowance.Auth.{
  validate_entries, pick_entries, address_of, check_credentials, is_void, check_transfer,
  contract_function, check_payload, read_auth_payload, selects, check_delegate, check_digest,
  same_bytes,
}
use agent_allowance.Auth.Sound.{validate_entries_sound, IsDelegated}
use agent_allowance.Examples.Fixtures.{sdk, payer_entry, delegate_entry, payment, payer, delegate}

validate_entries_sound_example :
    IsDelegated sdk
      (delegate_entry ∷ payer_entry ∷ [])
      payment
      "Test"
      (some (pos 4))
      (record { payer = payer; delegate = delegate; context_rule_ids = 4 ∷ [] })
unfolding validate_entries pick_entries address_of check_credentials is_void check_transfer
    contract_function check_payload read_auth_payload selects check_delegate check_digest same_bytes
    sdk
validate_entries_sound_example =
    validate_entries_sound sdk (delegate_entry ∷ payer_entry ∷ []) payment "Test" (some (pos 4))
      (record { payer = payer; delegate = delegate; context_rule_ids = 4 ∷ [] }) refl
