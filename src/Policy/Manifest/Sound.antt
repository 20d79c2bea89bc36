-- ===== src/Policy/Manifest/Sound.antt =====
-- What a manifest that is accepted for production pins.
use agent_allowance.Common.{
  String, true, false, ◌≡◌, ◌⊎◌, none, some, List, [], ◌∷◌, truthy, next, arith, eq_iff, all, not,
  ◌&&◌, ◌==◌, length, refl,
}
use agent_allowance.Payer.Receipt.{is_sha256}
use agent_allowance.Shared.Challenge.{is_contract}
use agent_allowance.Policy.Manifest.{
  Manifest, Adapter, RecipientPolicyBinding, assert_production_manifest, spending_limit_kind,
  adapter_ok, is_dynamic, pins_recipient,
}

-- The checks that a manifest which is accepted has passed.
checks :
    (m : Manifest) (u : Unit)
    → assert_production_manifest {R = ⊥} m ≡ next u
    → ((truthy m.smart_account ≡ true) ⊎ (truthy m.smart_account_wasm_hash ≡ true))
      × ((length m.adapters == 1) ≡ true)
      × (all adapter_ok m.adapters ≡ true)
      × ((is_dynamic m && not (pins_recipient m.recipient_policy)) ≡ false)
unfolding assert_production_manifest
checks m u h = ground arith

one_adapter :
    (as_ : List Adapter)
    → (length as_ == 1) ≡ true
    → all adapter_ok as_ ≡ true
    → (a : Adapter) × (as_ ≡ a ∷ []) × (adapter_ok a ≡ true)
one_adapter [] h k = cc
one_adapter (a ∷ []) h k = (a, refl, ground arith)
one_adapter (a ∷ b ∷ as_) h k = ground arith

adapter_sound :
    (a : Adapter)
    → adapter_ok a ≡ true
    → (a.kind ≡ spending_limit_kind)
      × (is_contract a.contract_id ≡ true)
      × (a.required ≡ true)
      × ((h : String) × (a.expected_wasm_hash ≡ some h) × (is_sha256 h ≡ true))
unfolding adapter_ok
adapter_sound a h = grind (arith, eq_iff)

recipient_sound :
    (m : Manifest)
    → (is_dynamic m && not (pins_recipient m.recipient_policy)) ≡ false
    → m.expected_rule_id ≡ none
    → (r : RecipientPolicyBinding) × (m.recipient_policy ≡ some r)
      × (is_contract r.contract_id ≡ true)
      × (is_sha256 r.expected_wasm_hash ≡ true)
unfolding is_dynamic pins_recipient
recipient_sound m h e = grind arith

-- A manifest that is accepted has exactly one adapter; that adapter is of the spending-limit kind, a
-- contract, required and with its code hash pinned. The manifest pins the account's address or code
-- hash, and where it expects no fixed rule it pins a recipient policy and its code hash.
pub assert_production_manifest_sound :
    (m : Manifest) (u : Unit)
    → assert_production_manifest {R = ⊥} m ≡ next u
    → ((truthy m.smart_account ≡ true) ⊎ (truthy m.smart_account_wasm_hash ≡ true))
      × ((a : Adapter) × (m.adapters ≡ a ∷ [])
          × (a.kind ≡ spending_limit_kind)
          × (is_contract a.contract_id ≡ true)
          × (a.required ≡ true)
          × (h : String) × (a.expected_wasm_hash ≡ some h)
          × (is_sha256 h ≡ true))
      × ((m.expected_rule_id ≡ none)
          → (r : RecipientPolicyBinding) × (m.recipient_policy ≡ some r)
            × (is_contract r.contract_id ≡ true)
            × (is_sha256 r.expected_wasm_hash ≡ true))
assert_production_manifest_sound m u h =
    let (pinned, single, each, dynamic) = checks m u h in
    let (a, only, ok) = one_adapter m.adapters single each in
    let (kind, contract, required, hash) = adapter_sound a ok in
    (pinned, (a, only, kind, contract, required, hash.0, hash.1, hash.2), recipient_sound m dynamic)
