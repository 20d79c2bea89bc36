-- ===== src/Policy/Manifest.antt =====
-- packages/facilitator-policy/src/manifest.ts.
pub mod Sound
use agent_allowance.Common.{
  ℕ, ℤ, pos, ◌-◌, ◌^◌, String, Bool, true, false, not, ◌||◌, ◌&&◌, Option, none, some, List, [],
  ◌∷◌, ◌===◌, truthy, all, any, is_some, eqb_ℤ, ltb_ℤ, leb_ℤ, pos_part, neg_part, leb, length, ◌==◌,
  or_else, if◌then◌else◌, Flow, next, throw_if, ◌>>=◌, ◌>>◌,
}
use agent_allowance.Shared.Amounts.{codes, is_space}
use agent_allowance.Shared.Challenge.{is_contract}
use agent_allowance.Payer.Receipt.{is_sha256}

pub record Adapter : Type 0 where
  pub kind : String
  pub contract_id : String
  pub expected_wasm_hash : Option String
  pub required : Bool

pub record RecipientPolicyBinding : Type 0 where
  pub contract_id : String
  pub expected_wasm_hash : String

pub record Manifest : Type 0 where
  pub id : String
  pub network : String
  pub smart_account : Option String
  pub smart_account_wasm_hash : Option String
  pub expected_rule_id : Option ℤ
  pub allowed_rule_ids : Option (List ℤ)
  pub recipient_policy : Option RecipientPolicyBinding
  pub adapters : List Adapter

-- `OPENZEPPELIN_SPENDING_LIMIT_V_0_7_2`
abbrev pub spending_limit_kind : String
spending_limit_kind = "openzeppelin-stellar-accounts/spending-limit@0.7.2"

-- `id.trim()` is empty.
unfoldable pub is_blank : String → Bool
is_blank s = all is_space (codes s)

-- `Number.isSafeInteger(z) && z >= 0`, of a number that is an integer.
unfoldable pub is_rule_id : ℤ → Bool
is_rule_id z = leb_ℤ (pos 0) z && leb (pos_part z) (2 ^ 53 - 1)

-- `new Set(ids).size === ids.length`
unfoldable pub unique : List ℤ → Bool
unique [] = true
unique (z ∷ zs) = not (any (eqb_ℤ z) zs) && unique zs

unfoldable pub rule_ids_ok : List ℤ → Bool
unfolding is_rule_id unique
rule_ids_ok ids = not (length ids == 0) && all is_rule_id ids && unique ids

-- A text that is absent or empty passes the test under `if (text && !test(text))`.
unfoldable pub absent_or : Option String → (String → Bool) → Bool
absent_or o test = not (truthy o) || test (or_else o "")

unfoldable pub is_dynamic : Manifest → Bool
is_dynamic m = not (is_some m.expected_rule_id)

unfoldable pub pins_recipient : Option RecipientPolicyBinding → Bool
pins_recipient none = false
pins_recipient (some r) = is_contract r.contract_id && is_sha256 r.expected_wasm_hash

unfoldable pub option_all : {A : Type 0} → Option A → (A → Bool) → Bool
option_all none test = true
option_all (some a) test = test a

-- The checks of one adapter, in the loop.
unfoldable pub adapter_ok : Adapter → Bool
adapter_ok a =
    a.kind === spending_limit_kind
    && is_contract a.contract_id
    && a.required
    && truthy a.expected_wasm_hash
    && is_sha256 (or_else a.expected_wasm_hash "")

-- `assertProductionManifest`: it returns or throws. With exactly one adapter the test for a repeated
-- identity, at the end of the loop, never throws.
unfoldable pub assert_production_manifest : {R : Type 0} → Manifest → Flow R (Unit {0})
assert_production_manifest m = do
  throw_if (is_blank m.id) "Policy manifest ID is required"
  throw_if (not (absent_or m.smart_account is_contract))
      "smartAccount must be a Stellar C-account payer"
  throw_if (not (absent_or m.smart_account_wasm_hash is_sha256))
      "smartAccountWasmHash must be a SHA-256 hash"
  throw_if (not (truthy m.smart_account) && not (truthy m.smart_account_wasm_hash))
      "Policy manifest must pin a smart-account address or WASM hash"
  throw_if (not (option_all m.expected_rule_id is_rule_id))
      "expectedRuleId must be a non-negative integer"
  throw_if (not (option_all m.allowed_rule_ids rule_ids_ok))
      "allowedRuleIds must contain unique non-negative integers"
  throw_if (is_dynamic m && not (pins_recipient m.recipient_policy))
      "Dynamic policy manifest must pin a recipient-policy contract"
  throw_if (not (length m.adapters == 1))
      "MVP policy manifest requires exactly one spending-limit adapter"
  throw_if (not (all adapter_ok m.adapters)) "Invalid policy adapter"
