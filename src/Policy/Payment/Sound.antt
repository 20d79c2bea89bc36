-- ===== src/Policy/Payment/Sound.antt =====
-- What an accepted policy-aware payment guarantees.
use agent_allowance.Common.{
  ℤ, pos, Option, String, Any, any, [], ◌∷◌, inl, inr, ◌≢◌, ===_ne, Bool-cases, Option-cases, eqb_ℤ,
  eqb_ℤ_iff, false, ==_iff, or-eq-false, leb, truthy, is_text, ◌&&◌, ◌||◌, ◌===◌, ◌==◌, not,
  not-eq-false, stop_if, stop_if-next, >>=-eq-next, ℕ, true, ◌≡◌, refl, none, some, List, next,
  arith, eq_iff, ◌<◌, next-injective, subst,
}
use agent_allowance.Shared.Amounts.{codes, is_digits, digits_value}
use agent_allowance.Xdr.{Sdk}
use agent_allowance.Policy.Manifest.{RecipientPolicyBinding}
use agent_allowance.Policy.Events.{observed_is, same_lower_case}
use agent_allowance.Policy.Simulation.{Hashes, observed, validate_simulation}
use agent_allowance.Policy.Simulation.Sound.{IsSimulated, validate_simulation_sound}
use agent_allowance.Policy.Payment.{
  hash_pinned, wrong_amount, invalid_x402_version, invalid_scheme, invalid_network, PaymentOptions,
  PaymentValid, TransactionValid, ObservedRule, transfer_for, event_expected, passphrase_for,
  verify_payment, validate_transaction, check_request, check_rule, rule_matches, recipient_pinned,
  refuse_as, policy_manifest_mismatch, rule_allowed, reason_text, map_event_reason, auth_structure,
}
use agent_allowance.Policy.Payment.OneCall.{
  refuse_as-next, IsPaymentCall, validate_transaction_sound,
}

-- The request names version 2, the exact scheme, the manifest's network and a positive amount.
check_request_sound :
    (o : PaymentOptions) (u : Unit)
    → check_request o ≡ next u
    → (o.x402_version ≡ 2)
      × (o.requirements.scheme ≡ "exact")
      × (o.requirements.network ≡ o.manifest.network)
      × (is_digits (codes o.requirements.amount) ≡ true)
      × (0 < digits_value (codes o.requirements.amount) 0)
      × ((truthy o.manifest.smart_account && not (is_text o.manifest.smart_account o.payer))
          ≡ false)
      × (hash_pinned o.hashes o.manifest.smart_account_wasm_hash o.payer ≡ true)
unfolding check_request
check_request_sound o u h =
    let other_account =
      truthy o.manifest.smart_account && not (is_text o.manifest.smart_account o.payer) in
    let pinned = hash_pinned o.hashes o.manifest.smart_account_wasm_hash o.payer in
    let bad_amount =
      not (is_digits (codes o.requirements.amount))
      || leb (digits_value (codes o.requirements.amount) 0) 0 in
    let (u1, h1, k1) = >>=-eq-next (stop_if (not (o.x402_version == 2)) _) _ h in
    let (u2, h2, k2) = >>=-eq-next (stop_if (not (o.requirements.scheme === "exact")) _) _ k1 in
    let (u3, h3, k3) =
      >>=-eq-next (stop_if (not (o.requirements.network === o.manifest.network)) _) _ k2 in
    let (u4, h4, k4) = >>=-eq-next (stop_if bad_amount _) _ k3 in
    let (u5, h5, k5) = >>=-eq-next (stop_if other_account _) _ k4 in
    let (e1, e2) =
      or-eq-false (not (is_digits (codes o.requirements.amount))) _
        (stop_if-next bad_amount wrong_amount h4) in
    (
      (==_iff o.x402_version 2).0 (not-eq-false _ (stop_if-next _ invalid_x402_version h1)),
      (eq_iff o.requirements.scheme "exact").0 (not-eq-false _ (stop_if-next _ invalid_scheme h2)),
      (eq_iff o.requirements.network o.manifest.network).0
          (not-eq-false _ (stop_if-next _ invalid_network h3)),
      not-eq-false _ e1,
      ground (arith, e2),
      stop_if-next other_account policy_manifest_mismatch h5,
      not-eq-false pinned (stop_if-next (not pinned) policy_manifest_mismatch k5),
    )

-- The code that was observed for a contract is the pinned one, up to the case of its letters.
abbrev pub HasCode : Hashes → String → String → Type 0
HasCode hashes id pinned =
    (code : String) × (observed hashes id ≡ some code) × (same_lower_case code pinned ≡ true)

observed_code :
    (hashes : Hashes) (id pinned : String)
    → observed_is (observed hashes id) pinned ≡ true
    → HasCode hashes id pinned
observed_code hashes id pinned h = elim (Option-cases (observed hashes id)) [
  | inl unobserved ↦ absurd (ground (arith, unobserved))
  | inr (code, found) ↦ (code, found, ground (arith, found))
]

-- The rule that the payer selected is installed for this token and this recipient, by a recipient
-- policy whose code is the pinned one.
pub record IsInstalled (o : PaymentOptions) (id : ℕ) : Type 0 where
  pub policy : RecipientPolicyBinding
  pub pinned : o.manifest.recipient_policy ≡ some policy
  pub code : HasCode o.hashes policy.contract_id policy.expected_wasm_hash
  pub rule : ObservedRule
  pub resolved : o.resolve_rule id o.payer ≡ some rule
  pub rule_id : rule.context_rule_id ≡ id
  pub token : rule.token ≡ o.requirements.asset
  pub recipient : rule.recipient ≡ o.requirements.pay_to

check_rule_sound :
    (o : PaymentOptions) (id : ℕ) (u : Unit)
    → check_rule o id ≡ next u
    → o.manifest.expected_rule_id ≡ none
    → IsInstalled o id
unfolding check_rule recipient_pinned rule_matches
check_rule_sound o id u h e =
    let (policy, rule, pinned, code, resolved, rule_id, token, recipient) = facts in
    record {
      policy = policy;
      pinned = pinned;
      code = observed_code o.hashes policy.contract_id policy.expected_wasm_hash code;
      rule = rule;
      resolved = resolved;
      rule_id = rule_id;
      token = token;
      recipient = recipient;
    }
  where
    facts :
        (policy : RecipientPolicyBinding) × (rule : ObservedRule) × (o.manifest.recipient_policy
          ≡ some policy)
        × (observed_is (observed o.hashes policy.contract_id) policy.expected_wasm_hash ≡ true)
        × (o.resolve_rule id o.payer ≡ some rule)
        × (rule.context_rule_id ≡ id)
        × (rule.token ≡ o.requirements.asset)
        × (rule.recipient ≡ o.requirements.pay_to)
    facts = grind (arith, eq_iff)

any_rule :
    (ids : List ℤ) (z : ℤ) → any (λ (x : ℤ). eqb_ℤ x z) ids ≡ true → Any (λ (x : ℤ). x ≡ z) ids
any_rule [] z h = cc
any_rule (x ∷ ids) z h = elim (Bool-cases (eqb_ℤ x z)) [
  | inl own ↦ inl ((eqb_ℤ_iff x z).0 own)
  | inr other ↦ inr (any_rule ids z (ground (arith, other)))
]

pinned_code :
    (hashes : Hashes) (o : Option String) (id : String)
    → hash_pinned hashes o id ≡ true
    → (pinned : String) → o ≡ some pinned
    → pinned ≢ ""
    → HasCode hashes id pinned
pinned_code hashes o id h pinned e given =
    observed_code hashes id pinned (ground (arith, e, ===_ne pinned "" given))

module _ (sdk : Sdk) where
  pub record IsSafePayment (o : PaymentOptions) (v : PaymentValid) : Type 0 where
    pub version : o.x402_version ≡ 2
    pub scheme : o.requirements.scheme ≡ "exact"
    pub network : o.requirements.network ≡ o.manifest.network
    pub digits : is_digits (codes o.requirements.amount) ≡ true
    pub positive : 0 < digits_value (codes o.requirements.amount) 0
    pub account :
        (account : String)
        → o.manifest.smart_account ≡ some account
        → account ≢ ""
        → account ≡ o.payer
    pub account_code :
        (pinned : String)
        → o.manifest.smart_account_wasm_hash ≡ some pinned
        → pinned ≢ ""
        → HasCode o.hashes o.payer pinned
    pub transaction : TransactionValid
    pub payment_call :
        IsPaymentCall sdk o.transaction_xdr
          (passphrase_for sdk o.requirements.network)
          (transfer_for o)
          o.manifest.expected_rule_id
          transaction
    pub allowed :
        (ids : List ℤ)
        → o.manifest.allowed_rule_ids ≡ some ids
        → Any (λ (z : ℤ). z ≡ pos v.context_rule_id) ids
    pub installed : o.manifest.expected_rule_id ≡ none → IsInstalled o v.context_rule_id
    pub simulation :
        IsSimulated sdk o.manifest o.hashes (event_expected o v.context_rule_id) o.simulation_events
    pub payer : v.payer ≡ o.payer
    pub delegate : v.delegate ≡ transaction.delegate
    pub rule : v.context_rule_id ≡ transaction.context_rule_id

  -- A payment that is accepted asks for version 2 of the protocol, the exact scheme, the manifest's
  -- network and a positive amount; the payer is the manifest's account and has the pinned code, where
  -- the manifest names them; its transaction is unsigned and has one operation, the call `transfer` of the
  -- required asset, from the payer, to the required recipient and of the required amount, whose
  -- authorization entries are the payer's and the delegate's; the selected rule is one that the manifest
  -- allows, where it lists any, and where the manifest expects no fixed rule, it is installed for this token
  -- and this recipient by a recipient policy with the pinned code; and the simulation's events are this
  -- payment's one transfer and spending-limit events of it that the manifest pins.
  pub verify_payment_sound :
      (o : PaymentOptions) (v : PaymentValid) → verify_payment sdk o ≡ next v → IsSafePayment o v
  unfolding verify_payment
  verify_payment_sound o v h =
      let (u1, h1, k1) = >>=-eq-next (check_request o) _ h in
      let (t, h2, k2) =
        >>=-eq-next
          (refuse_as (λ r. auth_structure)
            (validate_transaction sdk o.transaction_xdr (passphrase_for sdk o.requirements.network)
              (transfer_for o) o.manifest.expected_rule_id))
          _ k1 in
      let allows = rule_allowed o.manifest.allowed_rule_ids t.context_rule_id in
      let (u3, h3, k3) = >>=-eq-next (stop_if (not allows) policy_manifest_mismatch) _ k2 in
      let (u4, h4, k4) = >>=-eq-next (check_rule o t.context_rule_id) _ k3 in
      let (approved, h5, k5) =
        >>=-eq-next
          (refuse_as (λ r. map_event_reason (reason_text r))
            (validate_simulation sdk o.manifest o.hashes (event_expected o t.context_rule_id)
              o.simulation_events))
          _ k4 in
      let (version, scheme, network, digits, positive, account, account_code) =
        check_request_sound o u1 h1 in
      subst (IsSafePayment o) (next-injective k5) (record {
        version = version;
        scheme = scheme;
        network = network;
        digits = digits;
        positive = positive;
        account =
            λ account' e given. grind (arith, account, eq_iff account' o.payer, eq_iff account' "");
        account_code = pinned_code o.hashes o.manifest.smart_account_wasm_hash o.payer account_code;
        transaction = t;
        payment_call = validate_transaction_sound sdk _ _ _ _ t (refuse_as-next _ _ h2);
        allowed = λ ids e. any_rule ids (pos t.context_rule_id) (
            subst (λ (x : Option (List ℤ)). rule_allowed x t.context_rule_id ≡ true) e
              (not-eq-false allows (stop_if-next (not allows) policy_manifest_mismatch h3)));
        installed = check_rule_sound o t.context_rule_id u4 h4;
        simulation =
            validate_simulation_sound sdk o.manifest o.hashes (event_expected o t.context_rule_id)
              o.simulation_events approved (refuse_as-next _ _ h5);
        payer = refl;
        delegate = refl;
        rule = refl;
      })
