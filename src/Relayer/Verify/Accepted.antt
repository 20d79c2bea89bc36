-- ===== src/Relayer/Verify/Accepted.antt =====
-- What an accepted payment holds.
use agent_allowance.Common.{
  Bool, true, ◌≢◌, ◌≤ℤ◌, ltb_ℤ, ltb_ℤ-false, ===_ne, or_throw, call-next, ◌>>=◌, ℤ, String, false,
  ◌&&◌, ◌≡◌, Option, none, some, List, [], ◌∷◌, ◌==◌, All, includes, length, is_some, or_else, Flow,
  next, stop, thrown, stop_if, >>=-eq-next, stop_if-next, next-injective, arith, subst,
}
use agent_allowance.Shared.Amounts.{big_int}
use agent_allowance.Xdr.{Native, Sdk}
use agent_allowance.Policy.Manifest.{Manifest}
use agent_allowance.Policy.Events.{RawEvent}
use agent_allowance.Policy.Payment.{refuse_as, PaymentValid, verify_payment}
use agent_allowance.Policy.Payment.Sound.{IsSafePayment, verify_payment_sound}
use agent_allowance.Relayer.Reasons.{
  fee_below_minimum, fee_exceeds_maximum, RelayReason, unsafe_policy_participant,
  no_transfer_events, policy_refused, unexpected_balance_changes,
}
use agent_allowance.Relayer.Transfers.{
  TransferEvent, parse_transfer_events, validate_simulation_events,
}
use agent_allowance.Relayer.Transfers.Single.{IsRequired, IsQuiet, validate_simulation_events_sound}
use agent_allowance.Relayer.Request.{
  VerifyRequest, NetworkConfig, Answer, answered, refused, rejected, Simulation, Relayer, valid,
  check_protocol, Call, read_call, protected,
}
use agent_allowance.Relayer.Request.Reads.{
  IsOnProtocol, check_protocol_sound, IsTransferCall, read_call_sound,
}
use agent_allowance.Relayer.Profile.{choose_profile}
use agent_allowance.Relayer.Profile.Chosen.{IsProfileOf, choose_profile_sound}
use agent_allowance.Relayer.Entries.Sound.{AreOthers, unprotected}
use agent_allowance.Relayer.Signatures.{check_terms, check_signatures}
use agent_allowance.Relayer.Signatures.Signed.{
  IsOnTerms, check_terms_sound, IsSigned, check_signatures_sound,
}
use agent_allowance.Relayer.Verify.{
  simulated, less_refused, options_for, hashes_or, check_fee, check_effects, check_payment,
  verify_flow, respond, verify,
}

refuse_as-eq :
    {R S A : Type 0} (f : R → S) (m : Flow R A) {a : A} → refuse_as f m ≡ next a → m ≡ next a
refuse_as-eq f (next a) h = cc
refuse_as-eq f (stop r) h = cc
refuse_as-eq f (thrown m) h = cc

simulated-eq : (a : Answer Simulation) (s : Simulation) → simulated a ≡ next s → a ≡ answered s
simulated-eq (answered x) s h = cc
simulated-eq refused s h = cc
simulated-eq rejected s h = cc

respond-eq :
    (sdk : Sdk) (m : Flow (RelayReason × Option Native) String) (payer : String)
    → respond sdk m ≡ valid payer
    → m ≡ next payer
respond-eq sdk (next p) payer h = cc
respond-eq sdk (stop (r, p)) payer h = cc
respond-eq sdk (thrown m) payer h = cc

and-given : (a b : Bool) → a ≡ true → (a && b) ≡ false → b ≡ false
and-given a b h k = ground arith

no_events : (es : List RawEvent) → (length es == 0) ≡ false → es ≢ []
no_events [] h e = cc
no_events (x ∷ es) h e = cc

-- The number of the first text is not below the second's, where neither text is empty.
abbrev pub IsNotBelow : String → String → Type 0
IsNotBelow a b =
    a ≢ "" → b ≢ "" → (x : ℤ) × (y : ℤ) × (big_int a ≡ some x) × (big_int b ≡ some y) × (y ≤ℤ x)

less_refused_sound :
    (a b : String) (r : RelayReason) (u : Unit) → less_refused a b r ≡ next u → IsNotBelow a b
less_refused_sound a b r u h na nb =
    let (x, h1, k1) = >>=-eq-next (or_throw (big_int a) "BigInt") _ (reads h) in
    let (y, h2, k2) = >>=-eq-next (or_throw (big_int b) "BigInt") _ k1 in
    (x, y, call-next _ "BigInt" h1, call-next _ "BigInt" h2, ltb_ℤ-false x y (stop_if-next _ r k2))
  where
    reads :
        less_refused a b r ≡ next u
        → (or_throw (big_int a) "BigInt" >>= λ x.
            or_throw (big_int b) "BigInt" >>= λ y. stop_if (ltb_ℤ x y) r)
          ≡ next u
    reads = ground (arith, ===_ne a "" na, ===_ne b "" nb)

module _ (sdk : Sdk) (request : VerifyRequest) (config : NetworkConfig) (relayer : Relayer) where
  -- The effects of the simulated payment: without a policy manifest they are the one required
  -- transfer; with one, the payment is safe under it and its delegate is not the relayer.
  abbrev pub HasEffects :
      String → ℤ → List RawEvent → Option (Manifest × Option (List (String × String))) → Type 0
  HasEffects payer required events none =
      (t : TransferEvent) × ((parse_transfer_events sdk events).transfers ≡ t ∷ [])
      × IsRequired request.requirements.asset payer request.requirements.pay_to required t
      × All (IsQuiet sdk) events
  HasEffects payer required events (some (m, hashes)) =
      (observed : List (String × String)) × (decision : PaymentValid) × IsSafePayment sdk
        (options_for request relayer m payer observed events) decision
      × AreOthers sdk (relayer.address ∷ config.fund_address ∷ []) decision.delegate

  check_effects_sound :
      (payer : String) (required : ℤ) (events : List RawEvent)
      (profile : Option (Manifest × Option (List (String × String)))) (u : Unit)
      → check_effects sdk request config relayer payer required events profile ≡ next u
      → HasEffects payer required events profile
  unfolding check_effects
  check_effects_sound payer required events none u h =
      let (ts, h1, k1) =
        >>=-eq-next
          (refuse_as (λ code. or_else code unexpected_balance_changes)
            (validate_simulation_events sdk events request.requirements.asset payer
              request.requirements.pay_to required))
          _ h in
      validate_simulation_events_sound sdk events _ payer _ required ts (refuse_as-eq _ _ h1)
  check_effects_sound payer required events (some (m, hashes)) u h =
      let (observed, h1, k1) = >>=-eq-next (hashes_or relayer m payer hashes) _ h in
      let options = options_for request relayer m payer observed events in
      let (v, h2, k2) = >>=-eq-next (refuse_as policy_refused (verify_payment sdk options)) _ k1 in
      (
        observed,
        v,
        verify_payment_sound sdk options v (refuse_as-eq _ _ h2),
        unprotected sdk (relayer.address ∷ config.fund_address ∷ []) v.delegate
            (stop_if-next _ unsafe_policy_participant k2),
      )

  pub record IsVerified (payer : String) : Type 0 where
    pub protocol : IsOnProtocol request config relayer
    pub call : Call
    pub transfer_call : IsTransferCall sdk request call
    pub required : ℤ
    pub on_terms : IsOnTerms request config relayer call required
    pub signed : IsSigned sdk request config relayer call payer
    pub profile : Option (Manifest × Option (List (String × String)))
    pub chosen : IsProfileOf relayer payer config.policy_manifests profile
    pub recipient_other :
        is_some profile ≡ true
        → AreOthers sdk (relayer.address ∷ config.fund_address ∷ []) request.requirements.pay_to
    pub simulation : Simulation
    pub simulates : relayer.simulate request.transaction ≡ answered simulation
    pub fee_covers : IsNotBelow call.transaction.fee (or_else simulation.min_resource_fee "")
    pub fee_within : IsNotBelow (or_else config.max_fee "") call.transaction.fee
    pub some_events : simulation.events ≢ []
    pub effects : HasEffects payer required simulation.events profile

  check_fee_sound :
      (fee : String) (simulation : Simulation) (u : Unit)
      → check_fee config fee simulation ≡ next u
      → IsNotBelow fee (or_else simulation.min_resource_fee "")
        × IsNotBelow (or_else config.max_fee "") fee
  unfolding check_fee
  check_fee_sound fee simulation u h =
      let (v, h1, k1) =
        >>=-eq-next (less_refused fee (or_else simulation.min_resource_fee "") fee_below_minimum) _
          h in
      (
        less_refused_sound _ _ fee_below_minimum v h1,
        less_refused_sound _ _ fee_exceeds_maximum u k1,
      )

  check_payment_sound :
      (call : Call) (payer : String)
      → IsOnProtocol request config relayer
      → IsTransferCall sdk request call
      → check_payment sdk request config relayer call ≡ next payer
      → IsVerified payer
  unfolding check_payment
  check_payment_sound call payer p0 c h =
      let (required, h1, k1) = >>=-eq-next (check_terms request config relayer call) _ h in
      let (profile, h2, k2) =
        >>=-eq-next (choose_profile relayer call.sender config.policy_manifests) _ k1 in
      let pays_relayer = includes (protected relayer config) request.requirements.pay_to in
      let (u3, h3, k3) =
        >>=-eq-next (stop_if (is_some profile && pays_relayer) unsafe_policy_participant) _ k2 in
      let (p, h4, k4) = >>=-eq-next (check_signatures sdk request config relayer call) _ k3 in
      let (s, h5, k5) = >>=-eq-next (simulated (relayer.simulate request.transaction)) _ k4 in
      let (u6, h6, k6) = >>=-eq-next (check_fee config call.transaction.fee s) _ k5 in
      let (u7, h7, k7) = >>=-eq-next (stop_if (length s.events == 0) no_transfer_events) _ k6 in
      let (u8, h8, k8) =
        >>=-eq-next (check_effects sdk request config relayer p required s.events profile) _ k7 in
      let signed = check_signatures_sound sdk request config relayer call p h4 in
      subst IsVerified (next-injective k8) (record {
        protocol = p0;
        call = call;
        transfer_call = c;
        required = required;
        on_terms = check_terms_sound request config relayer call required h1;
        signed = signed;
        profile = profile;
        chosen = choose_profile_sound relayer p config.policy_manifests profile (
            subst
              (λ (sender : Native).
                choose_profile relayer sender config.policy_manifests ≡ next profile)
              signed.by_payer h2);
        recipient_other = λ given.
            unprotected sdk (relayer.address ∷ config.fund_address ∷ []) request.requirements.pay_to
              (and-given (is_some profile) _ given
                (stop_if-next (is_some profile && pays_relayer) unsafe_policy_participant h3));
        some_events = no_events s.events (stop_if-next _ no_transfer_events h7);
        simulation = s;
        simulates = simulated-eq _ s h5;
        fee_covers = (check_fee_sound _ s u6 h6).0;
        fee_within = (check_fee_sound _ s u6 h6).1;
        effects = check_effects_sound p required s.events profile u8 h8;
      })

  pub verify_sound :
      (payer : String) → verify sdk request config relayer ≡ valid payer → IsVerified payer
  unfolding verify_flow verify
  verify_sound payer h =
      let (u1, h1, k1) =
        >>=-eq-next (refuse_as (λ r. (r, none)) (check_protocol request config relayer)) _
          (respond-eq sdk _ payer h) in
      let (call, h2, k2) = >>=-eq-next (refuse_as (λ r. (r, none)) (read_call sdk request)) _ k1 in
      check_payment_sound call payer
        (check_protocol_sound request config relayer u1 (refuse_as-eq _ _ h1))
        (read_call_sound sdk request call (refuse_as-eq _ _ h2)) (refuse_as-eq _ _ k2)
