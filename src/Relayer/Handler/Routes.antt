-- ===== src/Relayer/Handler/Routes.antt =====
-- What the plugin answers under `/verify` and `/settle`, from the configuration to the facilitator.
use agent_allowance.Common.{
  refl, ℕ, ◌⊎◌, ◌||◌, String, true, ◌≡◌, Option, none, some, List, [], ◌∷◌, ◌===◌, All,
  Option-cases, Flow, next, >>=-eq-next, arith, eq_iff, Bool-cases, inl, inr, subst,
}
use agent_allowance.Xdr.{Sdk}
use agent_allowance.Relayer.Request.{VerifyRequest, NetworkConfig, VerifyResponse, valid}
use agent_allowance.Relayer.Verify.{verify}
use agent_allowance.Relayer.Verify.Accepted.{IsVerified, verify_sound}
use agent_allowance.Relayer.Channel.{SettleResponse}
use agent_allowance.Relayer.Settle.{settle}
use agent_allowance.Relayer.Settle.Sound.{IsSettled, settle_sound}
use agent_allowance.Relayer.Guards.{Json, validate_base_request_params, read_request}
use agent_allowance.Relayer.Handler.{
  PluginConfig, PluginApi, PluginError, PluginReply, verify_reply, settle_reply, endpoints,
  supported_reply, Routed, handled, routed, get_network_config_by_network,
  assert_trusted_policy_configuration, handle_verify, handle_settle, handle_supported, dispatch,
  handler,
}
use agent_allowance.Relayer.Handler.Trusted.{
  AreTrusted, IsTrusted, assert_trusted_policy_configuration_sound,
}

handled-injective : {A : Type 0} {a b : A} → ◌≡◌ {A = Routed A} (handled a) (handled b) → a ≡ b
handled-injective h = cc

-- The configuration that answers a request: one of the trusted networks, on the Stellar network that
-- the requirements name.
pub record IsChosen (networks : List NetworkConfig) (network : String) (config : NetworkConfig)
    : Type 0 where
  pub found : get_network_config_by_network networks network ≡ some config
  pub named : config.network ≡ network
  pub stellar : config.type_name ≡ "stellar"
  pub trusted : All (IsTrusted config.network) config.policy_manifests

find-IsTrusted :
    (networks : List NetworkConfig) (network : String) (config : NetworkConfig)
    → AreTrusted networks
    → get_network_config_by_network networks network ≡ some config
    → (config.network ≡ network) × All (IsTrusted config.network) config.policy_manifests
find-IsTrusted [] network config t h = cc
find-IsTrusted (c ∷ cs) network config (t, ts) h = elim (Bool-cases (c.network === network)) [
  | inl own ↦
      let same : c ≡ config = grind arith in
      subst
        (λ (x : NetworkConfig).
          (x.network ≡ network) × All (IsTrusted x.network) x.policy_manifests)
        same ((eq_iff c.network network).0 own, t)
  | inr other ↦ find-IsTrusted cs network config ts (grind arith)
]

routed-IsChosen :
    {A : Type 0} (params : Json) (networks : List NetworkConfig)
    (handle : VerifyRequest → NetworkConfig → A) (a : A)
    → AreTrusted networks
    → routed params networks handle ≡ handled a
    → (validate_base_request_params params ≡ true)
      × ((config : NetworkConfig) × IsChosen networks
            (read_request params).requirements.network
            config
          × (handle (read_request params) config ≡ a))
routed-IsChosen params networks handle a t h =
    elim (Bool-cases (validate_base_request_params params)) [
      | inr bad ↦ absurd (grind arith)
      | inl good ↦
          elim (Option-cases
            (get_network_config_by_network networks (read_request params).requirements.network)) [
              | inl missing ↦ absurd (grind arith)
              | inr (config, e) ↦ elim (Bool-cases (config.type_name === "stellar")) [
                | inr other ↦ absurd (grind arith)
                | inl stellar ↦
                    let (named, trusted) = find-IsTrusted networks _ config t e in
                    (
                      good,
                      (
                        config,
                        record {
                          found = e;
                          named = named;
                          stellar = (eq_iff config.type_name "stellar").0 stellar;
                          trusted = trusted;
                        },
                        handled-injective (grind arith),
                      ),
                    )
              ]
            ]
    ]

-- The networks are those of the plugin's configuration.
abbrev pub AreConfigured : Option PluginConfig → List NetworkConfig → Type 0
AreConfigured o networks =
    (plugin : PluginConfig) × (o ≡ some plugin) × (plugin.networks ≡ some networks)

module _ (sdk : Sdk) (api : PluginApi) (fuel : ℕ) (config : Option PluginConfig) (route : String)
    (params : Json) where
  -- The networks that the handler checked.
  checked :
      (reply : PluginReply)
      → handler sdk api fuel config route params ≡ next reply
      → (networks : List NetworkConfig) × AreConfigured config networks
        × AreTrusted networks
        × (dispatch sdk api fuel networks route params ≡ next reply)
  unfolding handler
  checked reply h = configured config h
    where
      configured :
          (o : Option PluginConfig)
          → handler sdk api fuel o route params ≡ next reply
          → (networks : List NetworkConfig) × AreConfigured o networks
            × AreTrusted networks
            × (dispatch sdk api fuel networks route params ≡ next reply)
      configured none k = cc
      configured (some c) k =
          let (networks, h1, k1) =
            >>=-eq-next {R = PluginError} (assert_trusted_policy_configuration c) _ k in
          let (listed, trusted, new) = assert_trusted_policy_configuration_sound c networks h1 in
          (networks, (c, refl, listed), trusted, k1)

  -- A reply to a verification or to a settlement is that of its route.
  replied :
      (networks : List NetworkConfig) (reply : PluginReply)
      → dispatch sdk api fuel networks route params ≡ next reply
      → (reply ≡ endpoints)
        ⊎ ((reply ≡ verify_reply (handle_verify sdk api networks params))
            ⊎ ((reply ≡ settle_reply (handle_settle sdk api fuel networks params))
                ⊎ (reply ≡ supported_reply (handle_supported api networks))))
  replied networks reply h = elim (Bool-cases (route === "" || route === "/")) [
    | inl default ↦ inl (grind arith)
    | inr r1 ↦ elim (Bool-cases (route === "/verify")) [
      | inl v ↦ inr (inl (grind arith))
      | inr r2 ↦ elim (Bool-cases (route === "/settle")) [
        | inl t ↦ inr (inr (inl (grind arith)))
        | inr r3 ↦ elim (Bool-cases (route === "/supported")) [
          | inl s ↦ inr (inr (inr (grind arith)))
          | inr r4 ↦ absurd (grind arith)
        ]
      ]
    ]
  ]

  verify_replied :
      (networks : List NetworkConfig) (r : Routed VerifyResponse)
      → dispatch sdk api fuel networks route params ≡ next (verify_reply r)
      → handle_verify sdk api networks params ≡ r
  verify_replied networks r h = elim (replied networks (verify_reply r) h) [
    | inl e ↦ cc
    | inr (inl e) ↦ cc
    | inr (inr (inl e)) ↦ cc
    | inr (inr (inr e)) ↦ cc
  ]

  settle_replied :
      (networks : List NetworkConfig) (r : Routed (Flow (Unit {0}) SettleResponse))
      → dispatch sdk api fuel networks route params ≡ next (settle_reply r)
      → handle_settle sdk api fuel networks params ≡ r
  settle_replied networks r h = elim (replied networks (settle_reply r) h) [
    | inl e ↦ cc
    | inr (inl e) ↦ cc
    | inr (inr (inl e)) ↦ cc
    | inr (inr (inr e)) ↦ cc
  ]

  -- A payment that the plugin reports as valid: its parameters have the shape of a request, and it was
  -- verified under the plugin's
  -- trusted configuration of its network.
  pub handler-IsVerified :
      (payer : String)
      → handler sdk api fuel config route params ≡ next (verify_reply (handled (valid payer)))
      → (validate_base_request_params params ≡ true)
        × ((networks : List NetworkConfig) × AreConfigured config networks
            × ((chosen : NetworkConfig) × IsChosen networks
                  (read_request params).requirements.network
                  chosen
                × IsVerified sdk (read_request params) chosen (api.relayer chosen) payer))
  unfolding handle_verify
  handler-IsVerified payer h =
      let (networks, own, trusted, d) = checked (verify_reply (handled (valid payer))) h in
      let (shaped, (chosen, c, v)) =
        routed-IsChosen params networks
          (λ request config'. verify sdk request config' (api.relayer config')) (valid payer)
          trusted (verify_replied networks (handled (valid payer)) d) in
      (
        shaped,
        (
          networks,
          own,
          (chosen, c, verify_sound sdk (read_request params) chosen (api.relayer chosen) payer v),
        ),
      )

  -- A settlement that the plugin reports as a success: its parameters have the shape of a request, and
  -- it was verified, submitted and confirmed under the plugin's
  -- trusted configuration of its network.
  pub handler-IsSettled :
      (r : SettleResponse)
      → handler sdk api fuel config route params ≡ next (settle_reply (handled (next r)))
      → r.success ≡ true
      → (validate_base_request_params params ≡ true)
        × ((networks : List NetworkConfig) × AreConfigured config networks
            × ((chosen : NetworkConfig) × IsChosen networks
                  (read_request params).requirements.network
                  chosen
                × IsSettled sdk (read_request params) chosen (api.around chosen) fuel r))
  unfolding handle_settle
  handler-IsSettled r h won =
      let (networks, own, trusted, d) = checked (settle_reply (handled (next r))) h in
      let (shaped, (chosen, c, v)) =
        routed-IsChosen params networks
          (λ request config'. settle sdk request config' (api.around config') fuel) (next r) trusted
          (settle_replied networks (handled (next r)) d) in
      (
        shaped,
        (
          networks,
          own,
          (
            chosen,
            c,
            settle_sound sdk (read_request params) chosen (api.around chosen) fuel r v won,
          ),
        ),
      )
