-- ===== src/Relayer/Handler.antt =====
-- packages/relayer-plugin-x402-facilitator/src/handler.ts and src/utils.ts: the plugin's routes.
pub mod Trusted
pub mod Routes
pub mod Supported
use Prim.Native.String.{◌++◌ as joined}
use agent_allowance.Common.{
  ℕ, String, Bool, true, false, not, ◌||◌, ◌&&◌, Option, none, some, List, [], ◌∷◌, ◌++◌, ◌===◌,
  map, find, includes, truthy, or_else, if◌then◌else◌, Flow, next, stop, thrown, throw_if, ◌>>=◌,
  ◌>>◌,
}
use agent_allowance.Xdr.{Sdk}
use agent_allowance.Policy.Manifest.{Manifest, assert_production_manifest}
use agent_allowance.Relayer.Request.{VerifyRequest, NetworkConfig, Relayer, VerifyResponse}
use agent_allowance.Relayer.Verify.{verify}
use agent_allowance.Relayer.Channel.{SettleResponse}
use agent_allowance.Relayer.Settle.{Surroundings, settle}
use agent_allowance.Relayer.Guards.{Json, validate_base_request_params, read_request}

-- `networks` is `none` where it is no array.
pub record PluginConfig : Type 0 where
  pub networks : Option (List NetworkConfig)

abbrev pub profile_of : Manifest → String
profile_of m = joined m.network (
    joined ":"
      (or_else m.smart_account (joined "wasm:" (or_else m.smart_account_wasm_hash "undefined"))))

-- The body of the inner loop of `assertTrustedPolicyConfiguration`, with the profiles seen so far.
unfoldable pub check_manifest :
    {R : Type 0} → String → List String → Manifest → Flow R (List String)
check_manifest network profiles m = do
  assert_production_manifest m
  throw_if (not (m.network === network)) "Policy manifest network does not match its network config"
  throw_if (includes profiles (profile_of m)) "Duplicate policy manifest profile"
  next (profile_of m ∷ profiles)

abbrev pub check_manifests :
    {R : Type 0} → String → List String → List Manifest → Flow R (List String)
check_manifests network profiles [] = next profiles
check_manifests network profiles (m ∷ ms) = do
  seen ← check_manifest network profiles m
  check_manifests network seen ms

abbrev pub check_networks : {R : Type 0} → List String → List NetworkConfig → Flow R (List String)
check_networks profiles [] = next profiles
check_networks profiles (config ∷ configs) = do
  seen ← check_manifests config.network profiles config.policy_manifests
  check_networks seen configs

-- `assertTrustedPolicyConfiguration`, with the networks that it has checked.
unfoldable pub assert_trusted_policy_configuration :
    {R : Type 0} → PluginConfig → Flow R (List NetworkConfig)
assert_trusted_policy_configuration config = elim config.networks [
  | none ↦ thrown "X402 plugin config networks must be an array"
  | some networks ↦ do profiles ← check_networks [] networks; next networks
]

-- `getNetworkConfigByNetwork`
abbrev pub get_network_config_by_network : List NetworkConfig → String → Option NetworkConfig
get_network_config_by_network networks network =
    find (λ (config : NetworkConfig). config.network === network) networks

-- The plugin's API, by the network whose relayer is used: the relayer at a verification, what surrounds
-- a settlement, and the address that `getRelayer` gives, `none` where it rejects.
pub record PluginApi : Type 0 where
  pub relayer : NetworkConfig → Relayer
  pub around : NetworkConfig → Surroundings
  pub address : NetworkConfig → Option (Option String)

-- A response of the facilitator, or one that the route gives without it.
pub data Routed (A : Type 0) : Type 0 where
  malformed_request unsupported_network : Routed A
  handled : A → Routed A

abbrev pub on_config : {A : Type 0} → (NetworkConfig → A) → Option NetworkConfig → Routed A
on_config handle none = unsupported_network
on_config handle (some config) =
    if config.type_name === "stellar" then handled (handle config) else unsupported_network

-- What `handleVerify` and `handleSettle` do with a request that has the shape of one.
abbrev pub routed :
    {A : Type 0} → Json → List NetworkConfig → (VerifyRequest → NetworkConfig → A) → Routed A
routed params networks handle =
    let request = read_request params in
    let response =
      on_config (handle request)
        (get_network_config_by_network networks request.requirements.network) in
    if validate_base_request_params params then response else malformed_request

unfoldable pub handle_verify : Sdk → PluginApi → List NetworkConfig → Json → Routed VerifyResponse
handle_verify sdk api networks params =
    routed params networks (λ request config. verify sdk request config (api.relayer config))

-- `settle`'s promise: it may reject, or poll for longer than the fuel.
unfoldable pub handle_settle :
    Sdk → PluginApi → ℕ → List NetworkConfig → Json → Routed (Flow (Unit {0}) SettleResponse)
handle_settle sdk api fuel networks params =
    routed params networks (λ request config. settle sdk request config (api.around config) fuel)

-- A kind of payment: version 2, scheme exact, fees sponsored, on this network.
pub record SupportedPaymentKind : Type 0 where
  pub network : String

pub record SupportedPaymentKinds : Type 0 where
  pub kinds : List SupportedPaymentKind
  pub signers : Option (List (String × List String))

abbrev pub relayer_address : PluginApi → NetworkConfig → Option String
relayer_address api config =
    if truthy config.fund_address then config.fund_address else or_else (api.address config) none

-- `signers[network]` with the address, once.
abbrev pub add_signer : String → String → List (String × List String) → List (String × List String)
add_signer network address [] = (network, address ∷ []) ∷ []
add_signer network address ((name, addresses) ∷ signers) =
    let rest = add_signer network address signers in
    if name === network
    then (name, (if includes addresses address then addresses else addresses ++ (address ∷ [])))
      ∷ signers
    else (name, addresses) ∷ rest

abbrev pub signers_from :
    PluginApi → List NetworkConfig → List (String × List String) → List (String × List String)
signers_from api [] signers = signers
signers_from api (config ∷ configs) signers =
    let address = relayer_address api config in
    let added = add_signer config.network (or_else address "") signers in
    let rest = signers_from api configs in if truthy address then rest added else rest signers

abbrev pub some_signers : List (String × List String) → Option (List (String × List String))
some_signers [] = none
some_signers (entry ∷ entries) = some (entry ∷ entries)

unfoldable pub handle_supported : PluginApi → List NetworkConfig → SupportedPaymentKinds
handle_supported api networks = record {
  kinds = map (λ (config : NetworkConfig). record { network = config.network }) networks;
  signers = some_signers (signers_from api networks []);
}

pub data PluginReply : Type 0 where
  endpoints : PluginReply
  verify_reply : Routed VerifyResponse → PluginReply
  settle_reply : Routed (Flow (Unit {0}) SettleResponse) → PluginReply
  supported_reply : SupportedPaymentKinds → PluginReply

-- The error for a route that is unknown.
pub record PluginError : Type 0 where
  pub route : String
  pub status : ℕ
  pub code : String

abbrev pub dispatch :
    Sdk → PluginApi → ℕ → List NetworkConfig → String → Json → Flow PluginError PluginReply
dispatch sdk api fuel networks route params =
    if route === "" || route === "/"
    then next endpoints
    else if route === "/verify"
    then next (verify_reply (handle_verify sdk api networks params))
    else if route === "/settle"
    then next (settle_reply (handle_settle sdk api fuel networks params))
    else if route === "/supported"
    then next (supported_reply (handle_supported api networks))
    else stop (record { route = route; status = 404; code = "NOT_FOUND" })

-- `handler`, on a context without a configuration where that is `none`.
unfoldable pub handler :
    Sdk → PluginApi → ℕ → Option PluginConfig → String → Json → Flow PluginError PluginReply
handler sdk api fuel none route params = thrown "X402 plugin config not found"
handler sdk api fuel (some config) route params = do
  networks ← assert_trusted_policy_configuration config
  dispatch sdk api fuel networks route params
