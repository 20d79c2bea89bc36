-- ===== src/Relayer/Request/Reads.antt =====
-- The call that a request's transaction holds.
use agent_allowance.Common.{
  ◌==◌, ◌||◌, ◌⊎◌, ◌∙◌, sym, includes, or-eq-false, not-eq-false, ==_iff, String, true, not, ◌≡◌,
  some, [], ◌∷◌, ◌===◌, next, stop_if, need, need-next, >>=-eq-next, stop_if-next, arith, eq_iff,
  subst,
}
use agent_allowance.Shared.{PaymentRequirements}
use agent_allowance.Xdr.{ScVal, InvokeArgs, invoke_host_function, invoke_contract, Sdk}
use agent_allowance.Relayer.Reasons.{
  invalid_x402_version, invalid_scheme, invalid_network, unsupported_asset, verify_network_mismatch,
}
use agent_allowance.Relayer.Request.{
  NetworkConfig, Relayer, check_protocol, is_valid_network, map_network, VerifyRequest, Call,
  network_passphrase, read_call,
}

module _ (sdk : Sdk) (request : VerifyRequest) where
  -- The transaction decodes and has the one call `transfer` of the required asset, with the values of
  -- its three arguments.
  pub record IsTransferCall (call : Call) : Type 0 where
    pub function_call : InvokeArgs
    pub sender_val : ScVal
    pub recipient_val : ScVal
    pub amount_val : ScVal
    pub decodes :
        sdk.parse_transaction request.transaction (network_passphrase request.requirements.network)
        ≡ some call.transaction
    pub one_operation :
        call.transaction.operations
        ≡ invoke_host_function call.source (invoke_contract function_call) call.auth ∷ []
    pub on_asset : sdk.address_text function_call.contract_address ≡ some request.requirements.asset
    pub named_transfer : function_call.function_name ≡ "transfer"
    pub three : function_call.args ≡ sender_val ∷ recipient_val ∷ amount_val ∷ []
    pub from_sender : sdk.native sender_val ≡ some call.sender
    pub to_recipient : sdk.native recipient_val ≡ some call.recipient
    pub of_amount : sdk.native amount_val ≡ some call.amount

  pub read_call_sound : (call : Call) → read_call sdk request ≡ next call → IsTransferCall call
  unfolding read_call
  read_call_sound call h = grind (arith, eq_iff)

-- The protocol's version, scheme and network are the configured ones and the asset is supported.
pub record IsOnProtocol (request : VerifyRequest) (config : NetworkConfig) (relayer : Relayer)
    : Type 0 where
  pub version : request.x402_version ≡ 2
  pub scheme : request.requirements.scheme ≡ "exact"
  pub network : request.requirements.network ≡ config.network
  pub known_network : (config.network ≡ "stellar:pubnet") ⊎ (config.network ≡ "stellar:testnet")
  pub accepted :
      (a : PaymentRequirements) × (request.accepted ≡ some a)
      × (a.scheme ≡ "exact")
      × (a.network ≡ config.network)
  pub supported : includes config.assets request.requirements.asset ≡ true
  pub relayer_network : map_network relayer.network ≡ config.network

pub check_protocol_sound :
    (request : VerifyRequest) (config : NetworkConfig) (relayer : Relayer) (u : Unit)
    → check_protocol request config relayer ≡ next u
    → IsOnProtocol request config relayer
unfolding check_protocol
check_protocol_sound request config relayer u h =
    let assets = includes config.assets request.requirements.asset in
    let (u1, h1, k1) = >>=-eq-next (stop_if (not (request.x402_version == 2)) _) _ h in
    let (accepted, h2, k2) = >>=-eq-next (need request.accepted invalid_x402_version) _ k1 in
    let (u3, h3, k3) = >>=-eq-next (stop_if (not (accepted.scheme === "exact")) _) _ k2 in
    let (u4, h4, k4) =
      >>=-eq-next (stop_if (not (request.requirements.scheme === "exact")) _) _ k3 in
    let (u5, h5, k5) =
      >>=-eq-next (stop_if (not (is_valid_network request.requirements.network)) _) _ k4 in
    let (u6, h6, k6) =
      >>=-eq-next
        (stop_if
          (not (accepted.network === request.requirements.network)
            || not (accepted.network === config.network))
          _)
        _ k5 in
    let (u7, h7, k7) = >>=-eq-next (stop_if (not assets) unsupported_asset) _ k6 in
    let (e1, e2) =
      or-eq-false _ (not (accepted.network === config.network))
        (stop_if-next _ invalid_network h6) in
    let same =
      sym ((eq_iff accepted.network request.requirements.network).0 (not-eq-false _ e1))
      ∙ (eq_iff accepted.network config.network).0 (not-eq-false _ e2) in
    record {
      version =
          (==_iff request.x402_version 2).0
            (not-eq-false _ (stop_if-next _ invalid_x402_version h1));
      scheme =
          (eq_iff request.requirements.scheme "exact").0
            (not-eq-false _ (stop_if-next _ invalid_scheme h4));
      network = same;
      known_network = known config.network (
          subst (λ n. is_valid_network n ≡ true) same
            (not-eq-false _ (stop_if-next _ invalid_network h5)));
      accepted = (
        accepted,
        need-next request.accepted invalid_x402_version h2,
        (eq_iff accepted.scheme "exact").0 (not-eq-false _ (stop_if-next _ invalid_scheme h3)),
        (eq_iff accepted.network config.network).0 (not-eq-false _ e2),
      );
      supported = not-eq-false assets (stop_if-next _ unsupported_asset h7);
      relayer_network =
          (eq_iff (map_network relayer.network) config.network).0
            (not-eq-false _ (stop_if-next _ verify_network_mismatch k7));
    }
  where
    known :
        (n : String) → is_valid_network n ≡ true → (n ≡ "stellar:pubnet") ⊎ (n ≡ "stellar:testnet")
    known n e = grind (arith, eq_iff)
