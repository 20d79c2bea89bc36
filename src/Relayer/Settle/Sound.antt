-- ===== src/Relayer/Settle/Sound.antt =====
-- What a settlement that reports success has verified and sent.
use agent_allowance.Common.{
  ℕ, ◌≤◌, ◌≡◌, ◌⊎◌, inl, inr, refl, String, true, not, ◌||◌, ◌&&◌, Option, none, some, List, [],
  ◌∷◌, truthy, Flow, next, stop, thrown, arith, eq_iff, Bool-cases, ap, ◌∙◌,
}
use agent_allowance.Shared.{PaymentRequirements}
use agent_allowance.Xdr.{
  Native, text, InvokeArgs, AuthEntry, invoke_contract, other_function, Operation,
  invoke_host_function, other_operation, Transaction, Sdk,
}
use agent_allowance.Relayer.Request.{
  VerifyRequest, NetworkConfig, VerifyResponse, valid, invalid, networks_match, map_network,
  network_passphrase,
}
use agent_allowance.Relayer.Verify.Accepted.{IsVerified, verify_sound}
use agent_allowance.Relayer.Channel.{SettleResponse, given, settle_via_channel_service}
use agent_allowance.Relayer.Channel.Confirmed.{IsConfirmed, settle_via_channel_service_sound}
use agent_allowance.Relayer.Channel.Addressed.{settle_via_channel_service-IsFor}
use agent_allowance.Relayer.Settle.{
  Surroundings, settle_via_relayer, deadline, caught, submit_operation, submit_operations,
  submit_transaction, on_verified, on_relayer, settle_accepted, settle,
}
use agent_allowance.Relayer.Settle.Steps.{
  verify_for_settlement-IsVerdict, IsSent, settle_via_relayer-IsSent,
}

module _ (sdk : Sdk) (request : VerifyRequest) (config : NetworkConfig) (around : Surroundings)
    (fuel : ℕ) where
  -- A call that was submitted, by the channel service or by the relayer, and confirmed.
  pub record IsSubmitted (network : String) (payer : Option Native) (r : SettleResponse)
      : Type 0 where
    pub transaction : Transaction
    pub parsed :
        sdk.parse_transaction request.transaction (network_passphrase request.requirements.network)
        ≡ some transaction
    pub source : Option String
    pub call : InvokeArgs
    pub auth : List AuthEntry
    pub rest : List Operation
    pub first :
        transaction.operations ≡ invoke_host_function source (invoke_contract call) auth ∷ rest
    pub confirmed :
        ((hash : String) × (r.transaction ≡ some hash)
          × IsConfirmed around.channel
              (invoke_contract call)
              auth
              (given config.fund_relayer_id)
              hash)
        ⊎ IsSent sdk around call auth network r.transaction
    pub on_network : r.network ≡ network
    pub for_payer : r.payer ≡ payer

  submit_operation-IsSubmitted :
      (network : String) (payer : Option Native) (transaction : Transaction) (operation : Operation)
      (rest : List Operation) (r : SettleResponse)
      → sdk.parse_transaction request.transaction (network_passphrase request.requirements.network)
        ≡ some transaction
      → transaction.operations ≡ operation ∷ rest
      → submit_operation sdk request config around fuel network payer operation ≡ next r
      → r.success ≡ true
      → IsSubmitted network payer r
  submit_operation-IsSubmitted network payer transaction (other_operation source type) rest r p o h
        won =
      absurd (grind arith)
  submit_operation-IsSubmitted network payer transaction
        (invoke_host_function source (other_function type) auth) rest r p o h won =
      absurd (grind arith)
  submit_operation-IsSubmitted network payer transaction
        (invoke_host_function source (invoke_contract call) auth) rest r p o h won =
      elim (Bool-cases (truthy config.api_url && truthy config.api_key)) [
        | inl service ↦ by_service (grind arith)
        | inr own ↦ by_relayer (grind arith)
      ]
    where
      over : ℕ
      over = deadline sdk request config around fuel network

      by_service :
          settle_via_channel_service around.channel
              (invoke_contract call)
              auth
              config
              network
              over
              payer
              fuel
            ≡ next r
          → IsSubmitted network payer r
      by_service k =
          let (same_network, same_payer) =
            settle_via_channel_service-IsFor around.channel (invoke_contract call) auth config
              network over payer fuel r k in
          record {
            transaction = transaction;
            parsed = p;
            source = source;
            call = call;
            auth = auth;
            rest = rest;
            first = o;
            confirmed = inl (
                settle_via_channel_service_sound around.channel (invoke_contract call) auth config
                  network over payer fuel r k won);
            on_network = same_network;
            for_payer = same_payer;
          }

      by_relayer :
          settle_via_relayer sdk around call auth network over payer ≡ next r
          → IsSubmitted network payer r
      by_relayer k =
          let (sent, same) =
            settle_via_relayer-IsSent sdk around call auth network over payer r k won in
          record {
            transaction = transaction;
            parsed = p;
            source = source;
            call = call;
            auth = auth;
            rest = rest;
            first = o;
            confirmed = inr sent;
            on_network = ap (λ (x : SettleResponse). x.network) same;
            for_payer = ap (λ (x : SettleResponse). x.payer) same;
          }

  submit_transaction-IsSubmitted :
      (network : String) (payer : Option Native) (r : SettleResponse) (o : Option Transaction)
      → sdk.parse_transaction request.transaction (network_passphrase request.requirements.network)
        ≡ o
      → submit_transaction sdk request config around fuel network payer o ≡ next r
      → r.success ≡ true
      → IsSubmitted network payer r
  submit_transaction-IsSubmitted network payer r none p h won = cc
  submit_transaction-IsSubmitted network payer r (some t) p h won = listed t.operations refl h
    where
      listed :
          (operations : List Operation)
          → t.operations ≡ operations
          → submit_operations sdk request config around fuel network payer operations ≡ next r
          → IsSubmitted network payer r
      listed [] o k = cc
      listed (operation ∷ rest) o k =
          submit_operation-IsSubmitted network payer t operation rest r p o k won

  -- A settlement that reports success: its networks, a verification that accepted the payment, and what
  -- was submitted for the payer of that verification.
  pub record IsSettled (r : SettleResponse) : Type 0 where
    pub accepted : PaymentRequirements
    pub accepts : request.accepted ≡ some accepted
    pub for_requirements : accepted.network ≡ request.requirements.network
    pub for_config : accepted.network ≡ config.network
    pub relayer_network : String
    pub of_relayer : around.relayer_network ≡ some relayer_network
    pub on_relayer_network : map_network relayer_network ≡ config.network
    pub round : ℕ
    pub early : round ≤ 2
    pub payer : String
    pub verified : IsVerified sdk request config (around.relayers round) payer
    pub submitted : IsSubmitted accepted.network (some (text payer)) r

  caught-next :
      (network : String) (payer : Option Native) (o : Flow (Unit {0}) SettleResponse)
      (r : SettleResponse)
      → caught network payer o ≡ next r
      → r.success ≡ true
      → o ≡ next r
  caught-next network payer (next x) r h won = h
  caught-next network payer (stop u) r h won = cc
  caught-next network payer (thrown m) r h won = absurd (grind arith)

  on_verified-IsSubmitted :
      (network : String) (v : VerifyResponse) (r : SettleResponse)
      → on_verified sdk request config around fuel network v ≡ next r
      → r.success ≡ true
      → (payer : String) × (v ≡ valid payer) × IsSubmitted network (some (text payer)) r
  on_verified-IsSubmitted network (invalid reason payer) r h won = absurd (grind arith)
  on_verified-IsSubmitted network (valid payer) r h won = (
    payer,
    refl,
    submit_transaction-IsSubmitted network (some (text payer)) r
        (sdk.parse_transaction request.transaction
          (network_passphrase request.requirements.network))
        refl (caught-next network (some (text payer)) _ r h won) won,
  )

  on_relayer-IsSettled :
      (accepted : PaymentRequirements) (o : Option String) (r : SettleResponse)
      → request.accepted ≡ some accepted
      → accepted.network ≡ request.requirements.network
      → accepted.network ≡ config.network
      → around.relayer_network ≡ o
      → on_relayer sdk request config around fuel accepted.network o ≡ next r
      → r.success ≡ true
      → IsSettled r
  on_relayer-IsSettled accepted none r a e f o h won = cc
  on_relayer-IsSettled accepted (some name) r a e f o h won =
      elim (Bool-cases (networks_match (map_network name) config.network)) [
        | inr other ↦ absurd (grind arith)
        | inl same ↦
            let over = deadline sdk request config around fuel accepted.network in
            let (j, from, to, was, before) =
              verify_for_settlement-IsVerdict sdk request config around.relayers around.verified_at
                over in
            let (payer, v, s) = on_verified-IsSubmitted accepted.network _ r (grind arith) won in
            record {
              accepted = accepted;
              accepts = a;
              for_requirements = e;
              for_config = f;
              relayer_network = name;
              of_relayer = o;
              on_relayer_network = (eq_iff (map_network name) config.network).0 same;
              round = j;
              early = to;
              payer = payer;
              verified = verify_sound sdk request config (around.relayers j) payer (was ∙ v);
              submitted = s;
            }
      ]

  settle_accepted-IsSettled :
      (o : Option PaymentRequirements) (r : SettleResponse)
      → request.accepted ≡ o
      → settle_accepted sdk request config around fuel o ≡ next r
      → r.success ≡ true
      → IsSettled r
  settle_accepted-IsSettled none r a h won = absurd (grind arith)
  settle_accepted-IsSettled (some accepted) r a h won =
      let right = networks_match accepted.network request.requirements.network in
      let mine = networks_match accepted.network config.network in
      elim (Bool-cases (not right || not mine)) [
        | inl other ↦ absurd (grind arith)
        | inr same ↦
            on_relayer-IsSettled accepted around.relayer_network r a
              ((eq_iff accepted.network request.requirements.network).0 (ground arith))
              ((eq_iff accepted.network config.network).0 (ground arith)) refl (grind arith) won
      ]

  -- A settlement that reports success accepted the payment in one of at most three verifications, on the
  -- one network of the request, the requirements, the configuration and the relayer; it submitted the call
  -- of the payment's transaction with its authorizations, by the channel service or by the relayer, which
  -- confirmed the transaction under the hash that is reported, for the payer that was verified.
  pub settle_sound :
      (r : SettleResponse)
      → settle sdk request config around fuel ≡ next r
      → r.success ≡ true
      → IsSettled r
  unfolding settle
  settle_sound r h won = settle_accepted-IsSettled request.accepted r refl h won
