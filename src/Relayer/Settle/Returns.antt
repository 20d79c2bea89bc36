-- ===== src/Relayer/Settle/Returns.antt =====
-- A settlement always returns.
use agent_allowance.Common.{
  ℕ, ◌+◌, ◌-◌, ◌*◌, ◌≤◌, ◌≡◌, ◌≢◌, refl, String, not, ◌||◌, ◌&&◌, Option, none, some, List, [], ◌∷◌,
  truthy, Flow, next, stop, thrown, or_throw, ◌>>=◌, arith, Bool-cases, inl, inr,
}
use agent_allowance.Shared.{PaymentRequirements}
use agent_allowance.Xdr.{
  Native, text, ScVal, ScVals, ScEntries, InvokeArgs, AuthEntry, invoke_contract, other_function,
  Operation, invoke_host_function, other_operation, Transaction, Sdk,
}
use agent_allowance.Relayer.Request.{
  VerifyRequest, NetworkConfig, VerifyResponse, valid, invalid, networks_match, map_network,
}
use agent_allowance.Relayer.Channel.{
  SettleResponse, error_response, network_mismatch, get_transaction, given,
}
use agent_allowance.Relayer.Channel.Polling.{IsClock, settle_via_channel_service_terminates}
use agent_allowance.Relayer.Arguments.{sc_val_to_json_arg, json_vals, json_members, json_args}
use agent_allowance.Relayer.Settle.{
  Surroundings, settle_via_relayer, deadline_ms, deadline, caught, submit_operation,
  submit_operations, submit_transaction, on_verified, on_relayer, verify_for_settlement,
  settle_accepted, settle,
}

-- The code returns or throws, and does not go on forever.
abbrev pub Ends : {A : Type 0} → Flow (Unit {0}) A → Type 0
Ends m = m ≢ stop tt

>>=-Ends :
    {A B : Type 0} (m : Flow (Unit {0}) A) (f : A → Flow (Unit {0}) B)
    → Ends m
    → ((a : A) → Ends (f a))
    → Ends (m >>= f)
>>=-Ends (next a) f h k = k a
>>=-Ends (stop u) f h k = absurd (h refl)
>>=-Ends (thrown m) f h k = λ e. cc

or_throw-Ends : {A : Type 0} (o : Option A) (m : String) → Ends (or_throw o m)
or_throw-Ends none m = λ e. cc
or_throw-Ends (some a) m = λ e. cc

or_bind-Ends :
    {A B : Type 0} (o : Option A) (m : String) (f : A → Flow (Unit {0}) B)
    → ((a : A) → Ends (f a))
    → Ends (or_throw o m >>= f)
or_bind-Ends o m f k = >>=-Ends (or_throw o m) f (or_throw-Ends o m) k

next-Ends : {A : Type 0} (a : A) → Ends (next a)
next-Ends a = λ e. cc

module _ (sdk : Sdk) where
  mutual
    unfolding sc_val_to_json_arg json_vals json_members

    json_arg-Ends : (v : ScVal) → Ends (sc_val_to_json_arg sdk v)
    json_arg-Ends (ScVal.address a) = >>=-Ends _ _ (or_throw-Ends _ _) (λ x. next-Ends _)
    json_arg-Ends (ScVal.i128 hi lo) = next-Ends _
    json_arg-Ends (ScVal.u128 hi lo) = next-Ends _
    json_arg-Ends (ScVal.i64 z) = next-Ends _
    json_arg-Ends (ScVal.u64 n) = next-Ends _
    json_arg-Ends (ScVal.i32 z) = next-Ends _
    json_arg-Ends (ScVal.u32 n) = next-Ends _
    json_arg-Ends (ScVal.bool b) = next-Ends _
    json_arg-Ends (ScVal.string s) = next-Ends _
    json_arg-Ends (ScVal.symbol s) = next-Ends _
    json_arg-Ends (ScVal.bytes bs) = next-Ends _
    json_arg-Ends (ScVal.vec vs) = >>=-Ends _ _ (json_vals-Ends vs) (λ x. next-Ends _)
    json_arg-Ends (ScVal.map es) = >>=-Ends _ _ (json_members-Ends es) (λ x. next-Ends _)
    json_arg-Ends ScVal.void = >>=-Ends _ _ (or_throw-Ends _ _) (λ x. next-Ends _)
    json_arg-Ends (ScVal.other_value type) = >>=-Ends _ _ (or_throw-Ends _ _) (λ x. next-Ends _)

    json_vals-Ends : (vs : ScVals) → Ends (json_vals sdk vs)
    json_vals-Ends ScVals.nil = next-Ends _
    json_vals-Ends (ScVals.cons v vs) =
        >>=-Ends _ _ (json_arg-Ends v) (λ x. >>=-Ends _ _ (json_vals-Ends vs) (λ y. next-Ends _))

    json_members-Ends : (es : ScEntries) → Ends (json_members sdk es)
    json_members-Ends ScEntries.end = next-Ends _
    json_members-Ends (ScEntries.entry k v es) = >>=-Ends _ _ (json_arg-Ends k) (λ x.
        >>=-Ends _ _ (json_arg-Ends v)
          (λ y. >>=-Ends _ _ (json_members-Ends es) (λ z. next-Ends _)))

  json_args-Ends : (vs : List ScVal) → Ends (json_args sdk vs)
  json_args-Ends [] = next-Ends _
  json_args-Ends (v ∷ vs) =
      >>=-Ends _ _ (json_arg-Ends v) (λ x. >>=-Ends _ _ (json_args-Ends vs) (λ y. next-Ends _))

  settle_via_relayer-Ends :
      (around : Surroundings) (call : InvokeArgs) (auth : List AuthEntry) (network : String)
      (over : ℕ) (payer : Option Native)
      → Ends (settle_via_relayer sdk around call auth network over payer)
  unfolding settle_via_relayer
  settle_via_relayer-Ends around call auth network over payer =
      or_bind-Ends (sdk.address_text call.contract_address) _ _ (λ contract.
        >>=-Ends _ _ (json_args-Ends call.args) (λ args.
          or_bind-Ends
            (around.send (record {
              network = network;
              contract_address = contract;
              function_name = call.function_name;
              args = args;
              auth = auth;
            }))
            "sendTransaction" _
            (λ wait.
              or_bind-Ends (wait (over - around.sent_at)) "wait" _ (λ confirmed. next-Ends _))))

-- The polling of any transaction has a clock, and the fuel is more than the time that is left, in
-- thousandths.
abbrev pub HasFuel : Surroundings → NetworkConfig → ℕ → ℕ → Type 0
HasFuel around config over turns =
    let fund = given config.fund_relayer_id in
    let end = around.channel.poll_started_at + (over - around.channel.submitted_at) in
    (id : String)
    → IsClock (around.channel.visits (get_transaction id fund)) end
      × (end ≤ (around.channel.visits (get_transaction id fund) 0).before + 1000 * turns)

module _ (sdk : Sdk) (request : VerifyRequest) (config : NetworkConfig) (around : Surroundings)
    (turns : ℕ) (network : String)
    (enough : HasFuel around config
      (deadline sdk request config around (turns + 1) network)
      turns) where
  submit_operation-Ends :
      (payer : Option Native) (operation : Operation)
      → Ends (submit_operation sdk request config around (turns + 1) network payer operation)
  submit_operation-Ends payer (other_operation source type) = λ e. cc
  submit_operation-Ends payer (invoke_host_function source (other_function type) auth) = λ e. cc
  submit_operation-Ends payer (invoke_host_function source (invoke_contract call) auth) = λ e.
      elim (Bool-cases (truthy config.api_url && truthy config.api_key)) [
        | inl service ↦
            settle_via_channel_service_terminates around.channel (invoke_contract call) auth config
              network (deadline sdk request config around (turns + 1) network) payer turns
              (λ id. (enough id).0) (λ id. (enough id).1) (grind arith)
        | inr own ↦
            settle_via_relayer-Ends sdk around call auth network
              (deadline sdk request config around (turns + 1) network) payer (grind arith)
      ]

  submit_operations-Ends :
      (payer : Option Native) (operations : List Operation)
      → Ends (submit_operations sdk request config around (turns + 1) network payer operations)
  submit_operations-Ends payer [] = λ e. cc
  submit_operations-Ends payer (operation ∷ operations) = submit_operation-Ends payer operation

  submit_transaction-Ends :
      (payer : Option Native) (o : Option Transaction)
      → Ends (submit_transaction sdk request config around (turns + 1) network payer o)
  submit_transaction-Ends payer none = λ e. cc
  submit_transaction-Ends payer (some t) = submit_operations-Ends payer t.operations

  abbrev Returns : Flow (Unit {0}) SettleResponse → Type 0
  Returns m = (r : SettleResponse) × (m ≡ next r)

  caught-Returns :
      (payer : Option Native) (m : Flow (Unit {0}) SettleResponse)
      → Ends m
      → Returns (caught network payer m)
  caught-Returns payer (next r) h = (r, refl)
  caught-Returns payer (stop u) h = absurd (h refl)
  caught-Returns payer (thrown m) h = (_, refl)

  on_verified-Returns :
      (v : VerifyResponse) → Returns (on_verified sdk request config around (turns + 1) network v)
  on_verified-Returns (invalid reason payer) = (_, refl)
  on_verified-Returns (valid payer) =
      caught-Returns (some (text payer)) _ (submit_transaction-Ends (some (text payer)) _)

  pub on_relayer-Returns :
      (name : String)
      → Returns (on_relayer sdk request config around (turns + 1) network (some name))
  on_relayer-Returns name = elim (Bool-cases (networks_match (map_network name) config.network)) [
    | inr other ↦ (error_response network_mismatch network none none, grind arith)
    | inl same ↦
        let (r, e) = on_verified-Returns (
          verify_for_settlement sdk request config around.relayers around.verified_at
            (deadline sdk request config around (turns + 1) network)) in
        (r, grind arith)
  ]

-- Where the relayer gives its network, `settle` returns a response, whatever the verification, the SDK,
-- the channel service and the relayer answer or throw: its loops end within the fuel that a clock allows.
pub settle_returns :
    (sdk : Sdk) (request : VerifyRequest) (config : NetworkConfig) (around : Surroundings)
    (turns : ℕ) (name : String)
    → around.relayer_network ≡ some name
    → HasFuel around config
        (deadline_ms around.start_time request.requirements.max_timeout_seconds)
        turns
    → (r : SettleResponse) × (settle sdk request config around (turns + 1) ≡ next r)
unfolding settle
settle_returns sdk request config around turns name named enough = accepted request.accepted
  where
    accepted :
        (o : Option PaymentRequirements)
        → (r : SettleResponse) × (settle_accepted sdk request config around (turns + 1) o ≡ next r)
    accepted none = (_, refl)
    accepted (some a) =
        elim (Bool-cases (
          not (networks_match a.network request.requirements.network)
          || not (networks_match a.network config.network))) [
            | inl other ↦ (error_response network_mismatch a.network none none, grind arith)
            | inr same ↦
                let (r, e) =
                  on_relayer-Returns sdk request config around turns a.network enough name in
                (r, grind arith)
          ]
