-- ===== src/Relayer/Settle/Steps.antt =====
-- The verdict of a settlement, and what its transaction by the relayer has sent.
use agent_allowance.Common.{
  ℕ, ◌+◌, ◌-◌, ◌≤◌, ◌<◌, ◌≡◌, inl, inr, refl, String, true, false, Option, some, List, [], ◌∷◌,
  ◌===◌, leb, ◌==◌, if◌then◌else◌, next, or_throw, arith, eq_iff, Bool-cases, length, >>=-eq-next,
  call-next, next-injective,
}
use agent_allowance.Xdr.{Native, InvokeArgs, AuthEntry, Sdk, sdk_call}
use agent_allowance.Relayer.Request.{VerifyRequest, NetworkConfig, Relayer, VerifyResponse}
use agent_allowance.Relayer.Verify.{verify}
use agent_allowance.Relayer.Channel.{
  SettleResponse, transaction_failed, success_response, error_response,
}
use agent_allowance.Relayer.Arguments.{JsonArg, json_args}
use agent_allowance.Relayer.Settle.{
  Surroundings, TransactionStatus, settle_via_relayer, is_settled_verdict, verify_again,
  verify_for_settlement,
}

module _ (sdk : Sdk) (request : VerifyRequest) (config : NetworkConfig) (relayers : ℕ → Relayer)
    (verified_at : ℕ → ℕ) (over : ℕ) where
  -- The result is that of one verification, before which every other asked to be tried again.
  abbrev pub IsVerdict : ℕ → ℕ → VerifyResponse → Type 0
  IsVerdict first last result =
      (j : ℕ) × (first ≤ j)
      × (j ≤ last)
      × (verify sdk request config (relayers j) ≡ result)
      × ((k : ℕ)
          → first ≤ k
          → k < j
          → is_settled_verdict (verify sdk request config (relayers k)) ≡ false)

  verify_again-IsVerdict :
      (delays : List ℕ) (i : ℕ) (result : VerifyResponse)
      → verify sdk request config (relayers i) ≡ result
      → IsVerdict i
          (i + length delays)
          (verify_again sdk request config relayers verified_at over delays i result)
  unfolding verify_again
  verify_again-IsVerdict [] i result e =
      (i, omega arith, omega arith, e, λ k h h'. absurd (omega arith))
  verify_again-IsVerdict (delay ∷ delays) i result e =
      elim (Bool-cases (is_settled_verdict result)) [
        | inl sure ↦ (i, omega arith, omega arith, grind arith, λ k h h'. absurd (omega arith))
        | inr again ↦ elim (Bool-cases (leb over (verified_at i + delay))) [
          | inl late ↦ (i, omega arith, omega arith, grind arith, λ k h h'. absurd (omega arith))
          | inr early ↦
              let (j, from, to, was, before) =
                verify_again-IsVerdict delays (i + 1) (verify sdk request config (relayers (i + 1)))
                  refl in
              (
                j,
                omega arith,
                ground arith,
                grind arith,
                λ k h h'. elim (Bool-cases (k == i)) [
                  | inl first ↦ let same : k ≡ i = ground arith in rw (same, e) again
                  | inr rest ↦ before k (ground arith) h'
                ],
              )
        ]
      ]

  -- A settlement verifies the payment one to three times: its verdict is that of the last verification,
  -- and each verification before it failed for an unexpected error.
  pub verify_for_settlement-IsVerdict :
      IsVerdict 0 2 (verify_for_settlement sdk request config relayers verified_at over)
  verify_for_settlement-IsVerdict =
      verify_again-IsVerdict _ 0 (verify sdk request config (relayers 0)) refl

-- The relayer sent the call, with these authorizations, and confirmed its transaction with the hash.
abbrev pub IsSent :
    Sdk → Surroundings → InvokeArgs → List AuthEntry → String → Option String → Type 0
IsSent sdk around call auth network hash =
    (contract : String) × (sdk.address_text call.contract_address ≡ some contract)
    × ((args : List JsonArg) × (json_args sdk {R = Unit {0}} call.args ≡ next args)
        × ((wait : ℕ → Option TransactionStatus) × (around.send (record {
          network = network;
          contract_address = contract;
          function_name = call.function_name;
          args = args;
          auth = auth;
        })
              ≡ some wait)
            × ((timeout : ℕ) × (wait timeout
                  ≡ some (record { status = "confirmed"; hash = hash })))))

confirmed-eq :
    (t : TransactionStatus) (network : String) (payer : Option Native) (r : SettleResponse)
    → (if t.status === "confirmed"
        then success_response t.hash network payer
        else error_response transaction_failed network payer t.hash)
      ≡ r
    → r.success ≡ true
    → (t.status ≡ "confirmed") × (r ≡ success_response t.hash network payer)
confirmed-eq t network payer r h won = elim (Bool-cases (t.status === "confirmed")) [
  | inl same ↦ ((eq_iff t.status "confirmed").0 same, grind arith)
  | inr other ↦ absurd (grind arith)
]

pub settle_via_relayer-IsSent :
    (sdk : Sdk) (around : Surroundings) (call : InvokeArgs) (auth : List AuthEntry)
    (network : String) (over : ℕ) (payer : Option Native) (r : SettleResponse)
    → settle_via_relayer sdk around call auth network over payer ≡ next r
    → r.success ≡ true
    → IsSent sdk around call auth network r.transaction
      × (r ≡ success_response r.transaction network payer)
unfolding settle_via_relayer
settle_via_relayer-IsSent sdk around call auth network over payer r h won =
    let (contract, h1, k1) = >>=-eq-next (sdk_call (sdk.address_text call.contract_address)) _ h in
    let (args, h2, k2) = >>=-eq-next (json_args sdk call.args) _ k1 in
    let (wait, h3, k3) = >>=-eq-next (or_throw (around.send _) "sendTransaction") _ k2 in
    let (t, h4, k4) = >>=-eq-next (or_throw (wait (over - around.sent_at)) "wait") _ k3 in
    let (status, same) = confirmed-eq t network payer r (next-injective k4) won in
    let ended = call-next (wait (over - around.sent_at)) "wait" h4 in
    (
      (
        contract,
        call-next (sdk.address_text call.contract_address) "stellar-sdk" h1,
        (
          args,
          h2,
          (
            wait,
            call-next (around.send _) "sendTransaction" h3,
            (over - around.sent_at, grind arith),
          ),
        ),
      ),
      grind arith,
    )
