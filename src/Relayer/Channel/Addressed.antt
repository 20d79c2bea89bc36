-- ===== src/Relayer/Channel/Addressed.antt =====
-- Whom the response of a settlement by the channel service is for.
use agent_allowance.Common.{
  ℕ, ◌+◌, ◌-◌, ◌≡◌, String, ◌&&◌, Option, or_else, truthy, is_text, List, leb, Flow, next, stop,
  thrown, arith, Bool-cases, inl, inr,
}
use agent_allowance.Xdr.{Native, AuthEntry, HostFunction}
use agent_allowance.Relayer.Request.{NetworkConfig}
use agent_allowance.Relayer.Channel.{
  ChannelServiceResponse, ChannelServiceError, submission, get_transaction, submit,
  poll_transaction_status, max_submit_retries, Channel, SettleResponse, settle_via_channel_service,
  on_submitted, submit_result, poll_result, given,
}

module _ (network : String) (payer : Option Native) (r : SettleResponse) where
  -- The response is for this network and this payer.
  abbrev pub IsFor : Type 0
  IsFor = (r.network ≡ network) × (r.payer ≡ payer)

  poll_result-IsFor :
      (o : Flow (Unit {0}) ChannelServiceResponse) → poll_result network payer o ≡ next r → IsFor
  poll_result-IsFor (next t) h = elim (Bool-cases (is_text t.status "confirmed" && truthy t.hash)) [
    | inl both ↦ (grind arith, grind arith)
    | inr other ↦ (grind arith, grind arith)
  ]
  poll_result-IsFor (stop u) h = cc
  poll_result-IsFor (thrown m) h = (cc, cc)

  on_submitted-IsFor :
      (channel : Channel) (deadline fuel : ℕ) (fund : Option String) (s : ChannelServiceResponse)
      → on_submitted channel deadline fuel fund network payer s ≡ next r
      → IsFor
  on_submitted-IsFor channel deadline fuel fund s h = elim (Bool-cases s.success) [
    | inr failed ↦ (grind arith, grind arith)
    | inl ok ↦ elim (Bool-cases (truthy s.hash)) [
      | inl direct ↦ (grind arith, grind arith)
      | inr later ↦ elim (Bool-cases (truthy s.transaction_id)) [
        | inr unnamed ↦ (grind arith, grind arith)
        | inl named ↦ elim (Bool-cases (leb deadline channel.submitted_at)) [
          | inl over ↦ (grind arith, grind arith)
          | inr left ↦
              let id = or_else s.transaction_id "" in
              let visits = channel.visits (get_transaction id fund) in
              let until = channel.poll_started_at + (deadline - channel.submitted_at) in
              poll_result-IsFor (poll_transaction_status visits until id fuel 0) (grind arith)
        ]
      ]
    ]
  ]

  submit_result-IsFor :
      (channel : Channel) (deadline fuel : ℕ) (fund : Option String)
      (o : Flow ChannelServiceError ChannelServiceResponse)
      → submit_result channel deadline fuel fund network payer o ≡ next r
      → IsFor
  submit_result-IsFor channel deadline fuel fund (next s) h =
      on_submitted-IsFor channel deadline fuel fund s h
  submit_result-IsFor channel deadline fuel fund (stop e) h = (cc, cc)
  submit_result-IsFor channel deadline fuel fund (thrown m) h = (cc, cc)

pub settle_via_channel_service-IsFor :
    (channel : Channel) (func : HostFunction) (auth : List AuthEntry) (config : NetworkConfig)
    (network : String) (deadline : ℕ) (payer : Option Native) (fuel : ℕ) (r : SettleResponse)
    → settle_via_channel_service channel func auth config network deadline payer fuel ≡ next r
    → IsFor network payer r
unfolding settle_via_channel_service
settle_via_channel_service-IsFor channel func auth config network deadline payer fuel r h =
    submit_result-IsFor network payer r channel deadline fuel (given config.fund_relayer_id)
      (submit (channel.visits (submission func auth (given config.fund_relayer_id))) deadline
        (max_submit_retries + 1) 0).0
      h
