-- ===== src/Relayer/Channel/Confirmed.antt =====
-- What a settlement by the channel service did where it reports success.
use agent_allowance.Common.{
  ℕ, zero, suc, ◌+◌, ◌-◌, ◌≡◌, ◌⊎◌, refl, String, true, not, ◌||◌, ◌&&◌, Option, none, some, truthy,
  is_text, List, ltb, leb, ◌==◌, Flow, next, stop, thrown, arith, eq_iff, Bool-cases, inl, inr, ◌∙◌,
}
use agent_allowance.Xdr.{Native, AuthEntry, HostFunction}
use agent_allowance.Relayer.Request.{NetworkConfig}
use agent_allowance.Relayer.Channel.{
  ChannelServiceResponse, ChannelServiceError, submission, get_transaction, Visit,
  call_channel_service, after_submission, backoff_ms, submit, timed_out, is_final, after_poll,
  is_pool_capacity, poll_transaction_status, max_submit_retries, Channel, SettleResponse,
  settle_via_channel_service, on_submitted, submit_result, poll_result, given, success_response,
}

-- A turn in which the service answered this.
abbrev pub Answered : (ℕ → Visit) → ChannelServiceResponse → Type 0
Answered visits r = (i : ℕ) × (call_channel_service (visits i).answer ≡ next r)

submit-Answered :
    (visits : ℕ → Visit) (deadline turns attempt : ℕ) (r : ChannelServiceResponse)
    → (submit visits deadline turns attempt).0 ≡ next r
    → Answered visits r
unfolding submit
submit-Answered visits deadline zero attempt r h = cc
submit-Answered visits deadline (suc turns) attempt r h =
    turn (call_channel_service (visits attempt).answer) refl
      (λ k. submit-Answered visits deadline turns (attempt + 1) r k) h
  where
    rest : Flow ChannelServiceError ChannelServiceResponse × ℕ
    rest = submit visits deadline turns (attempt + 1)

    turn :
        (o : Flow ChannelServiceError ChannelServiceResponse)
        → call_channel_service (visits attempt).answer ≡ o
        → (rest.0 ≡ next r → Answered visits r)
        → (after_submission o deadline (visits attempt).after attempt rest).0 ≡ next r
        → Answered visits r
    turn (next s) e again k = (attempt, e ∙ k)
    turn (thrown m) e again k = cc
    turn (stop err) e again k =
        elim (Bool-cases (not (is_pool_capacity err) || attempt == max_submit_retries)) [
          | inl last ↦ absurd (grind arith)
          | inr more ↦
              elim (Bool-cases (leb deadline ((visits attempt).after + backoff_ms attempt))) [
                | inl late ↦ absurd (grind arith)
                | inr early ↦ again (grind arith)
              ]
        ]

poll-Answered :
    (visits : ℕ → Visit) (deadline : ℕ) (id : String) (fuel i : ℕ) (r : ChannelServiceResponse)
    → poll_transaction_status visits deadline id fuel i ≡ next r
    → (r ≡ timed_out id) ⊎ Answered visits r
unfolding poll_transaction_status
poll-Answered visits deadline id zero i r h = cc
poll-Answered visits deadline id (suc fuel) i r h =
    elim (Bool-cases (ltb (visits i).before deadline)) [
      | inl early ↦
          turn (call_channel_service (visits i).answer) refl
            (λ k. poll-Answered visits deadline id fuel (i + 1) r k) (grind arith)
      | inr late ↦ inl (grind arith)
    ]
  where
    rest : Flow (Unit {0}) ChannelServiceResponse
    rest = poll_transaction_status visits deadline id fuel (i + 1)

    turn :
        (o : Flow ChannelServiceError ChannelServiceResponse)
        → call_channel_service (visits i).answer ≡ o
        → (rest ≡ next r → (r ≡ timed_out id) ⊎ Answered visits r)
        → after_poll o (visits i).after deadline id rest ≡ next r
        → (r ≡ timed_out id) ⊎ Answered visits r
    turn (thrown m) e again k = cc
    turn (stop err) e again k = cc
    turn (next s) e again k = elim (Bool-cases (is_final s.status)) [
      | inl final ↦ inr (i, grind arith)
      | inr going ↦ elim (Bool-cases (leb deadline (visits i).after)) [
        | inl over ↦ inl (grind arith)
        | inr left ↦ again (grind arith)
      ]
    ]

-- The service accepted a submission of this function under these authorizations, and gave the hash with
-- that answer, or with the status of the transaction that the answer names.
abbrev pub IsConfirmed : Channel → HostFunction → List AuthEntry → Option String → String → Type 0
IsConfirmed channel func auth fund hash =
    (s : ChannelServiceResponse) × Answered (channel.visits (submission func auth fund)) s
    × (s.success ≡ true)
    × ((s.hash ≡ some hash)
        ⊎ ((id : String) × (s.transaction_id ≡ some id)
            × ((t : ChannelServiceResponse) × Answered (channel.visits (get_transaction id fund)) t
                × (t.status ≡ some "confirmed")
                × (t.hash ≡ some hash))))

truthy-some : (o : Option String) → truthy o ≡ true → (s : String) × (o ≡ some s)
truthy-some none h = cc
truthy-some (some s) h = (s, refl)

is_text-eq : (o : Option String) (s : String) → is_text o s ≡ true → o ≡ some s
is_text-eq none s h = cc
is_text-eq (some t) s h = ground (arith, eq_iff t s)

module _ (channel : Channel) (func : HostFunction) (auth : List AuthEntry) (deadline fuel : ℕ)
    (fund : Option String) (network : String) (payer : Option Native) (r : SettleResponse) where
  abbrev HasHash : Type 0
  HasHash = (hash : String) × (r.transaction ≡ some hash) × IsConfirmed channel func auth fund hash

  -- An answer to the polling that is reported as a success.
  on_polled-HasHash :
      (s : ChannelServiceResponse) (id : String)
      → Answered (channel.visits (submission func auth fund)) s
      → s.success ≡ true
      → s.transaction_id ≡ some id
      → (o : Flow (Unit {0}) ChannelServiceResponse)
      → ((t : ChannelServiceResponse)
          → o ≡ next t
          → (t ≡ timed_out id) ⊎ Answered (channel.visits (get_transaction id fund)) t)
      → poll_result network payer o ≡ next r
      → r.success ≡ true
      → HasHash
  on_polled-HasHash s id sent ok named (stop u) poll h won = cc
  on_polled-HasHash s id sent ok named (thrown m) poll h won = absurd (grind arith)
  on_polled-HasHash s id sent ok named (next t) poll h won =
      elim (Bool-cases (is_text t.status "confirmed" && truthy t.hash)) [
        | inr other ↦ absurd (grind arith)
        | inl both ↦
            let (hash, e) = truthy-some t.hash (ground arith) in
            let status = is_text-eq t.status "confirmed" (ground arith) in
            let same : r ≡ success_response t.hash network payer = grind arith in
            elim (poll t refl) [
              | inl out ↦ absurd (grind arith)
              | inr seen ↦ (hash, rw same e, (s, sent, ok, inr (id, named, (t, seen, status, e))))
            ]
      ]

  -- A success that is reported carries a hash that the service gave for this function and these
  -- authorizations.
  on_submitted-HasHash :
      (s : ChannelServiceResponse)
      → Answered (channel.visits (submission func auth fund)) s
      → on_submitted channel deadline fuel fund network payer s ≡ next r
      → r.success ≡ true
      → HasHash
  on_submitted-HasHash s sent h won = elim (Bool-cases s.success) [
    | inr failed ↦ absurd (grind arith)
    | inl ok ↦ elim (Bool-cases (truthy s.hash)) [
      | inl direct ↦
          let (hash, e) = truthy-some s.hash direct in
          let same : r ≡ success_response s.hash network payer = grind arith in
          (hash, rw same e, (s, sent, ok, inl e))
      | inr later ↦ elim (Bool-cases (truthy s.transaction_id)) [
        | inr unnamed ↦ absurd (grind arith)
        | inl named ↦ elim (Bool-cases (leb deadline channel.submitted_at)) [
          | inl over ↦ absurd (grind arith)
          | inr left ↦
              let (id, e) = truthy-some s.transaction_id named in
              let visits = channel.visits (get_transaction id fund) in
              let until = channel.poll_started_at + (deadline - channel.submitted_at) in
              on_polled-HasHash s id sent ok e (poll_transaction_status visits until id fuel 0)
                (λ t k. poll-Answered visits until id fuel 0 t k) (grind arith) won
        ]
      ]
    ]
  ]

  submit_result-HasHash :
      (o : Flow ChannelServiceError ChannelServiceResponse)
      → ((s : ChannelServiceResponse)
          → o ≡ next s
          → Answered (channel.visits (submission func auth fund)) s)
      → submit_result channel deadline fuel fund network payer o ≡ next r
      → r.success ≡ true
      → HasHash
  submit_result-HasHash (next s) sent h won = on_submitted-HasHash s (sent s refl) h won
  submit_result-HasHash (stop e) sent h won = absurd (grind arith)
  submit_result-HasHash (thrown m) sent h won = absurd (grind arith)

-- A settlement by the channel service that reports success carries a hash that the service gave: the
-- service accepted a submission of this host function under these authorizations, and gave the hash with
-- that answer, or named a transaction there and later reported it as confirmed with the hash.
pub settle_via_channel_service_sound :
    (channel : Channel) (func : HostFunction) (auth : List AuthEntry) (config : NetworkConfig)
    (network : String) (deadline : ℕ) (payer : Option Native) (fuel : ℕ) (r : SettleResponse)
    → settle_via_channel_service channel func auth config network deadline payer fuel ≡ next r
    → r.success ≡ true
    → (hash : String) × (r.transaction ≡ some hash)
      × IsConfirmed channel func auth (given config.fund_relayer_id) hash
unfolding settle_via_channel_service
settle_via_channel_service_sound channel func auth config network deadline payer fuel r h won =
    let visits = channel.visits (submission func auth (given config.fund_relayer_id)) in
    submit_result-HasHash channel func auth deadline fuel (given config.fund_relayer_id) network
      payer r (submit visits deadline (max_submit_retries + 1) 0).0
      (λ s e. submit-Answered visits deadline (max_submit_retries + 1) 0 s e) h won
