-- ===== src/Relayer/Channel/Polling.antt =====
-- The loops of the settlement by the channel service end.
use agent_allowance.Common.{
  ℕ, zero, suc, ◌+◌, ◌-◌, ◌*◌, ◌≤◌, ◌<◌, ◌≡◌, ◌≢◌, ◌⊎◌, refl, String, true, not, ◌||◌, Option,
  or_else, List, ltb, leb, ◌==◌, if◌then◌else◌, Flow, next, stop, thrown, arith, Bool-cases, inl,
  inr,
}
use agent_allowance.Xdr.{Native, AuthEntry, HostFunction}
use agent_allowance.Relayer.Request.{NetworkConfig}
use agent_allowance.Relayer.Channel.{
  ChannelServiceResponse, ChannelServiceError, submission, get_transaction, Visit,
  call_channel_service, after_submission, backoff_ms, submit, is_final, after_poll,
  is_pool_capacity, poll_transaction_status, max_submit_retries, Channel,
  settle_via_channel_service, on_submitted, submit_result, poll_result, given,
}

-- `Math.min(CHANNEL_POLL_INTERVAL_MS, remaining)`
abbrev pub pause_ms : ℕ → ℕ → ℕ
pause_ms deadline now = if leb (deadline - now) 1000 then deadline - now else 1000

-- The clock does not go back during a request, and a timer does not fire before its delay is over.
abbrev pub IsClock : (ℕ → Visit) → ℕ → Type 0
IsClock visits deadline =
    (i : ℕ)
    → ((visits i).before ≤ (visits i).after)
      × ((visits i).after < deadline
          → (visits i).after + pause_ms deadline (visits i).after ≤ (visits (i + 1)).before)

after_poll-not-stop :
    (o : Flow ChannelServiceError ChannelServiceResponse) (now deadline : ℕ) (id : String)
    (rest : Flow (Unit {0}) ChannelServiceResponse)
    → (now < deadline → rest ≢ stop tt)
    → after_poll o now deadline id rest ≢ stop tt
after_poll-not-stop (thrown m) now deadline id rest h = λ e. cc
after_poll-not-stop (stop e) now deadline id rest h = λ e. cc
after_poll-not-stop (next r) now deadline id rest h = elim (Bool-cases (is_final r.status)) [
  | inl final ↦ λ e. grind arith
  | inr going ↦ elim (Bool-cases (leb deadline now)) [
    | inl over ↦ λ e. grind arith
    | inr left ↦ λ e. h (grind arith) (grind arith)
  ]
]

-- One turn more than a thousandth of the time that is left is enough fuel: the polling answers or
-- throws, whatever the service answers.
pub poll_transaction_status_terminates :
    (visits : ℕ → Visit) (deadline : ℕ) (id : String) (turns i : ℕ)
    → IsClock visits deadline
    → deadline ≤ (visits i).before + 1000 * turns
    → poll_transaction_status visits deadline id (turns + 1) i ≢ stop tt
unfolding poll_transaction_status
poll_transaction_status_terminates visits deadline id zero i clock h = λ e. ground arith
poll_transaction_status_terminates visits deadline id (suc turns) i clock h =
    elim (Bool-cases (ltb (visits i).before deadline)) [
      | inl early ↦ λ e.
          after_poll-not-stop (call_channel_service (visits i).answer) (visits i).after deadline id
            (poll_transaction_status visits deadline id (turns + 1) (i + 1))
            (λ left.
              poll_transaction_status_terminates visits deadline id turns (i + 1) clock
                (let (forth, paused) = clock i in ground (arith, paused left)))
            (grind arith)
      | inr late ↦ λ e. grind arith
    ]

-- Submission `i` was refused for the capacity of the pool, and its delay ends before the deadline.
abbrev pub IsRetryable : (ℕ → Visit) → ℕ → ℕ → Type 0
IsRetryable visits deadline i =
    (e : ChannelServiceError) × (call_channel_service (visits i).answer ≡ stop e)
    × (is_pool_capacity e ≡ true)
    × ((visits i).after + backoff_ms i < deadline)

module _ (visits : ℕ → Visit) (deadline : ℕ) where
  -- What one turn of the loop does: it is the last, or the loop goes on after a delay.
  after_submission-cases :
      (o : Flow ChannelServiceError ChannelServiceResponse) (attempt : ℕ)
      (rest : Flow ChannelServiceError ChannelServiceResponse × ℕ)
      → call_channel_service (visits attempt).answer ≡ o
      → (after_submission o deadline (visits attempt).after attempt rest ≡ (o, attempt + 1))
        ⊎ ((after_submission o deadline (visits attempt).after attempt rest ≡ rest)
            × (attempt ≢ max_submit_retries)
            × IsRetryable visits deadline attempt)
  after_submission-cases (next r) attempt rest h = inl refl
  after_submission-cases (thrown m) attempt rest h = inl refl
  after_submission-cases (stop e) attempt rest h =
      elim (Bool-cases (not (is_pool_capacity e) || attempt == max_submit_retries)) [
        | inl last ↦ inl (grind arith)
        | inr again ↦
            elim (Bool-cases (leb deadline ((visits attempt).after + backoff_ms attempt))) [
              | inl late ↦ inl (grind arith)
              | inr early ↦ inr (grind arith, ground arith, (e, h, ground arith, ground arith))
            ]
      ]

  submit-count : (turns attempt : ℕ) → (submit visits deadline turns attempt).1 ≤ attempt + turns
  unfolding submit
  submit-count zero attempt = omega arith
  submit-count (suc turns) attempt =
      let rest = submit visits deadline turns (attempt + 1) in
      elim (after_submission-cases (call_channel_service (visits attempt).answer) attempt rest
        refl) [
          | inl e ↦ rw e (omega arith)
          | inr (e, more, retry) ↦ rw e (omega (arith, submit-count turns (attempt + 1)))
        ]

  submit-retried :
      (turns attempt i : ℕ)
      → attempt ≤ i
      → i + 1 < (submit visits deadline turns attempt).1
      → IsRetryable visits deadline i
  unfolding submit
  submit-retried zero attempt i h k = absurd (omega arith)
  submit-retried (suc turns) attempt i h k =
      let rest = submit visits deadline turns (attempt + 1) in
      elim (after_submission-cases (call_channel_service (visits attempt).answer) attempt rest
        refl) [
          | inl e ↦ absurd (omega (arith, rw e at k))
          | inr (e, other, retry) ↦ elim (Bool-cases (attempt == i)) [
            | inl here ↦ let eq : attempt ≡ i = ground arith in rw (← eq) retry
            | inr later ↦ submit-retried turns (attempt + 1) i (ground arith) (rw e at k)
          ]
        ]

  -- There are at most four submissions, and each but the last was refused for the capacity of the pool
  -- at a time that leaves its delay before the deadline.
  pub submit_bounded :
      ((submit visits deadline (max_submit_retries + 1) 0).1 ≤ 4)
      × ((i : ℕ)
          → i + 1 < (submit visits deadline (max_submit_retries + 1) 0).1
          → IsRetryable visits deadline i)
  submit_bounded = (submit-count 4 0, λ i h. submit-retried 4 0 i (omega arith) h)

-- `settleViaChannelService` answers, if every polling has a clock and the fuel exceeds the time that is
-- left, in thousandths.
pub settle_via_channel_service_terminates :
    (channel : Channel) (func : HostFunction) (auth : List AuthEntry) (config : NetworkConfig)
    (network : String) (deadline : ℕ) (payer : Option Native) (turns : ℕ)
    → ((id : String)
        → IsClock
            (channel.visits (get_transaction id (given config.fund_relayer_id)))
            (channel.poll_started_at + (deadline - channel.submitted_at)))
    → ((id : String)
        → channel.poll_started_at + (deadline - channel.submitted_at)
          ≤ (channel.visits (get_transaction id (given config.fund_relayer_id)) 0).before
            + 1000 * turns)
    → settle_via_channel_service channel func auth config network deadline payer (turns + 1)
      ≢ stop tt
unfolding settle_via_channel_service
settle_via_channel_service_terminates channel func auth config network deadline payer turns clock
      enough =
    submitted
      (submit (channel.visits (submission func auth (given config.fund_relayer_id))) deadline
        (max_submit_retries + 1) 0).0
  where
    fund : Option String
    fund = given config.fund_relayer_id

    polled :
        (o : Flow (Unit {0}) ChannelServiceResponse)
        → o ≢ stop tt
        → poll_result network payer o ≢ stop tt
    polled (next r) h = λ e. cc
    polled (stop u) h = absurd (h refl)
    polled (thrown m) h = λ e. cc

    confirmed :
        (r : ChannelServiceResponse)
        → on_submitted channel deadline (turns + 1) fund network payer r ≢ stop tt
    confirmed r e =
        let id = or_else r.transaction_id "" in
        let over = channel.poll_started_at + (deadline - channel.submitted_at) in
        polled
          (poll_transaction_status (channel.visits (get_transaction id fund)) over id (turns + 1) 0)
          (poll_transaction_status_terminates (channel.visits (get_transaction id fund)) over id
            turns 0 (clock id) (enough id))
          (grind arith)

    submitted :
        (o : Flow ChannelServiceError ChannelServiceResponse)
        → submit_result channel deadline (turns + 1) fund network payer o ≢ stop tt
    submitted (next r) = confirmed r
    submitted (stop e) = λ h. cc
    submitted (thrown m) = λ h. cc
