-- ===== src/Relayer/Channel.antt =====
-- packages/relayer-plugin-x402-facilitator/src/stellar/settle.ts: settlement by the channel service. A
-- time is what `Date.now()` gives, in milliseconds.
pub mod Confirmed
pub mod Addressed
pub mod Polling
use agent_allowance.Common.{
  ℕ, zero, suc, ◌+◌, ◌-◌, ◌*◌, ◌^◌, String, Bool, true, false, not, ◌||◌, ◌&&◌, Option, none, some,
  List, ◌===◌, ◌==◌, ltb, leb, is_text, truthy, or_else, if◌then◌else◌, Flow, next, stop, thrown,
  or_throw, ◌>>=◌,
}
use agent_allowance.Xdr.{Native, AuthEntry, HostFunction}
use agent_allowance.Relayer.Reasons.{RelayReason}
use agent_allowance.Relayer.Request.{NetworkConfig}

-- The fields of a response's `data`, where null is undefined.
pub record ChannelServiceResponse : Type 0 where
  pub success : Bool
  pub transaction_id : Option String
  pub status : Option String
  pub hash : Option String

-- An HTTP response: its body parsed, where that does not throw, and the codes that an error carries.
pub record HttpAnswer : Type 0 where
  pub ok : Bool
  pub status : ℕ
  pub parsed : Option ChannelServiceResponse
  pub code : Option String
  pub nested_code : Option String

pub record ChannelServiceError : Type 0 where
  pub status : ℕ
  pub code : Option String
  pub nested_code : Option String

-- The `params` of a request: a submission with `skipWait`, or the status of a transaction.
pub data ChannelRequest : Type 0 where
  submission : HostFunction → List AuthEntry → Option String → ChannelRequest
  get_transaction : String → Option String → ChannelRequest

-- One turn of a loop: the time at its start, the answer to its request, `none` where `fetch` rejects,
-- and the time after it.
pub record Visit : Type 0 where
  pub before : ℕ
  pub answer : Option HttpAnswer
  pub after : ℕ

unfoldable pub call_channel_service :
    Option HttpAnswer → Flow ChannelServiceError ChannelServiceResponse
call_channel_service none = thrown "fetch failed"
call_channel_service (some answer) =
    if answer.ok
    then or_throw answer.parsed "not JSON"
    else stop
        (record { status = answer.status; code = answer.code; nested_code = answer.nested_code })

abbrev pub max_submit_retries : ℕ
max_submit_retries = 3

abbrev pub backoff_ms : ℕ → ℕ
backoff_ms attempt = 1000 * 2 ^ attempt

abbrev pub is_pool_capacity : ChannelServiceError → Bool
is_pool_capacity e = is_text e.nested_code "POOL_CAPACITY" || is_text e.code "POOL_CAPACITY"

-- What follows one submission, with the number of submissions until the loop is left.
abbrev pub after_submission :
    Flow ChannelServiceError ChannelServiceResponse
    → ℕ
    → ℕ
    → ℕ
    → Flow ChannelServiceError ChannelServiceResponse × ℕ
    → Flow ChannelServiceError ChannelServiceResponse × ℕ
after_submission (next response) deadline now attempt rest = (next response, attempt + 1)
after_submission (thrown m) deadline now attempt rest = (thrown m, attempt + 1)
after_submission (stop e) deadline now attempt rest =
    if not (is_pool_capacity e) || attempt == max_submit_retries
    then (stop e, attempt + 1)
    else if leb deadline (now + backoff_ms attempt)
    then (stop e, attempt + 1)
    else rest

-- The loop `for (let attempt = 0; attempt <= MAX_SUBMIT_RETRIES; attempt++)` from `attempt` on, with the
-- turns that it has left.
unfoldable pub submit :
    (ℕ → Visit) → ℕ → ℕ → ℕ → Flow ChannelServiceError ChannelServiceResponse × ℕ
submit visits deadline zero attempt = (thrown "submitResponse is undefined", attempt)
submit visits deadline (suc turns) attempt =
    let rest = submit visits deadline turns (attempt + 1) in
    after_submission (call_channel_service (visits attempt).answer) deadline (visits attempt).after
      attempt rest

abbrev pub timed_out : String → ChannelServiceResponse
timed_out id = record {
  success = false;
  transaction_id = some id;
  status = some "timeout";
  hash = none;
}

abbrev pub is_final : Option String → Bool
is_final status =
    truthy status
    && not (is_text status "pending")
    && not (is_text status "sent")
    && not (is_text status "submitted")

abbrev pub after_poll :
    Flow ChannelServiceError ChannelServiceResponse
    → ℕ
    → ℕ
    → String
    → Flow (Unit {0}) ChannelServiceResponse
    → Flow (Unit {0}) ChannelServiceResponse
after_poll (thrown m) now deadline id rest = thrown m
after_poll (stop e) now deadline id rest = thrown "Channel service error"
after_poll (next response) now deadline id rest =
    if is_final response.status
    then next response
    else if leb deadline now
    then next (timed_out id)
    else rest

abbrev pub poll_turn :
    Visit
    → ℕ
    → String
    → Flow (Unit {0}) ChannelServiceResponse
    → Flow (Unit {0}) ChannelServiceResponse
poll_turn visit deadline id rest =
    if ltb visit.before deadline
    then after_poll (call_channel_service visit.answer) visit.after deadline id rest
    else next (timed_out id)

-- `pollTransactionStatus` from turn `i` on; `stop` where it takes more turns than the fuel.
unfoldable pub poll_transaction_status :
    (ℕ → Visit) → ℕ → String → ℕ → ℕ → Flow (Unit {0}) ChannelServiceResponse
poll_transaction_status visits deadline id zero i = stop tt
poll_transaction_status visits deadline id (suc fuel) i =
    let rest = poll_transaction_status visits deadline id fuel (i + 1) in
    poll_turn (visits i) deadline id rest

-- `ErrorReason`, or a reason of the verification.
pub data SettleReason : Type 0 where
  payload_malformed wrong_operation transaction_failed network_mismatch : SettleReason
  channel_service_failed unexpected_settle_error : SettleReason
  not_verified : RelayReason → SettleReason

pub record SettleResponse : Type 0 where
  pub success : Bool
  pub error_reason : Option SettleReason
  pub transaction : Option String
  pub network : String
  pub payer : Option Native

-- `successResponse` and `errorResponse`
abbrev pub success_response : Option String → String → Option Native → SettleResponse
success_response hash network payer = record {
  success = true;
  error_reason = none;
  transaction = hash;
  network = network;
  payer = payer;
}

abbrev pub error_response : SettleReason → String → Option Native → Option String → SettleResponse
error_response reason network payer hash = record {
  success = false;
  error_reason = some reason;
  transaction = some (or_else hash "");
  network = network;
  payer = payer;
}

-- A text that is not empty.
abbrev pub given : Option String → Option String
given s = if truthy s then s else none

-- The channel service's answer to the n-th request of one kind, and the times that are read between the
-- submission and the polling.
pub record Channel : Type 0 where
  pub visits : ChannelRequest → ℕ → Visit
  pub submitted_at : ℕ
  pub poll_started_at : ℕ

abbrev pub on_polled : String → Option Native → ChannelServiceResponse → SettleResponse
on_polled network payer result =
    if is_text result.status "confirmed" && truthy result.hash
    then success_response result.hash network payer
    else error_response channel_service_failed network payer result.hash

abbrev pub poll_result :
    String → Option Native → Flow (Unit {0}) ChannelServiceResponse → Flow (Unit {0}) SettleResponse
poll_result network payer (next result) = next (on_polled network payer result)
poll_result network payer (stop u) = stop u
poll_result network payer (thrown m) =
    next (error_response channel_service_failed network payer none)

-- The end of the `try`, after the submission.
abbrev pub on_submitted :
    Channel
    → ℕ
    → ℕ
    → Option String
    → String
    → Option Native
    → ChannelServiceResponse
    → Flow (Unit {0}) SettleResponse
on_submitted channel deadline fuel fund network payer response =
    let failed = error_response channel_service_failed network payer in
    let id = or_else response.transaction_id "" in
    let polled =
      poll_transaction_status (channel.visits (get_transaction id fund))
        (channel.poll_started_at + (deadline - channel.submitted_at)) id fuel 0 in
    if not response.success
    then next (failed response.hash)
    else if truthy response.hash
    then next (success_response response.hash network payer)
    else if not (truthy response.transaction_id)
    then next (failed none)
    else if leb deadline channel.submitted_at
    then next (failed none)
    else poll_result network payer polled

abbrev pub submit_result :
    Channel
    → ℕ
    → ℕ
    → Option String
    → String
    → Option Native
    → Flow ChannelServiceError ChannelServiceResponse
    → Flow (Unit {0}) SettleResponse
submit_result channel deadline fuel fund network payer (next response) =
    on_submitted channel deadline fuel fund network payer response
submit_result channel deadline fuel fund network payer (stop e) =
    next (error_response channel_service_failed network payer none)
submit_result channel deadline fuel fund network payer (thrown m) =
    next (error_response channel_service_failed network payer none)

-- `settleViaChannelService`; `stop` where the polling takes more turns than the fuel.
unfoldable pub settle_via_channel_service :
    Channel
    → HostFunction
    → List AuthEntry
    → NetworkConfig
    → String
    → ℕ
    → Option Native
    → ℕ
    → Flow (Unit {0}) SettleResponse
settle_via_channel_service channel func auth config network deadline payer fuel =
    let fund = given config.fund_relayer_id in
    submit_result channel deadline fuel fund network payer
      (submit (channel.visits (submission func auth fund)) deadline (max_submit_retries + 1) 0).0
