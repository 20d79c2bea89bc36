-- ===== src/Examples/Settlement.antt =====
-- The settlement of the same payment by the channel service.
use agent_allowance.Relayer.Transfers.{
  read_event, parse_transfer_events, validate_simulation_events,
}
use agent_allowance.Auth.{is_void}
use agent_allowance.Relayer.Entries.{
  check_expirations, max_expiration, expiration_ledgers, validate_expirations, signed_addresses,
  check_shapes, all_addresses, validate_auth_entries,
}
use agent_allowance.Relayer.Profile.{choose_profile}
use agent_allowance.Shared.Amounts.{big_int}
use agent_allowance.Relayer.Signatures.{check_signatures, check_terms}
use agent_allowance.Relayer.Verify.{check_effects, check_fee, check_payment, verify_flow, verify}
use agent_allowance.Common.{
  zero, suc, ◌+◌, ◌*◌, ◌≤◌, ◌<◌, ◌≡◌, ◌≢◌, refl, ℕ, true, false, none, some, arith, Option, next,
  stop,
}
use agent_allowance.Xdr.{text}
use agent_allowance.Relayer.Request.{read_call, check_protocol, network_passphrase}
use agent_allowance.Relayer.Channel.{
  call_channel_service, settle_via_channel_service, ChannelServiceResponse, ChannelRequest,
  submission, get_transaction, Visit, HttpAnswer, Channel, submit, poll_transaction_status,
  SettleResponse, success_response, max_submit_retries,
}
use agent_allowance.Relayer.Channel.Polling.{
  IsClock, IsRetryable, poll_transaction_status_terminates, submit_bounded,
}
use agent_allowance.Relayer.Settle.{
  verify_again, Surroundings, settle, verify_for_settlement, deadline_ms,
}
use agent_allowance.Relayer.Settle.Steps.{IsVerdict, verify_for_settlement-IsVerdict}
use agent_allowance.Relayer.Settle.Sound.{IsSettled, settle_sound}
use agent_allowance.Relayer.Settle.Returns.{HasFuel, settle_returns}
use agent_allowance.Examples.Relay.{config, relayer, request}
use agent_allowance.Examples.Fixtures.{payer, testnet, code_hash, sdk}

abbrev pending : ChannelServiceResponse
pending = record {
  success = true;
  transaction_id = some "tx1";
  status = some "pending";
  hash = none;
}

abbrev confirmed : ChannelServiceResponse
confirmed = record {
  success = true;
  transaction_id = some "tx1";
  status = some "confirmed";
  hash = some code_hash;
}

abbrev answer : ChannelServiceResponse → Option HttpAnswer
answer r =
    some (record { ok = true; status = 200; parsed = some r; code = none; nested_code = none })

-- The transaction is pending at first and confirmed at the second turn; a turn takes one second.
abbrev answer_at : ℕ → Option HttpAnswer
answer_at zero = answer pending
answer_at (suc n) = answer confirmed

abbrev visits : ℕ → Visit
visits i = record { before = 2000 + 1000 * i; answer = answer_at i; after = 2000 + 1000 * i }

abbrev busy : Option HttpAnswer
busy = some (record {
  ok = false;
  status = 503;
  parsed = none;
  code = some "POOL_CAPACITY";
  nested_code = none;
})

abbrev submissions : ℕ → Visit
submissions zero = record { before = 0; answer = busy; after = 500 }
submissions (suc n) = record { before = 1500; answer = answer pending; after = 1900 }

abbrev to_visits : ChannelRequest → ℕ → Visit
to_visits (submission f auth fund) = submissions
to_visits (get_transaction id fund) = visits

abbrev channel : Channel
channel = record { visits = to_visits; submitted_at = 1900; poll_started_at = 1950 }

abbrev pub around : Surroundings
around = record {
  start_time = 0;
  relayer_network = some "testnet";
  relayers = λ i. relayer;
  verified_at = λ i. 100;
  channel = channel;
  send = λ call. none;
  sent_at = 0;
}

visits-IsClock : (end : ℕ) → IsClock visits end
visits-IsClock end = λ i. (omega arith, λ h. ground arith)

poll_transaction_status_terminates_example :
    poll_transaction_status visits 58000 "tx1" 57 0 ≢ stop tt
poll_transaction_status_terminates_example =
    poll_transaction_status_terminates visits 58000 "tx1" 56 0 (visits-IsClock 58000) (omega arith)

submit_bounded_example :
    ((submit submissions 58000 (max_submit_retries + 1) 0).1 ≤ 4)
    × ((i : ℕ)
        → i + 1 < (submit submissions 58000 (max_submit_retries + 1) 0).1
        → IsRetryable submissions 58000 i)
submit_bounded_example = submit_bounded submissions 58000

abbrev pub hash_response : SettleResponse
hash_response = success_response (some code_hash) testnet (some (text payer))

settle_sound_example : IsSettled sdk request config around 57 hash_response
unfolding settle verify_again deadline_ms settle_via_channel_service submit poll_transaction_status
    call_channel_service network_passphrase verify verify_flow check_protocol read_call sdk
    check_payment check_terms big_int choose_profile check_signatures validate_auth_entries
    all_addresses check_shapes signed_addresses is_void validate_expirations expiration_ledgers
    max_expiration check_expirations check_fee check_effects validate_simulation_events
    parse_transfer_events read_event
settle_sound_example = settle_sound sdk request config around 57 hash_response refl refl

around-HasFuel : HasFuel around config 58000 57
around-HasFuel id = (visits-IsClock 58050, omega arith)

settle_returns_example : (r : SettleResponse) × (settle sdk request config around 58 ≡ next r)
unfolding deadline_ms
settle_returns_example = settle_returns sdk request config around 57 "testnet" refl around-HasFuel

verify_for_settlement-IsVerdict_example :
    IsVerdict sdk request config around.relayers around.verified_at 58000 0 2
      (verify_for_settlement sdk request config around.relayers around.verified_at 58000)
verify_for_settlement-IsVerdict_example =
    verify_for_settlement-IsVerdict sdk request config around.relayers around.verified_at 58000
