-- ===== src/Agent/Attempt.antt =====
-- packages/sdk/src/agent-allowance.ts: one payment attempt, cut at the awaits. What stands between two
-- awaits runs at once. `time` is what `now()` gives there.
use agent_allowance.Common.{
  ◌+◌, ◌==◌, ℕ, ℤ, String, Bool, true, false, ◌||◌, ◌&&◌, Option, none, some, List, [], ◌∷◌, leb,
  or_else, if◌then◌else◌, Flow, next, stop, thrown,
}
use agent_allowance.Shared.{
  PaymentRequirements, PaymentAttempt, AllowanceRecord, created, validated, signed, submitted,
  blocked, allow, block, pending, PolicyReason, SettlementReceipt, facilitator_rejected,
  recipient_not_allowed, budget_exceeded, signer_not_authorized, duplicate_attempt,
  allowance_not_found,
}
use agent_allowance.Shared.Amounts.{codes}
use agent_allowance.Agent.Evidence.{
  Evidence, get_allowance_row, find_attempt, put_attempt, put_allowance,
}
use agent_allowance.Agent.Preflight.{Chain, refresh, preflight, is_revoked}

-- How a call of the agent ends: a receipt, a response, an error with its code, or another error.
pub data Outcome : Type 0 where
  paid : SettlementReceipt → Outcome
  response : ℕ → Outcome
  refused : PolicyReason → Outcome
  crashed : String → Outcome

-- What a call waits for: the allowance's state on the chain, the latest ledger, the simulated
-- authorization, the facilitator's verdict, its settlement, or the merchant's answer to the paid request.
pub data Phase : Type 0 where
  refreshing : AllowanceRecord → Phase
  locating building verifying : AllowanceRecord → Phase
  settling : AllowanceRecord → PaymentAttempt → Phase
  requesting : AllowanceRecord → Phase

-- `pay`, or `fetch`
pub data Mode : Type 0 where
  paying fetching : Mode

-- A call in progress; `attempt` is the record that it reserved.
pub record Run : Type 0 where
  pub mode : Mode
  pub attempt : PaymentAttempt
  pub requirements : PaymentRequirements
  pub phase : Phase

pub data Progress : Type 0 where
  ended : Outcome → Progress
  waiting : Run → Progress

-- What follows a write, which throws where the store does.
abbrev pub after_write :
    Option Evidence → Progress × Evidence → (Evidence → Progress × Evidence) → Progress × Evidence
after_write none failed k = failed
after_write (some db) failed k = k db

abbrev pub put_then :
    Evidence → PaymentAttempt → (Evidence → Progress × Evidence) → Progress × Evidence
put_then db attempt k =
    after_write (put_attempt db attempt) (ended (crashed "constraint failed"), db) k

-- `#failAttempt`
unfoldable pub fail_attempt :
    Evidence → PaymentAttempt → PolicyReason → String → String → Progress × Evidence
fail_attempt db attempt reason detail time =
    put_then db
      (record attempt {
        state = blocked;
        decision = block;
        reason_code = some reason;
        safe_detail = some detail;
        updated_at = time;
      })
      (λ db'. (ended (refused reason), db'))

-- The record that `#reserveAttempt` inserts.
abbrev pub fresh_attempt :
    String → String → String → String → String → PaymentRequirements → String → PaymentAttempt
fresh_attempt id allowance_id url reference challenge_hash requirements time = record {
  attempt_id = id;
  allowance_id = allowance_id;
  url = url;
  request_reference = reference;
  challenge_hash = challenge_hash;
  amount_atomic = requirements.amount;
  pay_to = requirements.pay_to;
  asset_contract = requirements.asset;
  state = created;
  decision = pending;
  reason_code = none;
  safe_detail = none;
  facilitator_status = none;
  tx_hash = none;
  receipt_hash = none;
  receipt = none;
  response_hash = none;
  created_at = time;
  updated_at = time;
}

-- The start of `#getAllowance`: a revoked record needs nothing of the chain.
abbrev pub look_up :
    Evidence
    → Mode
    → PaymentAttempt
    → PaymentRequirements
    → Option AllowanceRecord
    → Progress × Evidence
look_up db mode attempt requirements none = (ended (refused allowance_not_found), db)
look_up db mode attempt requirements (some allowance) = (
  waiting (record {
    mode = mode;
    attempt = attempt;
    requirements = requirements;
    phase = if is_revoked allowance.status then locating allowance else refreshing allowance;
  }),
  db,
)

abbrev pub reserve_new :
    Evidence → Mode → PaymentAttempt → PaymentRequirements → Progress × Evidence
reserve_new db mode attempt requirements =
    put_then db attempt
      (λ db'. look_up db' mode attempt requirements (get_allowance_row db' attempt.allowance_id))

abbrev pub reserve_found :
    Evidence
    → Mode
    → PaymentAttempt
    → PaymentRequirements
    → Option PaymentAttempt
    → Progress × Evidence
reserve_found db mode attempt requirements (some existing) = (ended (refused duplicate_attempt), db)
reserve_found db mode attempt requirements none = reserve_new db mode attempt requirements

-- From the call to the first await: `#reserveAttempt` and the start of `#authorizeAttempt`. `digest` is
-- the stable hash of the requirements, `id` a random UUID.
unfoldable pub reserve :
    Evidence
    → Mode
    → String
    → String
    → String
    → PaymentRequirements
    → String
    → String
    → Progress × Evidence
reserve db mode allowance_id url digest requirements id time =
    let reference = or_else requirements.extra.challenge_id digest in
    reserve_found db mode (fresh_attempt id allowance_id url reference digest requirements time)
      requirements (find_attempt db allowance_id reference)

-- After the chain's answer: the refreshed record is stored.
unfoldable pub on_chain : Evidence → Run → AllowanceRecord → Chain → String → Progress × Evidence
on_chain db run allowance chain time =
    after_write (put_allowance db (refresh allowance chain time))
      (ended (crashed "constraint failed"), db)
      (λ db'. (waiting (record run { phase = locating (refresh allowance chain time) }), db'))

abbrev pub decide :
    Evidence
    → Run
    → AllowanceRecord
    → Bool
    → (PolicyReason → String)
    → String
    → Flow PolicyReason ℤ
    → Progress × Evidence
decide db run allowance has_signer describe time (thrown m) = (ended (crashed m), db)
decide db run allowance has_signer describe time (stop r) =
    fail_attempt db run.attempt r (describe r) time
decide db run allowance has_signer describe time (next left) =
    put_then db (record run.attempt { state = validated; decision = allow; updated_at = time })
      (λ db'.
        if has_signer
        then (waiting (record run { phase = building allowance }), db')
        else fail_attempt db' run.attempt signer_not_authorized "Signer process is unavailable"
            time)

-- After the latest ledger: the preflight, and the delegated signer. `none` is a failed request, and
-- `describe` the text of the preflight's `detail`.
unfoldable pub on_latest :
    (String → Bool)
    → (PolicyReason → String)
    → Evidence
    → Run
    → AllowanceRecord
    → Option ℕ
    → String
    → Progress × Evidence
on_latest signers describe db run allowance none time = (ended (crashed "rpc"), db)
on_latest signers describe db run allowance (some ledger) time =
    decide db run allowance (signers allowance.delegated_signer) describe time
      (preflight run.requirements allowance ledger)

-- The message in lower case contains the text.
abbrev lower : ℕ → ℕ
lower c = if leb b'A' c && leb c b'Z' then c + 32 else c

starts : List ℕ → List ℕ → Bool
starts [] message = true
starts (c ∷ cs) [] = false
starts (c ∷ cs) (d ∷ ds) = c == lower d && starts cs ds

within : List ℕ → List ℕ → Bool
unfolding starts
within text [] = starts text []
within text (d ∷ ds) = starts text (d ∷ ds) || within text ds

-- The reason that the `catch` of `#authorizeAttempt` reads off the message.
unfoldable pub build_failure : String → PolicyReason
unfolding within
build_failure message =
    if within (codes "recipient") (codes message)
    then recipient_not_allowed
    else if within (codes "limit") (codes message) || within (codes "budget") (codes message)
    then budget_exceeded
    else facilitator_rejected

abbrev pub after_signing : Evidence → Run → AllowanceRecord → Mode → String → Progress × Evidence
after_signing db run allowance paying time =
    (waiting (record run { phase = verifying allowance }), db)
after_signing db run allowance fetching time =
    put_then db
      (record run.attempt {
        state = submitted;
        decision = pending;
        facilitator_status = some "merchant-verification-pending";
        updated_at = time;
      })
      (λ db'. (waiting (record run { phase = requesting allowance }), db'))

-- After `buildSmartAccountPayment`, which returns or throws a message; for `fetch`, up to the paid request.
unfoldable pub on_built :
    Evidence → Run → AllowanceRecord → Option String → String → Progress × Evidence
on_built db run allowance (some message) time =
    fail_attempt db run.attempt (build_failure message) message time
on_built db run allowance none time =
    after_write
      (put_attempt db (record run.attempt { state = signed; decision = allow; updated_at = time }))
      (fail_attempt db run.attempt (build_failure "constraint failed") "constraint failed" time)
      (λ db'. after_signing db' run allowance run.mode time)
