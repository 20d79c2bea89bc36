-- ===== src/Examples/Payments.antt =====
-- One paid request of the agent, by `fetch`.
use agent_allowance.Common.{
  Bool, ◌==◌, if◌then◌else◌, ◌≤◌, ◌≡◌, ◌≢◌, refl, String, true, none, some, [], ◌∷◌, arith, pos,
  next,
}
use agent_allowance.Shared.{
  AllowanceRecord, PaymentAttempt, PaymentRequirements, SettlementReceipt, PolicyReason, unlocked,
  unknown, active, duplicate_attempt,
}
use agent_allowance.Payer.Receipt.{VerifyAnswer, SettleAnswer, Exchange, body}
use agent_allowance.Agent.Preflight.{Chain, refresh, status_at, preflight}
use agent_allowance.Shared.Amounts.{big_int, parse_atomic_amount, digits_value}
use agent_allowance.Agent.Evidence.{
  Evidence, get_attempt, put_attempt, put_allowance, find_attempt, get_allowance_row,
}
use agent_allowance.Agent.Evidence.Keys.{HasAttempt}
use agent_allowance.Agent.Evidence.Rows.{IsStored, KeepsTerms, put_attempt_refines}
use agent_allowance.Agent.Attempt.{
  Phase, verifying, Run, fetching, paying, building, locating, refreshing, fresh_attempt, reserve,
  on_chain, on_latest, on_built, ended, refused,
}
use agent_allowance.Agent.Allowances.{
  CreateInput, AgentConfig, CreatedRule, create_allowance, check_create, created_record,
}
use agent_allowance.Agent.Allowances.Created.{IsCreated, create_allowance_sound}
use agent_allowance.Policy.Manifest.{is_blank}
use agent_allowance.Agent.Pay.{PaidAnswer, reconciled, on_settlement, on_verdict}
use agent_allowance.Agent.System.{
  System, Reach, here, then_step, boot, advance, begin, chain, latest, built, count,
}
use agent_allowance.Agent.Once.{send_once, send_recorded}
use agent_allowance.Agent.Outcomes.{
  IsReported, on_settlement-IsReported, IsWrittenAhead, send-IsWrittenAhead, reserve-duplicate,
}
use agent_allowance.Examples.Allowances.{allowance}
use agent_allowance.Examples.Fixtures.{
  payer, delegate, token, merchant, testnet, requirements, code_hash,
}

abbrev db : Evidence
db = record { allowances = allowance ∷ []; attempts = [] }

abbrev signers : String → Bool
signers s = true

abbrev describe : PolicyReason → String
describe r = "detail"

abbrev digest : PaymentRequirements → String
digest r = "digest"

abbrev receipt_digest : SettlementReceipt → String
receipt_digest r = "receipt"

abbrev started : System
started =
    advance (boot db) 0 (reserve db fetching "4" "https://shop" "digest" requirements "a1" "t0")

abbrev attempt : PaymentAttempt
attempt = fresh_attempt "a1" "4" "https://shop" "c1" "digest" requirements "t0"

abbrev fresh : AllowanceRecord
fresh = record allowance { updated_at = "t1" }

abbrev at_phase : Phase → Run
at_phase p = record { mode = fetching; attempt = attempt; requirements = requirements; phase = p }

abbrev asked : Chain
asked = some (4000, some "40")

abbrev refreshed : System
refreshed =
    advance started 0 (on_chain started.db (at_phase (refreshing allowance)) allowance asked "t1")

abbrev approved : System
approved =
    advance refreshed 0
      (on_latest signers describe refreshed.db (at_phase (locating fresh)) fresh (some 4000) "t2")

abbrev sending : System
sending = advance approved 0 (on_built approved.db (at_phase (building fresh)) fresh none "t3")

abbrev reach_sending : Reach signers describe digest receipt_digest (boot db) sending
unfolding reserve find_attempt put_attempt get_allowance_row get_attempt on_chain refresh status_at
    big_int put_allowance on_latest preflight parse_atomic_amount
reach_sending =
    then_step
      (then_step
        (then_step
          (then_step here (begin 0 fetching "4" "https://shop" "a1" "t0" requirements refl refl))
          (chain 0 (at_phase (refreshing allowance)) allowance asked "t1" refl refl))
        (latest 0 (at_phase (locating fresh)) fresh (some 4000) "t2" refl refl))
      (built 0 (at_phase (building fresh)) fresh none "t3" refl refl)

send_once_example : count "4" "c1" sending.sent ≤ 1
send_once_example = send_once signers describe digest receipt_digest db "4" "c1" reach_sending

send_recorded_example : HasAttempt sending.db "4" "c1"
unfolding reserve find_attempt put_attempt get_allowance_row on_chain refresh status_at big_int
    put_allowance on_latest preflight parse_atomic_amount on_built
send_recorded_example =
    send_recorded signers describe digest receipt_digest db "4" "c1" reach_sending (omega arith)

reserve-duplicate_example :
    reserve sending.db paying "4" "https://shop" "digest" requirements "a2" "t4"
    ≡ (ended (refused duplicate_attempt), sending.db)
unfolding reserve find_attempt put_attempt get_allowance_row on_chain refresh status_at big_int
    put_allowance on_latest preflight parse_atomic_amount on_built
reserve-duplicate_example =
    reserve-duplicate sending.db paying "4" "https://shop" "digest" requirements "a2" "t4" refl

-- The store after `pay` has called the facilitator.
abbrev one : Evidence
one = record { allowances = allowance ∷ []; attempts = attempt ∷ [] }

abbrev accepted : Exchange VerifyAnswer
accepted = body (record { is_valid = true; payer = some payer; invalid_reason = none })

send-IsWrittenAhead_example :
    IsWrittenAhead (on_built one (at_phase (building allowance)) allowance none "t3")
    × IsWrittenAhead (on_verdict one (at_phase (building allowance)) allowance accepted "t3")
send-IsWrittenAhead_example =
    send-IsWrittenAhead one (at_phase (building allowance)) allowance none accepted "t3"

abbrev settlement : Exchange SettleAnswer
settlement = body (record {
  success = some true;
  error_reason = none;
  transaction = some code_hash;
  payer = some payer;
})

on_settlement-IsReported_example :
    IsReported receipt_digest one
      (at_phase (verifying allowance))
      allowance
      attempt
      settlement
      "t4"
      (on_settlement receipt_digest one
        (at_phase (verifying allowance))
        allowance
        attempt
        settlement
        "t4")
on_settlement-IsReported_example =
    on_settlement-IsReported receipt_digest one (at_phase (verifying allowance)) allowance attempt
      settlement "t4"

abbrev unlocked_attempt : PaymentAttempt
unlocked_attempt = record attempt { state = unlocked }

abbrev done : Evidence
done = record { allowances = allowance ∷ []; attempts = unlocked_attempt ∷ [] }

put_attempt_refines_example :
    IsStored done unlocked_attempt
    × KeepsTerms one done unlocked_attempt
    × ((id : String) → id ≢ "a1" → get_attempt done id ≡ get_attempt one id)
unfolding put_attempt
put_attempt_refines_example = put_attempt_refines one done unlocked_attempt refl

abbrev receipt : SettlementReceipt
receipt = record {
  success = true;
  transaction = code_hash;
  network = testnet;
  payer = payer;
  amount = "5";
  asset = token;
  pay_to = merchant;
  challenge_id = "c1";
}

abbrev paid_answer : PaidAnswer
paid_answer = record {
  ok = true;
  status = 200;
  receipt = next receipt;
  error = none;
  reason = none;
  detail = "";
  body_hash = "body";
}

-- An attempt whose settlement is unknown, and a receipt for another merchant.
abbrev unsure : PaymentAttempt
unsure = record attempt { state = unknown }

abbrev before : Evidence
before = record { allowances = allowance ∷ []; attempts = unsure ∷ [] }

abbrev other_receipt : SettlementReceipt
other_receipt = record receipt { pay_to = "GOTHER" }

abbrev after : Evidence
after = record before { attempts = reconciled receipt_digest unsure other_receipt "t5" ∷ [] }

abbrev input : CreateInput
input = record {
  label = "research";
  delegated_signer = delegate;
  max_spend_atomic = "100";
  window_seconds = pos 3601;
  allowed_recipients = merchant ∷ [];
  expires_in_seconds = pos 86400;
}

abbrev agent_config : AgentConfig
agent_config = record {
  network = testnet;
  treasury_contract = payer;
  asset_contract = token;
  public_key = λ s. some s;
  is_address = λ s. true;
  decimal = λ n. if n == 4 then "4" else "100";
}

abbrev rule : CreatedRule
rule = record { context_rule_id = 4; transaction_hash = code_hash }

abbrev created_allowance : AllowanceRecord
created_allowance = record {
  allowance_id = "4";
  label = "research";
  network = testnet;
  treasury_contract = payer;
  asset_contract = token;
  delegated_signer = delegate;
  max_spend_atomic = "100";
  spent_atomic = "0";
  window_ledgers = 721;
  allowed_recipients = merchant ∷ [];
  valid_until_ledger = 21280;
  context_rule_id = 4;
  create_tx_hash = some code_hash;
  revoke_tx_hash = none;
  status = active;
  created_at = "t0";
  updated_at = "t0";
}

create_allowance_sound_example :
    IsCreated agent_config input
      (some 4000)
      (some rule)
      "t0"
      (record { allowances = []; attempts = [] })
      created_allowance
      (record { allowances = created_allowance ∷ []; attempts = [] })
unfolding create_allowance check_create created_record put_allowance is_blank parse_atomic_amount
    digits_value
create_allowance_sound_example =
    create_allowance_sound agent_config input (some 4000) (some rule) "t0"
      (record { allowances = []; attempts = [] }) created_allowance
      (record { allowances = created_allowance ∷ []; attempts = [] }) refl
