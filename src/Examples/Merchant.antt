-- ===== src/Examples/Merchant.antt =====
-- The merchant's service with one paid request.
use agent_allowance.Shared.Challenge.{decode_payment_signature}
use agent_allowance.Common.{◌===◌, ◌&&◌, ℕ, ◌≤◌, String, none, some, true, refl, ◌≡◌, ◌≢◌, Option}
use agent_allowance.Shared.{StellarPaymentPayload, SettlementReceipt}
use agent_allowance.Payer.Receipt.Laws.{receipt_matches-settle_receipt}
use agent_allowance.Payer.Receipt.{
  settle_receipt, is_sha256, VerifyAnswer, SettleAnswer, Exchange, body, receipt_matches,
}
use agent_allowance.DemoApi.Table.{Store, Row, claim, settled}
use agent_allowance.DemoApi.Table.Laws.{Held}
use agent_allowance.DemoApi.{
  same_requirements, DemoApiConfig, Flight, verifying, unlocked, on_settled, payment_status, start,
  on_verified, issue_challenge,
}
use agent_allowance.DemoApi.System.{
  System, issue, begin, verified, Reach, here, then_step, advance, boot,
}
use agent_allowance.DemoApi.Safe.{count}
use agent_allowance.DemoApi.Once.{settle_once, wait_alone}
use agent_allowance.DemoApi.Unlock.{on_settled-unlocked}
use agent_allowance.Examples.Fixtures.{
  payer, token, merchant, testnet, code_hash, requirements, envelope,
}

abbrev payload : StellarPaymentPayload
payload = record { x402_version = 2; accepted = requirements; transaction = envelope }

-- One header, and its digest.
abbrev header : String
header = "cGF5"

abbrev parse : String → Option StellarPaymentPayload
parse s = some payload

abbrev digest : String → String
digest s = "digest"

abbrev kind_of : String → Option String
kind_of s = some "contract"

abbrev config : DemoApiConfig
config = record {
  network = testnet;
  asset_contract = token;
  merchant = merchant;
  unapproved_recipient = "GOTHER";
  amount_atomic = "5";
  over_limit_amount_atomic = "50";
}

abbrev issued : Store
issued = (issue_challenge config boot.db "c1" none 0).1

abbrev first : System
first = record boot { db = issued }

abbrev waiting_system : System
waiting_system = advance first 0 (start parse digest issued header 10)

abbrev reach_waiting : Reach parse digest kind_of boot waiting_system
reach_waiting = then_step (then_step here (issue config "c1" none 0)) (begin 0 header 10 refl)

abbrev flight : Flight
flight = record {
  id = "c1";
  payload_hash = "digest";
  payload = payload;
  requirements = requirements;
  phase = verifying;
}

abbrev accepted : Exchange VerifyAnswer
accepted = body (record { is_valid = true; payer = some payer; invalid_reason = none })

abbrev settling_system : System
settling_system = advance waiting_system 0 (on_verified kind_of waiting_system.db flight accepted)

settle_once_example : count "c1" settling_system.settle_calls ≤ 1
unfolding start issue_challenge decode_payment_signature same_requirements claim
settle_once_example =
    settle_once parse digest kind_of "c1"
      (then_step reach_waiting (verified 0 flight accepted refl refl))

wait_alone_example : (◌≡◌ {A = ℕ} 0 0) × Held (waiting_system.db "c1") "digest"
unfolding start issue_challenge decode_payment_signature same_requirements claim
wait_alone_example = wait_alone parse digest kind_of 0 0 flight flight reach_waiting refl refl refl

abbrev held_row : Row
held_row = record {
  requirements = requirements;
  expires_at = 60000;
  payload_hash = some "digest";
  receipt = none;
}

abbrev held_table : Store
held_table k = some held_row

abbrev receipt : SettlementReceipt
receipt = record {
  success = true;
  transaction = code_hash;
  network = testnet;
  payer = payer;
  amount = "5";
  asset = token;
  pay_to = merchant;
  challenge_id = "c1";
}

abbrev settlement : Exchange SettleAnswer
settlement = body (record {
  success = some true;
  error_reason = none;
  transaction = some code_hash;
  payer = some payer;
})

digest_given : ◌≢◌ {A = String} "digest" ""
digest_given e = cc

abbrev after : Store
after = (on_settled held_table flight payer settlement).1

on_settled-unlocked_example :
    (receipt_matches receipt requirements payer ≡ true)
    × (claim after "c1" "digest" ≡ (settled receipt, after))
    × (payment_status after "c1" ≡ unlocked receipt)
unfolding on_settled settle_receipt receipt_matches is_sha256
on_settled-unlocked_example =
    on_settled-unlocked held_table flight payer settlement receipt after (refl, refl) digest_given
      refl

receipt_matches-settle_receipt_example :
    receipt_matches receipt requirements payer ≡ (payer === payer && is_sha256 code_hash)
unfolding settle_receipt
receipt_matches-settle_receipt_example =
    receipt_matches-settle_receipt {R = ⊥} settlement requirements receipt payer refl
