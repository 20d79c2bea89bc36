-- ===== src/Agent/Pay.antt =====
-- packages/sdk/src/agent-allowance.ts: the ends of `pay` and of `fetch`, and `reconcile`.
use agent_allowance.Common.{
  ℕ, String, Bool, true, false, Option, none, some, or_else, is_text, if◌then◌else◌, Flow, next,
  stop, thrown,
}
use agent_allowance.Shared.{
  PaymentAttempt, AllowanceRecord, AttemptState, submitted, settled, unlocked, unknown, allow,
  pending, Decision, SettlementReceipt, facilitator_rejected, settlement_unknown,
  resource_unlock_failed, receipt_mismatch,
}
use agent_allowance.Payer.Receipt.{
  VerifyAnswer, SettleAnswer, Exchange, body, broken, settle_receipt, receipt_matches,
}
use agent_allowance.Agent.Evidence.{Evidence, get_attempt, put_attempt}
use agent_allowance.Agent.Attempt.{
  paid, response, refused, crashed, settling, Run, Progress, ended, waiting, put_then, after_write,
  fail_attempt,
}

abbrev pub submitted_attempt : PaymentAttempt → String → PaymentAttempt
submitted_attempt attempt time = record attempt {
  state = submitted;
  decision = pending;
  facilitator_status = some "verified";
  updated_at = time;
}

-- `pay`, from the facilitator's verdict to the call of `facilitator.settle`.
unfoldable pub on_verdict :
    Evidence → Run → AllowanceRecord → Exchange VerifyAnswer → String → Progress × Evidence
on_verdict db run allowance (broken m) time = (ended (crashed m), db)
on_verdict db run allowance (body answer) time =
    let rejected =
      fail_attempt db run.attempt facilitator_rejected
        (or_else answer.invalid_reason "verify rejected") time in
    let accepted = put_then db (submitted_attempt run.attempt time) (λ db'. (
      waiting (record run { phase = settling allowance (submitted_attempt run.attempt time) }),
      db',
    )) in
    if answer.is_valid then accepted else rejected

abbrev pub unknown_attempt : PaymentAttempt → String → String → PaymentAttempt
unknown_attempt attempt detail time = record attempt {
  state = unknown;
  decision = pending;
  reason_code = some settlement_unknown;
  safe_detail = some detail;
  updated_at = time;
}

abbrev pub leave_unknown : Evidence → PaymentAttempt → String → String → Progress × Evidence
leave_unknown db attempt detail time =
    put_then db (unknown_attempt attempt detail time)
      (λ db'. (ended (refused settlement_unknown), db'))

abbrev pub settled_attempt :
    (SettlementReceipt → String) → PaymentAttempt → SettlementReceipt → String → PaymentAttempt
settled_attempt digest attempt receipt time = record attempt {
  state = settled;
  decision = allow;
  facilitator_status = some "settled";
  tx_hash = some receipt.transaction;
  receipt_hash = some (digest receipt);
  receipt = some receipt;
  updated_at = time;
}

-- The `try` around the settlement: a receipt that does not match throws, and so does the store.
abbrev pub on_receipt :
    (SettlementReceipt → String)
    → Evidence
    → Run
    → AllowanceRecord
    → PaymentAttempt
    → Flow ⊥ SettlementReceipt
    → String
    → Progress × Evidence
on_receipt digest db run allowance attempt (next receipt) time =
    if receipt_matches receipt run.requirements allowance.treasury_contract
    then after_write (put_attempt db (settled_attempt digest attempt receipt time))
        (leave_unknown db attempt "constraint failed" time) (λ db'. (ended (paid receipt), db'))
    else leave_unknown db attempt
        "Settlement receipt does not match the accepted payment requirements" time
on_receipt digest db run allowance attempt (stop r) time = absurd r
on_receipt digest db run allowance attempt (thrown m) time = leave_unknown db attempt m time

-- `pay`, from the facilitator's settlement to the end.
unfoldable pub on_settlement :
    (SettlementReceipt → String)
    → Evidence
    → Run
    → AllowanceRecord
    → PaymentAttempt
    → Exchange SettleAnswer
    → String
    → Progress × Evidence
on_settlement digest db run allowance attempt answer time =
    on_receipt digest db run allowance attempt (settle_receipt answer run.requirements) time

-- The merchant's answer to the paid request: its PAYMENT-RESPONSE header decoded, `thrown` where that
-- throws and `stop` where there is none, and what `paidResponseFailure` reads.
pub record PaidAnswer : Type 0 where
  pub ok : Bool
  pub status : ℕ
  pub receipt : Flow (Unit {0}) SettlementReceipt
  pub error : Option String
  pub reason : Option String
  pub detail : String
  pub body_hash : String

abbrev pub without_receipt : Evidence → Run → PaidAnswer → String → Progress × Evidence
without_receipt db run answer time =
    if is_text answer.error "FACILITATOR_REJECTED"
    then fail_attempt db run.attempt facilitator_rejected (or_else answer.reason answer.detail) time
    else if is_text answer.error "SETTLEMENT_FAILED"
    then leave_unknown db run.attempt answer.detail time
    else fail_attempt db run.attempt resource_unlock_failed answer.detail time

abbrev pub paid_attempt :
    (SettlementReceipt → String)
    → PaymentAttempt
    → PaidAnswer
    → SettlementReceipt
    → String
    → PaymentAttempt
paid_attempt digest attempt answer receipt time = record attempt {
  state = if answer.ok then unlocked else settled;
  decision = if answer.ok then allow else Decision.error;
  reason_code = if answer.ok then none else some resource_unlock_failed;
  facilitator_status = some "settled";
  tx_hash = some receipt.transaction;
  receipt_hash = some (digest receipt);
  receipt = some receipt;
  response_hash = if answer.ok then some answer.body_hash else none;
  updated_at = time;
}

abbrev pub with_receipt :
    (SettlementReceipt → String)
    → Evidence
    → Run
    → AllowanceRecord
    → PaidAnswer
    → SettlementReceipt
    → String
    → Progress × Evidence
with_receipt digest db run allowance answer receipt time =
    let kept = put_then db (paid_attempt digest run.attempt answer receipt time) (λ db'. (
      ended (if answer.ok then response answer.status else refused resource_unlock_failed),
      db',
    )) in
    let mismatch =
      fail_attempt db run.attempt receipt_mismatch
        "Settlement receipt does not match the accepted payment requirements" time in
    if receipt_matches receipt run.requirements allowance.treasury_contract then kept else mismatch

abbrev pub on_header :
    (SettlementReceipt → String)
    → Evidence
    → Run
    → AllowanceRecord
    → PaidAnswer
    → Flow (Unit {0}) SettlementReceipt
    → String
    → Progress × Evidence
on_header digest db run allowance answer (next receipt) time =
    with_receipt digest db run allowance answer receipt time
on_header digest db run allowance answer (stop none_given) time = without_receipt db run answer time
on_header digest db run allowance answer (thrown m) time = (ended (crashed m), db)

-- `fetch`, from the merchant's answer to the paid request to the end.
unfoldable pub on_paid_answer :
    (SettlementReceipt → String)
    → Evidence
    → Run
    → AllowanceRecord
    → Exchange PaidAnswer
    → String
    → Progress × Evidence
on_paid_answer digest db run allowance (broken m) time = leave_unknown db run.attempt m time
on_paid_answer digest db run allowance (body answer) time =
    on_header digest db run allowance answer answer.receipt time

abbrev pub is_open : AttemptState → Bool
is_open unknown = true
is_open submitted = true
is_open other = false

abbrev pub reconciled :
    (SettlementReceipt → String) → PaymentAttempt → SettlementReceipt → String → PaymentAttempt
reconciled digest attempt receipt time = record (settled_attempt digest attempt receipt time) {
  reason_code = none;
}

-- `reconcile` after the merchant's answer, of the attempt that was read before it: `none` is a failed
-- request, a status that is not OK or a body that does not parse.
unfoldable pub on_status :
    (SettlementReceipt → String)
    → Evidence
    → PaymentAttempt
    → Option SettlementReceipt
    → String
    → PaymentAttempt × Evidence
on_status digest db attempt none time = (attempt, db)
on_status digest db attempt (some receipt) time =
    if receipt.success
    then (elim (put_attempt db (reconciled digest attempt receipt time)) [
      | none ↦ (attempt, db)
      | some db' ↦ (reconciled digest attempt receipt time, db')
    ])
    else (attempt, db)

-- `reconcile`, whole: `none` is an attempt that the store does not have.
unfoldable pub reconcile :
    (SettlementReceipt → String)
    → Evidence
    → Evidence
    → String
    → Option SettlementReceipt
    → String
    → Option (PaymentAttempt × Evidence)
reconcile digest before db id answer time = elim (get_attempt before id) [
  | none ↦ none
  | some attempt ↦
      some
        (if is_open attempt.state then on_status digest db attempt answer time else (attempt, db))
]
