-- ===== src/Agent/Advance/Finish.antt =====
-- The first segment of a call, its last ones, and `reconcile`.
use agent_allowance.Common.{
  String, Bool, true, false, ◌≡◌, refl, Option, none, some, Flow, next, stop, thrown, any, arith,
  is_text, if◌then◌else◌, Option-cases, inl, inr,
}
use agent_allowance.Shared.{
  PaymentRequirements, PaymentAttempt, AllowanceRecord, SettlementReceipt, facilitator_rejected,
  resource_unlock_failed, receipt_mismatch,
}
use agent_allowance.Payer.Receipt.{
  SettleAnswer, Exchange, body, broken, settle_receipt, receipt_matches,
}
use agent_allowance.Agent.Evidence.{
  Evidence, has_key, find_attempt, put_attempt, get_allowance_row, get_attempt,
}
use agent_allowance.Agent.Evidence.Keys.{
  HasAttempt, find_attempt-none, get_attempt-none, put_attempt-HasAttempt, put_attempt-own,
}
use agent_allowance.Agent.Attempt.{
  after_write, crashed, paid, Run, Mode, Progress, ended, waiting, reserve, look_up, reserve_found,
  reserve_new,
}
use agent_allowance.Agent.System.{is_sent}
use agent_allowance.Agent.Pay.{
  PaidAnswer, on_settlement, on_receipt, leave_unknown, on_paid_answer, on_header, settled_attempt,
  reconciled, on_status, reconcile,
}
use agent_allowance.Agent.Advance.{
  Keeps, Ends, after_write-Ends, put-Keeps, put_then-Ends, fail_attempt-Ends, leave_unknown-Ends,
}

on_receipt-Ends :
    (digest : SettlementReceipt → String) (db : Evidence) (f : Run) (a : AllowanceRecord)
    (attempt : PaymentAttempt) (o : Flow ⊥ SettlementReceipt) (time : String)
    → Ends db (on_receipt digest db f a attempt o time)
on_receipt-Ends digest db f a attempt (next receipt) time =
    chosen (receipt_matches receipt f.requirements a.treasury_contract)
  where
    chosen :
        (b : Bool)
        → Ends db (
            if b
            then after_write
                (put_attempt db (settled_attempt digest attempt receipt time))
                (leave_unknown db attempt "constraint failed" time)
                (λ db'. (ended (paid receipt), db'))
            else leave_unknown db attempt
                "Settlement receipt does not match the accepted payment requirements" time)
    chosen true =
        after_write-Ends db (put_attempt db _) _ _ (put-Keeps db _)
          (leave_unknown-Ends db attempt _ time) (λ db' x r v. v)
    chosen false = leave_unknown-Ends db attempt _ time
on_receipt-Ends digest db f a attempt (stop r) time = absurd r
on_receipt-Ends digest db f a attempt (thrown m) time = leave_unknown-Ends db attempt m time

pub on_settlement-Ends :
    (digest : SettlementReceipt → String) (db : Evidence) (f : Run) (a : AllowanceRecord)
    (attempt : PaymentAttempt) (answer : Exchange SettleAnswer) (time : String)
    → Ends db (on_settlement digest db f a attempt answer time)
unfolding on_settlement
on_settlement-Ends digest db f a attempt answer time =
    on_receipt-Ends digest db f a attempt (settle_receipt answer f.requirements) time

if-Ends :
    (db : Evidence) (b : Bool) (x y : Progress × Evidence)
    → Ends db x
    → Ends db y
    → Ends db (if b then x else y)
if-Ends db true x y h k = h
if-Ends db false x y h k = k

on_header-Ends :
    (digest : SettlementReceipt → String) (db : Evidence) (f : Run) (a : AllowanceRecord)
    (answer : PaidAnswer) (o : Flow (Unit {0}) SettlementReceipt) (time : String)
    → Ends db (on_header digest db f a answer o time)
on_header-Ends digest db f a answer (next receipt) time =
    if-Ends db (receipt_matches receipt f.requirements a.treasury_contract) _ _
      (put_then-Ends db _ _ (λ db' x r v. v))
      (fail_attempt-Ends db f.attempt receipt_mismatch _ time)
on_header-Ends digest db f a answer (stop u) time =
    if-Ends db (is_text answer.error "FACILITATOR_REJECTED") _ _
      (fail_attempt-Ends db f.attempt facilitator_rejected _ time)
      (if-Ends db (is_text answer.error "SETTLEMENT_FAILED") _ _
        (leave_unknown-Ends db f.attempt answer.detail time)
        (fail_attempt-Ends db f.attempt resource_unlock_failed answer.detail time))
on_header-Ends digest db f a answer (thrown m) time = λ x r v. v

pub on_paid_answer-Ends :
    (digest : SettlementReceipt → String) (db : Evidence) (f : Run) (a : AllowanceRecord)
    (answer : Exchange PaidAnswer) (time : String)
    → Ends db (on_paid_answer digest db f a answer time)
unfolding on_paid_answer
on_paid_answer-Ends digest db f a (broken m) time = leave_unknown-Ends db f.attempt m time
on_paid_answer-Ends digest db f a (body answer) time =
    on_header-Ends digest db f a answer answer.receipt time

-- What a new call does: it ends, or it goes on with a pair that no attempt had before, and has one now.
abbrev pub Starts : Evidence → Progress × Evidence → Type 0
Starts db (ended o, db') = Keeps db db'
Starts db (waiting f, db') =
    Keeps db db'
    × (any (has_key f.attempt.allowance_id f.attempt.request_reference) db.attempts ≡ false)
    × HasAttempt db' f.attempt.allowance_id f.attempt.request_reference
    × (is_sent f.phase ≡ false)

look_up-Starts :
    (db db' : Evidence) (mode : Mode) (new : PaymentAttempt) (requirements : PaymentRequirements)
    (o : Option AllowanceRecord)
    → Keeps db db'
    → any (has_key new.allowance_id new.request_reference) db.attempts ≡ false
    → HasAttempt db' new.allowance_id new.request_reference
    → Starts db (look_up db' mode new requirements o)
look_up-Starts db db' mode new requirements none w free held = w
look_up-Starts db db' mode new requirements (some a) w free held = (w, free, held, ground arith)

reserve_new-Starts :
    (db : Evidence) (mode : Mode) (new : PaymentAttempt) (requirements : PaymentRequirements)
    → any (has_key new.allowance_id new.request_reference) db.attempts ≡ false
    → get_attempt db new.attempt_id ≡ none
    → Starts db (reserve_new db mode new requirements)
reserve_new-Starts db mode new requirements free id_free = written (put_attempt db new) refl
  where
    written :
        (o : Option Evidence)
        → put_attempt db new ≡ o
        → Starts db (
            after_write o
              (ended (crashed "constraint failed"), db)
              (λ db'. look_up db' mode new requirements (get_allowance_row db' new.allowance_id)))
    written none e = λ x r v. v
    written (some db') e =
        look_up-Starts db db' mode new requirements (get_allowance_row db' new.allowance_id)
          (put-Keeps db new db' e) free
          (put_attempt-own db db' new (get_attempt-none db new.attempt_id id_free) e)

on_status-Keeps :
    (hash_receipt : SettlementReceipt → String) (db : Evidence) (attempt : PaymentAttempt)
    (reply : Option SettlementReceipt) (time : String)
    → Keeps db (on_status hash_receipt db attempt reply time).1
unfolding on_status
on_status-Keeps hash_receipt db attempt none time a r v = v
on_status-Keeps hash_receipt db attempt (some receipt) time a r v =
    elim (Option-cases (put_attempt db (reconciled hash_receipt attempt receipt time))) [
      | inl e ↦ ground arith
      | inr (db', e) ↦ ground (arith, put_attempt-HasAttempt db db' _ a r e v)
    ]

reserve_found-Starts :
    (db : Evidence) (mode : Mode) (new : PaymentAttempt) (requirements : PaymentRequirements)
    (o : Option PaymentAttempt)
    → find_attempt db new.allowance_id new.request_reference ≡ o
    → get_attempt db new.attempt_id ≡ none
    → Starts db (reserve_found db mode new requirements o)
reserve_found-Starts db mode new requirements none e id_free =
    reserve_new-Starts db mode new requirements (find_attempt-none db _ _ e) id_free
reserve_found-Starts db mode new requirements (some row) e id_free = λ x r v. v

pub reserve-Starts :
    (db : Evidence) (mode : Mode) (allowance_id url digest : String)
    (requirements : PaymentRequirements) (id time : String)
    → get_attempt db id ≡ none
    → Starts db (reserve db mode allowance_id url digest requirements id time)
unfolding reserve
reserve-Starts db mode allowance_id url digest requirements id time id_free =
    reserve_found-Starts db mode _ requirements _ refl id_free

pub reconcile-Keeps :
    (hash_receipt : SettlementReceipt → String) (before db : Evidence) (id : String)
    (reply : Option SettlementReceipt) (time : String) (attempt : PaymentAttempt) (db' : Evidence)
    → reconcile hash_receipt before db id reply time ≡ some (attempt, db')
    → Keeps db db'
unfolding reconcile
reconcile-Keeps hash_receipt before db id reply time attempt db' h a r v =
    elim (Option-cases (get_attempt before id)) [
      | inl e ↦ ground arith
      | inr (found, e) ↦ ground (arith, on_status-Keeps hash_receipt db found reply time a r v)
    ]
