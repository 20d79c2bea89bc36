-- ===== src/Agent/Outcomes/Paid.antt =====
-- What `fetch` leaves in the store after the paid request.
use agent_allowance.Common.{
  ◌≢◌, Option, none, String, Bool, true, false, ◌≡◌, ◌⊎◌, some, next, stop, thrown,
}
use agent_allowance.Shared.{
  AttemptState, PaymentAttempt, AllowanceRecord, PolicyReason, SettlementReceipt,
  settlement_unknown, blocked, facilitator_rejected, resource_unlock_failed, receipt_mismatch,
}
use agent_allowance.Payer.Receipt.{Exchange, body, broken, receipt_matches}
use agent_allowance.Agent.Evidence.{Evidence, put_attempt}
use agent_allowance.Agent.Evidence.Rows.{IsStored}
use agent_allowance.Agent.Attempt.{
  Outcome, response, refused, crashed, Run, Progress, ended, waiting,
}
use agent_allowance.Agent.Pay.{PaidAnswer}

module _ (digest : SettlementReceipt → String) (db : Evidence) (f : Run) (a : AllowanceRecord)
    (answer : Exchange PaidAnswer) (time : String) where
  -- The merchant's answer carries this receipt, which matches, and its status is as given.
  abbrev pub HasReceipt : PaidAnswer → SettlementReceipt → Bool → Bool → Type 0
  HasReceipt reply receipt ok matches =
      (answer ≡ body reply)
      × (reply.receipt ≡ next receipt)
      × (receipt_matches receipt f.requirements a.treasury_contract ≡ matches)
      × (reply.ok ≡ ok)

  -- The merchant's answer carries no receipt, and names this error or none of the two that are known.
  abbrev pub HasError : PaidAnswer → Option String → Type 0
  HasError reply (some error) =
      (answer ≡ body reply) × (reply.receipt ≡ stop tt) × (reply.error ≡ some error)
  HasError reply none =
      (answer ≡ body reply)
      × (reply.receipt ≡ stop tt)
      × (reply.error ≢ some "FACILITATOR_REJECTED")
      × (reply.error ≢ some "SETTLEMENT_FAILED")

  abbrev pub IsState : PaymentAttempt → AttemptState → Option PolicyReason → Type 0
  IsState new state reason =
      (new.attempt_id ≡ f.attempt.attempt_id) × (new.state ≡ state) × (new.reason_code ≡ reason)

  -- The attempt to store and how the call ends, by the answer.
  pub data IsDue (new : PaymentAttempt) (o : Outcome) : Type 0 where
    bought :
        (reply : PaidAnswer) (receipt : SettlementReceipt)
        → HasReceipt reply receipt true true
        → IsState new AttemptState.unlocked none
        → new.receipt ≡ some receipt
        → o ≡ response reply.status
        → IsDue new o
    locked :
        (reply : PaidAnswer) (receipt : SettlementReceipt)
        → HasReceipt reply receipt false true
        → IsState new AttemptState.settled (some resource_unlock_failed)
        → new.receipt ≡ some receipt
        → o ≡ refused resource_unlock_failed
        → IsDue new o
    mismatched :
        (reply : PaidAnswer) (receipt : SettlementReceipt) (ok : Bool)
        → HasReceipt reply receipt ok false
        → IsState new blocked (some receipt_mismatch)
        → o ≡ refused receipt_mismatch
        → IsDue new o
    rejected :
        (reply : PaidAnswer)
        → HasError reply (some "FACILITATOR_REJECTED")
        → IsState new blocked (some facilitator_rejected)
        → o ≡ refused facilitator_rejected
        → IsDue new o
    unsettled :
        (reply : PaidAnswer)
        → HasError reply (some "SETTLEMENT_FAILED")
        → IsState new AttemptState.unknown (some settlement_unknown)
        → o ≡ refused settlement_unknown
        → IsDue new o
    unexplained :
        (reply : PaidAnswer)
        → HasError reply none
        → IsState new blocked (some resource_unlock_failed)
        → o ≡ refused resource_unlock_failed
        → IsDue new o
    unanswered :
        (m : String)
        → answer ≡ broken m
        → IsState new AttemptState.unknown (some settlement_unknown)
        → o ≡ refused settlement_unknown
        → IsDue new o

  -- The call has stored what is due; or it crashed, with the store as it was, since the store refuses what
  -- is due or the header of the receipt does not decode.
  abbrev pub IsAnswered : Progress × Evidence → Type 0
  IsAnswered (waiting g, db') = ⊥
  IsAnswered (ended o, db') =
      ((new : PaymentAttempt) × IsDue new o × IsStored db' new)
      ⊎ ((m : String) × (o ≡ crashed m)
          × (db' ≡ db)
          × (((new : PaymentAttempt) × (due : Outcome) × IsDue new due
                × (put_attempt db new ≡ none))
              ⊎ ((reply : PaidAnswer) × (answer ≡ body reply) × (reply.receipt ≡ thrown m))))
