-- ===== src/Agent/Outcomes/Reconciled.antt =====
-- What a reconciliation leaves in the store.
use agent_allowance.Common.{String, true, false, ◌≡◌, Option, none, some, ◌⊎◌, ◌≢◌}
use agent_allowance.Shared.{PaymentAttempt, unknown, settled, submitted, SettlementReceipt}
use agent_allowance.Agent.Evidence.{Evidence, get_attempt, put_attempt}
use agent_allowance.Agent.Evidence.Rows.{IsStored}
use agent_allowance.Agent.Pay.{reconciled}

-- What a reconciliation of the attempt `was` answers and leaves. Nothing changes where the attempt is
-- closed, no successful receipt came or the store refuses it; otherwise an attempt that was unknown or
-- submitted is settled with that receipt, and no other attempt changes.
abbrev pub IsReconciled :
    (SettlementReceipt → String)
    → String
    → Evidence
    → Evidence
    → Option SettlementReceipt
    → PaymentAttempt
    → PaymentAttempt
    → Type 0
IsReconciled digest time db db' answer was now =
    ((now ≡ was)
      × (db' ≡ db)
      × (((was.state ≢ unknown) × (was.state ≢ submitted))
          ⊎ (((receipt : SettlementReceipt) → answer ≡ some receipt → receipt.success ≡ false)
              ⊎ ((receipt : SettlementReceipt) × (answer ≡ some receipt)
                  × (put_attempt db (reconciled digest was receipt time) ≡ none)))))
    ⊎ (((was.state ≡ unknown) ⊎ (was.state ≡ submitted))
        × ((receipt : SettlementReceipt) × (answer ≡ some receipt)
            × (receipt.success ≡ true)
            × (now.receipt ≡ some receipt)
            × (now.state ≡ settled)
            × (now.attempt_id ≡ was.attempt_id)
            × IsStored db' now
            × ((id : String) → id ≢ was.attempt_id → get_attempt db' id ≡ get_attempt db id)))
