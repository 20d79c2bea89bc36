-- ===== src/Agent/System.antt =====
-- An agent with any number of calls in progress over one store, as a step relation.
use agent_allowance.Common.{
  ℕ, ◌+◌, String, Bool, true, false, ◌&&◌, Option, none, some, List, [], ◌∷◌, ◌===◌, ◌==◌, ◌≡◌,
  if◌then◌else◌,
}
use agent_allowance.Shared.{
  PaymentRequirements, PaymentAttempt, AllowanceRecord, PolicyReason, SettlementReceipt,
}
use agent_allowance.Payer.Receipt.{VerifyAnswer, SettleAnswer, Exchange}
use agent_allowance.Agent.Preflight.{Chain}
use agent_allowance.Agent.Evidence.{Evidence, get_attempt, put_allowance}
use agent_allowance.Agent.Attempt.{
  Phase, refreshing, locating, building, verifying, settling, requesting, Mode, Run, Progress,
  ended, waiting, reserve, on_chain, on_latest, on_built,
}
use agent_allowance.Agent.Pay.{PaidAnswer, on_verdict, on_settlement, on_paid_answer, reconcile}

-- The payments that were sent, the latest first: to `facilitator.settle`, or to the merchant with
-- PAYMENT-SIGNATURE; each by its allowance and its request.
pub record System : Type 0 where
  pub db : Evidence
  pub runs : ℕ → Option Run
  pub sent : List (String × String)

-- The payment of this phase was sent.
abbrev pub is_sent : Phase → Bool
is_sent (settling allowance attempt) = true
is_sent (requesting allowance) = true
is_sent other = false

abbrev pub count : String → String → List (String × String) → ℕ
count a r [] = 0
count a r ((b, q) ∷ sent) =
    let rest = count a r sent in if b === a && q === r then rest + 1 else rest

abbrev pub park : (ℕ → Option Run) → ℕ → Progress → ℕ → Option Run
park runs n (ended o) k = if k == n then none else runs k
park runs n (waiting f) k = if k == n then some f else runs k

abbrev pub log : Progress → List (String × String) → List (String × String)
log (ended o) sent = sent
log (waiting f) sent =
    if is_sent f.phase then (f.attempt.allowance_id, f.attempt.request_reference) ∷ sent else sent

abbrev pub advance : System → ℕ → Progress × Evidence → System
advance s n (p, db) = record { db = db; runs = park s.runs n p; sent = log p s.sent }

abbrev pub drop : System → ℕ → System
drop s n = record s { runs = λ k. if k == n then none else s.runs k }

module _ (signers : String → Bool) (describe : PolicyReason → String)
    (hash_requirements : PaymentRequirements → String)
    (hash_receipt : SettlementReceipt → String) where
  -- The UUID of a new attempt is none that the store has.
  pub data Step (s : System) : System → Type 0 where
    begin :
        (n : ℕ) (mode : Mode) (allowance_id url id time : String)
        (requirements : PaymentRequirements)
        → s.runs n ≡ none
        → get_attempt s.db id ≡ none
        → Step s (
            advance s n (
              reserve s.db mode allowance_id url
                (hash_requirements requirements)
                requirements
                id
                time))
    chain :
        (n : ℕ) (f : Run) (a : AllowanceRecord) (answer : Chain) (time : String)
        → s.runs n ≡ some f
        → f.phase ≡ refreshing a
        → Step s (advance s n (on_chain s.db f a answer time))
    latest :
        (n : ℕ) (f : Run) (a : AllowanceRecord) (ledger : Option ℕ) (time : String)
        → s.runs n ≡ some f
        → f.phase ≡ locating a
        → Step s (advance s n (on_latest signers describe s.db f a ledger time))
    built :
        (n : ℕ) (f : Run) (a : AllowanceRecord) (failure : Option String) (time : String)
        → s.runs n ≡ some f
        → f.phase ≡ building a
        → Step s (advance s n (on_built s.db f a failure time))
    verdict :
        (n : ℕ) (f : Run) (a : AllowanceRecord) (answer : Exchange VerifyAnswer) (time : String)
        → s.runs n ≡ some f
        → f.phase ≡ verifying a
        → Step s (advance s n (on_verdict s.db f a answer time))
    settlement :
        (n : ℕ) (f : Run) (a : AllowanceRecord) (attempt : PaymentAttempt)
        (answer : Exchange SettleAnswer) (time : String)
        → s.runs n ≡ some f
        → f.phase ≡ settling a attempt
        → Step s (advance s n (on_settlement hash_receipt s.db f a attempt answer time))
    answer :
        (n : ℕ) (f : Run) (a : AllowanceRecord) (reply : Exchange PaidAnswer) (time : String)
        → s.runs n ≡ some f
        → f.phase ≡ requesting a
        → Step s (advance s n (on_paid_answer hash_receipt s.db f a reply time))
    reconciles :
        (before : Evidence) (id : String) (reply : Option SettlementReceipt) (time : String)
        (attempt : PaymentAttempt) (db : Evidence)
        → reconcile hash_receipt before s.db id reply time ≡ some (attempt, db)
        → Step s (record s { db = db })
    -- `allowances.create`, `get` and `revoke` end with such a write.
    keeps_allowance :
        (a : AllowanceRecord) (db : Evidence)
        → put_allowance s.db a ≡ some db
        → Step s (record s { db = db })
    lost : (n : ℕ) → Step s (drop s n)

  pub data Reach (s : System) : System → Type 0 where
    here : Reach s s
    then_step : {t u : System} → Reach s t → Step t u → Reach s u

-- The agent as it starts, on a store that may hold attempts of earlier processes.
abbrev pub boot : Evidence → System
boot db = record { db = db; runs = λ n. none; sent = [] }
