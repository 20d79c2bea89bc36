-- ===== src/DemoApi/System.antt =====
-- The merchant's service with any number of requests in progress, as a step relation.
use agent_allowance.Common.{ℕ, String, Option, none, some, List, [], ◌∷◌, ◌==◌, if◌then◌else◌, ◌≡◌}
use agent_allowance.Shared.{StellarPaymentPayload}
use agent_allowance.Payer.Receipt.{VerifyAnswer, SettleAnswer, Exchange}
use agent_allowance.DemoApi.Table.{Store}
use agent_allowance.DemoApi.{
  DemoApiConfig, Flight, Phase, verifying, settling, Progress, replied, waiting, issue_challenge,
  start, on_verified, on_settled,
}

-- The table, the requests that wait by their number, and the challenges for which
-- `facilitator.settle` was called, the latest first.
pub record System : Type 0 where
  pub db : Store
  pub flights : ℕ → Option Flight
  pub settle_calls : List String

abbrev pub park : (ℕ → Option Flight) → ℕ → Progress → ℕ → Option Flight
park flights n (replied r) k = if k == n then none else flights k
park flights n (waiting f) k = if k == n then some f else flights k

abbrev log_phase : Phase → String → List String → List String
log_phase verifying id calls = calls
log_phase (settling payer) id calls = id ∷ calls

-- A request that goes on to `settling` calls `facilitator.settle`.
abbrev pub log : Progress → List String → List String
log (replied r) calls = calls
log (waiting f) calls = log_phase f.phase f.id calls

-- The system after request `n` has made progress.
abbrev pub advance : System → ℕ → Progress × Store → System
advance s n (p, db) = record {
  db = db;
  flights = park s.flights n p;
  settle_calls = log p s.settle_calls;
}

-- A request that is lost, as when the process ends.
abbrev pub drop : System → ℕ → System
drop s n = record s { flights = λ k. if k == n then none else s.flights k }

module _ (parse : String → Option StellarPaymentPayload) (stable_hash : String → String)
    (address_type : String → Option String) where
  pub data Step (s : System) : System → Type 0 where
    issue :
        (config : DemoApiConfig) (id : String) (scenario : Option String) (now : ℕ)
        → Step s (record s { db = (issue_challenge config s.db id scenario now).1 })
    begin :
        (n : ℕ) (header : String) (now : ℕ)
        → s.flights n ≡ none
        → Step s (advance s n (start parse stable_hash s.db header now))
    verified :
        (n : ℕ) (f : Flight) (answer : Exchange VerifyAnswer)
        → s.flights n ≡ some f
        → f.phase ≡ verifying
        → Step s (advance s n (on_verified address_type s.db f answer))
    settled :
        (n : ℕ) (f : Flight) (payer : String) (answer : Exchange SettleAnswer)
        → s.flights n ≡ some f
        → f.phase ≡ settling payer
        → Step s (advance s n (on_settled s.db f payer answer))
    lost : (n : ℕ) → Step s (drop s n)

  pub data Reach (s : System) : System → Type 0 where
    here : Reach s s
    then_step : {t u : System} → Reach s t → Step t u → Reach s u

abbrev pub boot : System
boot = record { db = λ k. none; flights = λ n. none; settle_calls = [] }
