-- ===== src/Agent/Outcomes.antt =====
-- What a call of the agent leaves in the store, by how it goes on or ends.
pub mod Paid
pub mod Reconciled
use agent_allowance.Common.{
  subst, ℕ, String, Bool, true, false, ◌≡◌, refl, Option, none, some, Flow, next, stop, thrown,
  arith, or_else, Bool-cases, Option-cases, inl, inr, ◌⊎◌, ◌≢◌, if◌then◌else◌, find, any, ◌∷◌, List,
  [],
}
use agent_allowance.Shared.{
  PaymentRequirements, PaymentAttempt, AllowanceRecord, AttemptState, unlocked, unknown, blocked,
  settled, submitted, PolicyReason, SettlementReceipt, settlement_unknown, duplicate_attempt,
  facilitator_rejected,
}
use agent_allowance.Payer.Receipt.{
  VerifyAnswer, SettleAnswer, Exchange, body, broken, settle_receipt, receipt_matches,
}
use agent_allowance.Agent.Evidence.{
  Evidence, get_attempt, find_attempt, put_attempt, has_key, read_attempt, parse_attempt,
}
use agent_allowance.Agent.Evidence.Keys.{HasAttempt}
use agent_allowance.Agent.Evidence.Rows.{IsStored, put_attempt-IsStored, put_attempt_refines}
use agent_allowance.Agent.Attempt.{
  Outcome, paid, response, refused, crashed, Phase, settling, requesting, verifying, Mode, paying,
  fetching, Run, Progress, ended, waiting, after_write, put_then, fail_attempt, reserve,
  reserve_found, fresh_attempt, on_built, after_signing,
}
use agent_allowance.Agent.Pay.{
  submitted_attempt, on_verdict, unknown_attempt, leave_unknown, settled_attempt, on_receipt,
  on_settlement, is_open, reconcile, on_status, reconciled,
}
use agent_allowance.Agent.System.{is_sent}

-- What a write leaves, where what follows it satisfies the property, and its failure too.
pub after_write_lem :
    (P : Progress × Evidence → Type 0) (db : Evidence) (a : PaymentAttempt)
    (failed : Progress × Evidence) (k : Evidence → Progress × Evidence)
    → (put_attempt db a ≡ none → P failed)
    → ((db' : Evidence) → IsStored db' a → P (k db'))
    → P (after_write (put_attempt db a) failed k)
after_write_lem P db a failed k h g = written (put_attempt db a) refl
  where
    written : (o : Option Evidence) → put_attempt db a ≡ o → P (after_write o failed k)
    written none e = h e
    written (some db') e = g db' (put_attempt-IsStored db db' a e)

pub if_lem :
    (P : Progress × Evidence → Type 0) (b : Bool) (x y : Progress × Evidence)
    → (b ≡ true → P x)
    → (b ≡ false → P y)
    → P (if b then x else y)
if_lem P true x y h k = h refl
if_lem P false x y h k = k refl

module _ (digest : SettlementReceipt → String) (db : Evidence) (f : Run) (a : AllowanceRecord)
    (attempt : PaymentAttempt) (answer : Exchange SettleAnswer) (time : String) where
  -- The settlement gave no receipt, one that does not match, or one that the store refuses.
  abbrev pub IsLost : Type 0
  IsLost =
      ((m : String) × (settle_receipt {R = ⊥} answer f.requirements ≡ thrown m))
      ⊎ ((r : SettlementReceipt) × (settle_receipt {R = ⊥} answer f.requirements ≡ next r)
          × ((receipt_matches r f.requirements a.treasury_contract ≡ false)
              ⊎ (put_attempt db (settled_attempt digest attempt r time) ≡ none)))

  -- A receipt that is returned is the settlement's, matches the requirements and is stored with a settled
  -- attempt; a lost settlement leaves an attempt that can be reconciled; a call crashes only where the
  -- store refuses that write too, and then it writes nothing.
  abbrev pub IsReported : Progress × Evidence → Type 0
  IsReported (ended (paid r), db') =
      (settle_receipt {R = ⊥} answer f.requirements ≡ next r)
      × (receipt_matches r f.requirements a.treasury_contract ≡ true)
      × ((new : PaymentAttempt) × (new.attempt_id ≡ attempt.attempt_id)
          × (new.state ≡ settled)
          × (new.receipt ≡ some r)
          × IsStored db' new)
  IsReported (ended (refused reason), db') =
      (reason ≡ settlement_unknown)
      × IsLost
      × ((new : PaymentAttempt) × (new.attempt_id ≡ attempt.attempt_id)
          × (new.state ≡ unknown)
          × (new.reason_code ≡ some settlement_unknown)
          × IsStored db' new)
  IsReported (ended (crashed m), db') =
      (db' ≡ db)
      × IsLost
      × ((detail : String) × (put_attempt db (unknown_attempt attempt detail time) ≡ none))
  IsReported (ended (response status), db') = ⊥
  IsReported (waiting g, db') = ⊥

  leave_unknown-IsReported :
      (detail : String) → IsLost → IsReported (leave_unknown db attempt detail time)
  leave_unknown-IsReported detail l =
      after_write_lem IsReported db _ _ _ (λ e. (refl, l, (detail, e)))
        (λ db' e. (refl, l, (_, refl, refl, refl, e)))

  on_receipt-IsReported :
      (o : Flow ⊥ SettlementReceipt)
      → settle_receipt answer f.requirements ≡ o
      → IsReported (on_receipt digest db f a attempt o time)
  on_receipt-IsReported (next r) q =
      if_lem IsReported (receipt_matches r f.requirements a.treasury_contract) _ _
        (λ m.
          after_write_lem IsReported db _ _ _
            (λ e. leave_unknown-IsReported "constraint failed" (inr (r, q, inr e)))
            (λ db' e. (q, m, (_, refl, refl, refl, e))))
        (λ m. leave_unknown-IsReported _ (inr (r, q, inl m)))
  on_receipt-IsReported (stop r) q = absurd r
  on_receipt-IsReported (thrown m) q = leave_unknown-IsReported m (inl (m, q))

-- However the facilitator's settlement is answered, `pay` ends: with the settlement's receipt, which matches
-- the requirements and the treasury and is stored in a settled attempt; or, only where there is no receipt,
-- it does not match or the store refuses it, with SETTLEMENT_UNKNOWN and the attempt stored as unknown; or,
-- where the store refuses that write too, with the store as it was.
pub on_settlement-IsReported :
    (digest : SettlementReceipt → String) (db : Evidence) (f : Run) (a : AllowanceRecord)
    (attempt : PaymentAttempt) (answer : Exchange SettleAnswer) (time : String)
    → IsReported digest db f a attempt answer time (on_settlement digest db f a attempt answer time)
unfolding on_settlement
on_settlement-IsReported digest db f a attempt answer time =
    on_receipt-IsReported digest db f a attempt answer time (settle_receipt answer f.requirements)
      refl

-- A payment that is sent has a stored attempt, which is submitted and can be reconciled.
abbrev pub IsWrittenAhead : Progress × Evidence → Type 0
IsWrittenAhead (ended o, db') = Unit
IsWrittenAhead (waiting g, db') =
    is_sent g.phase ≡ true
    → (new : PaymentAttempt) × (new.attempt_id ≡ g.attempt.attempt_id)
      × (new.state ≡ submitted)
      × IsStored db' new

fail_attempt-IsWrittenAhead :
    (db : Evidence) (attempt : PaymentAttempt) (reason : PolicyReason) (detail time : String)
    → IsWrittenAhead (fail_attempt db attempt reason detail time)
unfolding fail_attempt
fail_attempt-IsWrittenAhead db attempt reason detail time =
    after_write_lem IsWrittenAhead db _ _ _ (λ e. tt) (λ db' e. tt)

after_signing-IsWrittenAhead :
    (db : Evidence) (f : Run) (a : AllowanceRecord) (mode : Mode) (time : String)
    → IsWrittenAhead (after_signing db f a mode time)
after_signing-IsWrittenAhead db f a paying time = λ h. absurd (grind arith)
after_signing-IsWrittenAhead db f a fetching time =
    after_write_lem IsWrittenAhead db _ _ _ (λ e. tt) (λ db' e h. (_, refl, refl, e))

pub on_built-IsWrittenAhead :
    (db : Evidence) (f : Run) (a : AllowanceRecord) (failure : Option String) (time : String)
    → IsWrittenAhead (on_built db f a failure time)
unfolding on_built
on_built-IsWrittenAhead db f a (some m) time = fail_attempt-IsWrittenAhead db f.attempt _ m time
on_built-IsWrittenAhead db f a none time =
    after_write_lem IsWrittenAhead db _ _ _ (λ e. fail_attempt-IsWrittenAhead db f.attempt _ _ time)
      (λ db' e. after_signing-IsWrittenAhead db' f a f.mode time)

pub on_verdict-IsWrittenAhead :
    (db : Evidence) (f : Run) (a : AllowanceRecord) (answer : Exchange VerifyAnswer) (time : String)
    → IsWrittenAhead (on_verdict db f a answer time)
unfolding on_verdict
on_verdict-IsWrittenAhead db f a (broken m) time = tt
on_verdict-IsWrittenAhead db f a (body answer) time =
    if_lem IsWrittenAhead answer.is_valid _ _
      (λ v. after_write_lem IsWrittenAhead db _ _ _ (λ e. tt) (λ db' e h. (_, refl, refl, e)))
      (λ e. fail_attempt-IsWrittenAhead db f.attempt _ _ time)

-- The only two segments that send a payment, `pay` after the facilitator's verdict and `fetch` after
-- its authorization is built, store the attempt as submitted before they send it.
pub send-IsWrittenAhead :
    (db : Evidence) (f : Run) (a : AllowanceRecord) (failure : Option String)
    (answer : Exchange VerifyAnswer) (time : String)
    → IsWrittenAhead (on_built db f a failure time) × IsWrittenAhead (on_verdict db f a answer time)
send-IsWrittenAhead db f a failure answer time =
    (on_built-IsWrittenAhead db f a failure time, on_verdict-IsWrittenAhead db f a answer time)

find-some :
    (p : PaymentAttempt → Bool) (rows : List PaymentAttempt)
    → any p rows ≡ true
    → (row : PaymentAttempt) × (find p rows ≡ some row)
find-some p [] h = cc
find-some p (row ∷ rows) h = elim (Bool-cases (p row)) [
  | inl own ↦ (row, ground arith)
  | inr other ↦ let (found, e) = find-some p rows (ground arith) in (found, ground (arith, e))
]

-- A second call for an allowance and a request that have an attempt is refused as a duplicate, in
-- whatever state that attempt is, and writes nothing.
pub reserve-duplicate :
    (db : Evidence) (mode : Mode) (allowance_id url digest : String)
    (requirements : PaymentRequirements) (id time : String)
    → HasAttempt db allowance_id (or_else requirements.extra.challenge_id digest)
    → reserve db mode allowance_id url digest requirements id time
      ≡ (ended (refused duplicate_attempt), db)
unfolding reserve find_attempt
reserve-duplicate db mode allowance_id url digest requirements id time h =
    let (row, e) =
      find-some (has_key allowance_id (or_else requirements.extra.challenge_id digest)) db.attempts
        h in
    rw e refl
