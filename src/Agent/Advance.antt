-- ===== src/Agent/Advance.antt =====
-- What each segment of a call does to the store's pairs and to the call.
pub mod Finish
use agent_allowance.Common.{
  ℕ, ℤ, String, Bool, true, false, not, ◌≡◌, refl, Option, none, some, List, [], ◌∷◌, Flow, next,
  stop, thrown, Option-cases, Bool-cases, inl, inr, ◌⊎◌, any, or_else, arith, eq_iff, is_text,
  if◌then◌else◌, ===_refl, ◌&&◌, ◌===◌,
}
use agent_allowance.Shared.{
  PaymentRequirements, PaymentAttempt, AllowanceRecord, PolicyReason, SettlementReceipt,
  facilitator_rejected,
}
use agent_allowance.Payer.Receipt.{
  VerifyAnswer, SettleAnswer, Exchange, body, broken, settle_receipt, receipt_matches,
}
use agent_allowance.Agent.Preflight.{Chain, refresh, preflight}
use agent_allowance.Agent.Evidence.{
  Evidence, has_key, find_attempt, put_attempt, put_allowance, get_allowance_row, get_attempt,
}
use agent_allowance.Agent.Evidence.Keys.{
  HasAttempt, find_attempt-none, put_attempt-HasAttempt, put_allowance-HasAttempt,
}
use agent_allowance.Agent.Attempt.{
  Outcome, Phase, settling, Run, Mode, paying, fetching, Progress, ended, waiting, put_then,
  after_write, fail_attempt, fresh_attempt, reserve, on_chain, on_latest, on_built, decide,
  after_signing, look_up, reserve_new,
}
use agent_allowance.Agent.Pay.{
  submitted_attempt, without_receipt, with_receipt, on_header, PaidAnswer, on_verdict,
  on_settlement, on_receipt, leave_unknown, on_paid_answer, on_status, reconcile,
}

abbrev pub Keeps : Evidence → Evidence → Type 0
Keeps db db' = (a r : String) → HasAttempt db a r → HasAttempt db' a r

-- The call ends, or goes on with the attempt that it reserved; no pair is lost.
abbrev pub Advances : Evidence → PaymentAttempt → Progress × Evidence → Type 0
Advances db attempt (ended o, db') = Keeps db db'
Advances db attempt (waiting g, db') = Keeps db db' × (g.attempt ≡ attempt)

-- The call ends.
abbrev pub Ends : Evidence → Progress × Evidence → Type 0
Ends db (ended o, db') = Keeps db db'
Ends db (waiting g, db') = ⊥

Keeps-trans : (a b c : Evidence) → Keeps a b → Keeps b c → Keeps a c
Keeps-trans a b c h k x y v = k x y (h x y v)

from-Advances :
    (a b : Evidence) (attempt : PaymentAttempt) (r : Progress × Evidence)
    → Keeps a b
    → Advances b attempt r
    → Advances a attempt r
from-Advances a b attempt (ended o, c) h k = Keeps-trans a b c h k
from-Advances a b attempt (waiting g, c) h (k, e) = (Keeps-trans a b c h k, e)

from-Ends : (a b : Evidence) (r : Progress × Evidence) → Keeps a b → Ends b r → Ends a r
from-Ends a b (ended o, c) h k = Keeps-trans a b c h k
from-Ends a b (waiting g, c) h k = absurd k

Ends-Advances :
    (db : Evidence) (attempt : PaymentAttempt) (r : Progress × Evidence)
    → Ends db r
    → Advances db attempt r
Ends-Advances db attempt (ended o, c) h = h
Ends-Advances db attempt (waiting g, c) h = absurd h

-- What follows a write that keeps the pairs.
after_write-Advances :
    (db : Evidence) (attempt : PaymentAttempt) (o : Option Evidence) (failed : Progress × Evidence)
    (k : Evidence → Progress × Evidence)
    → ((db' : Evidence) → o ≡ some db' → Keeps db db')
    → Advances db attempt failed
    → ((db' : Evidence) → Advances db' attempt (k db'))
    → Advances db attempt (after_write o failed k)
after_write-Advances db attempt none failed k w h g = h
after_write-Advances db attempt (some db') failed k w h g =
    from-Advances db db' attempt (k db') (w db' refl) (g db')

after_write-Ends :
    (db : Evidence) (o : Option Evidence) (failed : Progress × Evidence)
    (k : Evidence → Progress × Evidence)
    → ((db' : Evidence) → o ≡ some db' → Keeps db db')
    → Ends db failed
    → ((db' : Evidence) → Ends db' (k db'))
    → Ends db (after_write o failed k)
after_write-Ends db none failed k w h g = h
after_write-Ends db (some db') failed k w h g = from-Ends db db' (k db') (w db' refl) (g db')

module _ (db : Evidence) (new : PaymentAttempt) where
  put-Keeps : (db' : Evidence) → put_attempt db new ≡ some db' → Keeps db db'
  put-Keeps db' e a r v = put_attempt-HasAttempt db db' new a r e v

  put_then-Advances :
      (attempt : PaymentAttempt) (k : Evidence → Progress × Evidence)
      → ((db' : Evidence) → Advances db' attempt (k db'))
      → Advances db attempt (put_then db new k)
  put_then-Advances attempt k h =
      after_write-Advances db attempt (put_attempt db new) _ k put-Keeps (λ a r v. v) h

  put_then-Ends :
      (k : Evidence → Progress × Evidence)
      → ((db' : Evidence) → Ends db' (k db'))
      → Ends db (put_then db new k)
  put_then-Ends k h = after_write-Ends db (put_attempt db new) _ k put-Keeps (λ a r v. v) h

fail_attempt-Ends :
    (db : Evidence) (attempt : PaymentAttempt) (reason : PolicyReason) (detail time : String)
    → Ends db (fail_attempt db attempt reason detail time)
unfolding fail_attempt
fail_attempt-Ends db attempt reason detail time = put_then-Ends db _ _ (λ db' a r v. v)

fail_attempt-Advances :
    (db : Evidence) (attempt new : PaymentAttempt) (reason : PolicyReason) (detail time : String)
    → Advances db attempt (fail_attempt db new reason detail time)
fail_attempt-Advances db attempt new reason detail time =
    Ends-Advances db attempt _ (fail_attempt-Ends db new reason detail time)

leave_unknown-Ends :
    (db : Evidence) (attempt : PaymentAttempt) (detail time : String)
    → Ends db (leave_unknown db attempt detail time)
leave_unknown-Ends db attempt detail time = put_then-Ends db _ _ (λ db' a r v. v)

pub on_chain-Advances :
    (db : Evidence) (f : Run) (a : AllowanceRecord) (chain : Chain) (time : String)
    → Advances db f.attempt (on_chain db f a chain time)
unfolding on_chain
on_chain-Advances db f a chain time =
    after_write-Advances db f.attempt (put_allowance db (refresh a chain time)) _ _
      (λ db' e x r v. put_allowance-HasAttempt db db' (refresh a chain time) x r e v) (λ x r v. v)
      (λ db'. ((λ x r v. v), refl))

decide-Advances :
    (db : Evidence) (f : Run) (a : AllowanceRecord) (has_signer : Bool)
    (describe : PolicyReason → String) (time : String) (d : Flow PolicyReason ℤ)
    → Advances db f.attempt (decide db f a has_signer describe time d)
decide-Advances db f a has_signer describe time (thrown m) = λ x r v. v
decide-Advances db f a has_signer describe time (stop r) =
    fail_attempt-Advances db f.attempt f.attempt r (describe r) time
decide-Advances db f a true describe time (next left) =
    put_then-Advances db _ f.attempt _ (λ db'. ((λ x r v. v), refl))
decide-Advances db f a false describe time (next left) =
    put_then-Advances db _ f.attempt _
      (λ db'. fail_attempt-Advances db' f.attempt f.attempt _ _ time)

pub on_latest-Advances :
    (signers : String → Bool) (describe : PolicyReason → String) (db : Evidence) (f : Run)
    (a : AllowanceRecord) (ledger : Option ℕ) (time : String)
    → Advances db f.attempt (on_latest signers describe db f a ledger time)
unfolding on_latest
on_latest-Advances signers describe db f a none time = λ x r v. v
on_latest-Advances signers describe db f a (some ledger) time =
    decide-Advances db f a (signers a.delegated_signer) describe time _

after_signing-Advances :
    (db : Evidence) (f : Run) (a : AllowanceRecord) (mode : Mode) (time : String)
    → Advances db f.attempt (after_signing db f a mode time)
after_signing-Advances db f a paying time = ((λ x r v. v), refl)
after_signing-Advances db f a fetching time =
    put_then-Advances db _ f.attempt _ (λ db'. ((λ x r v. v), refl))

pub on_built-Advances :
    (db : Evidence) (f : Run) (a : AllowanceRecord) (failure : Option String) (time : String)
    → Advances db f.attempt (on_built db f a failure time)
unfolding on_built
on_built-Advances db f a (some m) time = fail_attempt-Advances db f.attempt f.attempt _ m time
on_built-Advances db f a none time =
    after_write-Advances db f.attempt (put_attempt db _) _ _ (put-Keeps db _)
      (fail_attempt-Advances db f.attempt f.attempt _ _ time)
      (λ db'. after_signing-Advances db' f a f.mode time)

pub on_verdict-Advances :
    (db : Evidence) (f : Run) (a : AllowanceRecord) (answer : Exchange VerifyAnswer) (time : String)
    → Advances db f.attempt (on_verdict db f a answer time)
unfolding on_verdict
on_verdict-Advances db f a (broken m) time = λ x r v. v
on_verdict-Advances db f a (body answer) time = chosen answer.is_valid
  where
    chosen :
        (b : Bool)
        → Advances db f.attempt (
            if b
            then put_then db (submitted_attempt f.attempt time) (λ db'.
              (waiting (record f { phase = settling a (submitted_attempt f.attempt time) }), db'))
            else fail_attempt db f.attempt facilitator_rejected
                (or_else answer.invalid_reason "verify rejected")
                time)
    chosen true = put_then-Advances db _ f.attempt _ (λ db'. ((λ x r v. v), refl))
    chosen false = fail_attempt-Advances db f.attempt f.attempt facilitator_rejected _ time
