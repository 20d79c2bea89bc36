-- ===== src/Agent/Once.antt =====
-- Whatever the interleaving of calls, an agent sends a payment at most once.
use agent_allowance.Common.{
  ℕ, ◌≤◌, ◌<◌, String, Bool, false, ◌≡◌, refl, inl, inr, some, subst, Zero-cases, sym,
}
use agent_allowance.Shared.{PaymentRequirements, SettlementReceipt, PolicyReason}
use agent_allowance.Agent.Evidence.{Evidence}
use agent_allowance.Agent.Evidence.Keys.{HasAttempt, put_allowance-HasAttempt}
use agent_allowance.Agent.Attempt.{
  Outcome, Phase, refreshing, locating, building, verifying, Run, Progress, ended, waiting,
}
use agent_allowance.Agent.System.{
  System, is_sent, count, advance, boot, Step, begin, chain, latest, built, verdict, settlement,
  answer, reconciles, keeps_allowance, lost, Reach, here, then_step,
}
use agent_allowance.Agent.Advance.{
  Keeps, Advances, Ends, on_chain-Advances, on_latest-Advances, on_built-Advances,
  on_verdict-Advances,
}
use agent_allowance.Agent.Advance.Finish.{
  Starts, reserve-Starts, on_settlement-Ends, on_paid_answer-Ends, reconcile-Keeps,
}
use agent_allowance.Agent.Safe.{
  Inv, Own, own_count, SamePair, boot-Inv, store-Inv, drop-Inv, park-Inv,
}

-- Call `n` ends.
ended-Inv :
    (s : System) (n : ℕ) (o : Outcome) (db' : Evidence)
    → Inv s
    → Keeps s.db db'
    → Inv (advance s n (ended o, db'))
ended-Inv s n o db' v k = drop-Inv (record s { db = db' }) n (store-Inv s db' v k)

Ends-Inv :
    (s : System) (n : ℕ) (p : Progress × Evidence) → Inv s → Ends s.db p → Inv (advance s n p)
Ends-Inv s n (ended o, db') v k = ended-Inv s n o db' v k
Ends-Inv s n (waiting g, db') v k = absurd k

-- A call whose payment was not sent goes on with it, and may send it.
Advances-Inv :
    (s : System) (n : ℕ) (f : Run) (p : Progress × Evidence)
    → Inv s
    → s.runs n ≡ some f
    → is_sent f.phase ≡ false
    → Advances s.db f.attempt p
    → Inv (advance s n p)
Advances-Inv s n f (ended o, db') v at quiet k = ended-Inv s n o db' v k
Advances-Inv s n f (waiting g, db') v at quiet (k, e) =
    park-Inv (record s { db = db' }) n g (store-Inv s db' v k)
      (λ m h ne was same.
        ne (v.single m n h f was at (subst (λ a. SamePair h (record f { attempt = a })) e same)))
      (subst (λ a. HasAttempt db' a.allowance_id a.request_reference) (sym e)
        (k _ _ (v.own n f at)))
      (subst (λ a. count a.allowance_id a.request_reference s.sent ≡ 0) (sym e)
        (v.unsent n f at quiet))

-- A new call takes a pair that no attempt had.
Starts-Inv :
    (s : System) (n : ℕ) (p : Progress × Evidence) → Inv s → Starts s.db p → Inv (advance s n p)
Starts-Inv s n (ended o, db') v k = ended-Inv s n o db' v k
Starts-Inv s n (waiting g, db') v (k, free, held, quiet) =
    park-Inv (record s { db = db' }) n g (store-Inv s db' v k)
      (λ m h ne was (ea, er). absurd (taken h ea er (v.own m h was))) held
      (elim (Zero-cases (own_count g s.sent)) [ inl z ↦ z | inr q ↦ absurd (new (v.calls _ _ q)) ])
  where
    new : ¬ HasAttempt s.db g.attempt.allowance_id g.attempt.request_reference
    new h = cc

    taken :
        (h : Run)
        → h.attempt.allowance_id ≡ g.attempt.allowance_id
        → h.attempt.request_reference ≡ g.attempt.request_reference
        → ¬ Own s.db h
    taken h ea er q = new (rw (ea, er) at q)

unsent_phase : (f : Run) (p : Phase) → is_sent p ≡ false → f.phase ≡ p → is_sent f.phase ≡ false
unsent_phase f p h e = rw e h

module _ (signers : String → Bool) (describe : PolicyReason → String)
    (hash_requirements : PaymentRequirements → String)
    (hash_receipt : SettlementReceipt → String) where
  Step-Inv :
      {s t : System} → Step signers describe hash_requirements hash_receipt s t → Inv s → Inv t
  Step-Inv {s} (begin n mode allowance_id url id time requirements free id_free) v =
      Starts-Inv s n _ v (reserve-Starts s.db mode allowance_id url _ requirements id time id_free)
  Step-Inv {s} (chain n f a reply time at e) v =
      Advances-Inv s n f _ v at (unsent_phase f (refreshing a) refl e)
        (on_chain-Advances s.db f a reply time)
  Step-Inv {s} (latest n f a ledger time at e) v =
      Advances-Inv s n f _ v at (unsent_phase f (locating a) refl e)
        (on_latest-Advances signers describe s.db f a ledger time)
  Step-Inv {s} (built n f a failure time at e) v =
      Advances-Inv s n f _ v at (unsent_phase f (building a) refl e)
        (on_built-Advances s.db f a failure time)
  Step-Inv {s} (verdict n f a reply time at e) v =
      Advances-Inv s n f _ v at (unsent_phase f (verifying a) refl e)
        (on_verdict-Advances s.db f a reply time)
  Step-Inv {s} (settlement n f a attempt reply time at e) v =
      Ends-Inv s n _ v (on_settlement-Ends hash_receipt s.db f a attempt reply time)
  Step-Inv {s} (answer n f a reply time at e) v =
      Ends-Inv s n _ v (on_paid_answer-Ends hash_receipt s.db f a reply time)
  Step-Inv {s} (reconciles before id reply time attempt db h) v =
      store-Inv s db v (reconcile-Keeps hash_receipt before s.db id reply time attempt db h)
  Step-Inv {s} (keeps_allowance a db h) v =
      store-Inv s db v (λ x r k. put_allowance-HasAttempt s.db db a x r h k)
  Step-Inv {s} (lost n) v = drop-Inv s n v

  pub Reach-Inv :
      {s t : System} → Inv s → Reach signers describe hash_requirements hash_receipt s t → Inv t
  Reach-Inv v here = v
  Reach-Inv v (then_step r st) = Step-Inv st (Reach-Inv v r)

  -- However calls of `pay`, `fetch` and `reconcile` interleave, fail or are lost, an agent that starts
  -- on any store sends a payment for one allowance and one request at most once.
  pub send_once :
      {s : System} (db : Evidence) (a r : String)
      → Reach signers describe hash_requirements hash_receipt (boot db) s
      → count a r s.sent ≤ 1
  send_once db a r h = (Reach-Inv (boot-Inv db) h).once a r

  -- In a state that the agent reaches, a payment that was sent has an attempt in the store for its
  -- allowance and its request.
  pub send_recorded :
      {s : System} (db : Evidence) (a r : String)
      → Reach signers describe hash_requirements hash_receipt (boot db) s
      → 0 < count a r s.sent
      → HasAttempt s.db a r
  send_recorded db a r h e = (Reach-Inv (boot-Inv db) h).calls a r e
