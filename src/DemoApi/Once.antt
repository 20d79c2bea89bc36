-- ===== src/DemoApi/Once.antt =====
-- Whatever the interleaving of requests, a challenge is sent to settlement at most once.
use agent_allowance.Common.{ℕ, ◌≤◌, String, ◌≡◌, ◌≢◌, inl, inr, Option, none, some, arith, eq_iff}
use agent_allowance.Shared.{StellarPaymentPayload}
use agent_allowance.DemoApi.Table.{Store}
use agent_allowance.DemoApi.Table.Laws.{Held}
use agent_allowance.DemoApi.{
  DemoApiConfig, Flight, verifying, Progress, replied, waiting, issue_challenge,
}
use agent_allowance.DemoApi.Segments.{
  Started, start-Started, Judged, on_verified-Judged, Ended, on_settled-Ended,
}
use agent_allowance.DemoApi.System.{
  System, Step, issue, begin, verified, settled, lost, Reach, here, then_step, boot, advance,
}
use agent_allowance.DemoApi.Safe.{
  Inv, count, boot-Inv, extend-Inv, drop-Inv, quit-Inv, acquire-Inv, call-Inv, Held-Claimed,
}

-- A new challenge never replaces a row.
issue_extends :
    (config : DemoApiConfig) (db : Store) (id : String) (scenario : Option String) (now : ℕ)
    (k : String)
    → db k ≢ none
    → (issue_challenge config db id scenario now).1 k ≡ db k
unfolding issue_challenge
issue_extends config db id scenario now k h = ground (arith, eq_iff k id)

Started-Inv :
    (s : System) (n : ℕ) (p : Progress × Store)
    → Inv s
    → s.flights n ≡ none
    → Started s.db p
    → Inv (advance s n p)
Started-Inv s n (replied r, db') v free same = rw same (drop-Inv s n v)
Started-Inv s n (waiting f, db') v free (fresh, won, same) = rw same (acquire-Inv s n f v fresh won)

Judged-Inv :
    (s : System) (n : ℕ) (f : Flight) (p : Progress × Store)
    → Inv s
    → s.flights n ≡ some f
    → f.phase ≡ verifying
    → Judged s.db f p
    → Inv (advance s n p)
Judged-Inv s n f (replied r, db') v at fresh others = quit-Inv s n f r db' v at others (inl fresh)
Judged-Inv s n f (waiting g, db') v at fresh ((payer, e), same) =
    rw (same, e) (call-Inv s n f payer v at fresh)

Ended-Inv :
    (s : System) (n : ℕ) (f : Flight) (p : Progress × Store)
    → Inv s
    → s.flights n ≡ some f
    → Ended s.db f p
    → Inv (advance s n p)
Ended-Inv s n f (replied r, db') v at (others, kept) =
    quit-Inv s n f r db' v at others (inr (kept (Held-Claimed _ _ (v.held n f at))))
Ended-Inv s n f (waiting g, db') v at h = absurd h

module _ (parse : String → Option StellarPaymentPayload) (stable_hash : String → String)
    (address_type : String → Option String) where
  Step-Inv : {s t : System} → Step parse stable_hash address_type s t → Inv s → Inv t
  Step-Inv {s} (issue config id scenario now) v =
      extend-Inv s _ v (issue_extends config s.db id scenario now)
  Step-Inv {s} (begin n header now free) v =
      Started-Inv s n _ v free (start-Started parse stable_hash s.db header now)
  Step-Inv {s} (verified n f answer at fresh) v =
      Judged-Inv s n f _ v at fresh (on_verified-Judged address_type s.db f answer)
  Step-Inv {s} (settled n f payer answer at e) v =
      Ended-Inv s n f _ v at (on_settled-Ended s.db f payer answer)
  Step-Inv {s} (lost n) v = drop-Inv s n v

  pub Reach-Inv : {s t : System} → Inv s → Reach parse stable_hash address_type s t → Inv t
  Reach-Inv v here = v
  Reach-Inv v (then_step r st) = Step-Inv st (Reach-Inv v r)

  -- However requests interleave, fail or are lost, from the start of the service no challenge is
  -- sent to `facilitator.settle` more than once.
  pub settle_once :
      {s : System} (k : String)
      → Reach parse stable_hash address_type boot s
      → count k s.settle_calls ≤ 1
  settle_once k r = (Reach-Inv boot-Inv r).once k

  -- In a state that the service reaches, at most one request waits for the facilitator on behalf of
  -- a challenge, and the challenge's row carries that request's hash and no receipt.
  pub wait_alone :
      {s : System} (m n : ℕ) (f g : Flight)
      → Reach parse stable_hash address_type boot s
      → s.flights m ≡ some f
      → s.flights n ≡ some g
      → f.id ≡ g.id
      → (m ≡ n) × Held (s.db f.id) f.payload_hash
  wait_alone m n f g r h h' e =
      let v = Reach-Inv boot-Inv r in (v.single m n f g h h' e, v.held m f h)
