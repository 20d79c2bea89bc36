-- ===== src/DemoApi/Safe.antt =====
-- The invariant of the merchant's service, and what keeps it.
use agent_allowance.Common.{
  ℕ, ◌+◌, ◌≤◌, ◌<◌, String, ◌≡◌, ◌≢◌, refl, ◌⊎◌, inl, inr, Option, none, some, List, [], ◌∷◌, arith,
  eq_iff, Bool-cases, Zero-cases, sym, ap, ◌∙◌, ◌==◌, ◌===◌, if◌then◌else◌,
}
use agent_allowance.DemoApi.Table.{Store, acquired, claim}
use agent_allowance.DemoApi.Table.Laws.{Held, Claimed, claim_others, claim-Held, claim-not-Claimed}
use agent_allowance.DemoApi.{Flight, verifying, settling, replied, waiting, Reply}
use agent_allowance.DemoApi.System.{System, boot, park, log, advance, drop}

-- How often a challenge was sent to settlement.
abbrev pub count : String → List String → ℕ
count k [] = 0
count k (x ∷ xs) = let rest = count k xs in if x === k then rest + 1 else rest

pub record Inv (s : System) : Type 0 where
  pub held : (n : ℕ) (f : Flight) → s.flights n ≡ some f → Held (s.db f.id) f.payload_hash
  pub single :
      (m n : ℕ) (f g : Flight) → s.flights m ≡ some f → s.flights n ≡ some g → f.id ≡ g.id → m ≡ n
  pub quiet :
      (n : ℕ) (f : Flight)
      → s.flights n ≡ some f
      → f.phase ≡ verifying
      → count f.id s.settle_calls ≡ 0
  pub paid : (k : String) → 0 < count k s.settle_calls → Claimed (s.db k)
  pub once : (k : String) → count k s.settle_calls ≤ 1

pub boot-Inv : Inv boot
boot-Inv = record {
  held = λ n f h. cc;
  single = λ m n f g h k e. cc;
  quiet = λ n f h e. refl;
  paid = λ k h. absurd (omega arith);
  once = λ k. omega arith;
}

-- Rows that exist stay as they are.
abbrev Extends : Store → Store → Type 0
Extends db db' = (k : String) → (db k ≢ none) → db' k ≡ db k

Held-some : (o : Option _) (h : String) → Held o h → o ≢ none
Held-some none h p = absurd p
Held-some (some row) h p = λ e. cc

Claimed-some : (o : Option _) → Claimed o → o ≢ none
Claimed-some none p = absurd p
Claimed-some (some row) p = λ e. cc

pub extend-Inv : (s : System) (db' : Store) → Inv s → Extends s.db db' → Inv (record s { db = db' })
extend-Inv s db' v x = record {
  held = λ n f h. rw (x f.id (Held-some _ _ (v.held n f h))) (v.held n f h);
  single = v.single;
  quiet = v.quiet;
  paid = λ k h. rw (x k (Claimed-some _ (v.paid k h))) (v.paid k h);
  once = v.once;
}

pub drop-Inv : (s : System) (n : ℕ) → Inv s → Inv (drop s n)
drop-Inv s n v = record {
  held = λ m f h. v.held m f (ground arith);
  single = λ m k f g h h' e. v.single m k f g (ground arith) (ground arith) e;
  quiet = λ m f h e. v.quiet m f (ground arith) e;
  paid = v.paid;
  once = v.once;
}

-- After request `n` has stopped waiting, no other request holds its challenge.
others-ne :
    (s : System) (n : ℕ) (f : Flight)
    → Inv s
    → s.flights n ≡ some f
    → (m : ℕ) (g : Flight) → m ≢ n
    → s.flights m ≡ some g
    → g.id ≢ f.id
others-ne s n f v at m g ne h e = ne (v.single m n g f h at e)

-- Request `n` ends, having written at most the row of its challenge.
pub quit-Inv :
    (s : System) (n : ℕ) (f : Flight) (r : Reply) (db' : Store)
    → Inv s
    → s.flights n ≡ some f
    → ((k : String) → k ≢ f.id → db' k ≡ s.db k)
    → ((f.phase ≡ verifying) ⊎ Claimed (db' f.id))
    → Inv (advance s n (replied r, db'))
quit-Inv s n f r db' v at same kept = record {
  held = λ m g h.
      let was : s.flights m ≡ some g = ground arith in
      let ne : m ≢ n = ground arith in
      rw (same g.id (others-ne s n f v at m g ne was)) (v.held m g was);
  single = λ m k f' g h h' e. v.single m k f' g (ground arith) (ground arith) e;
  quiet = λ m g h e. v.quiet m g (ground arith) e;
  paid = λ k h. elim (Bool-cases (k === f.id)) [
    | inl own ↦ let e : k ≡ f.id = (eq_iff k f.id).0 own in rw e (paid_own (rw e at h))
    | inr other ↦ let ne : k ≢ f.id = ground (arith, eq_iff k f.id) in rw (same k ne) (v.paid k h)
  ];
  once = v.once;
}
  where
    paid_own : 0 < count f.id s.settle_calls → Claimed (db' f.id)
    paid_own h = elim kept [ inl e ↦ absurd (omega (arith, v.quiet n f at e)) | inr c ↦ c ]

-- What waits after request `n` has gone on as `f`.
parked :
    (flights : ℕ → Option Flight) (n : ℕ) (f : Flight) (m : ℕ) (g : Flight)
    → park flights n (waiting f) m ≡ some g
    → ((m ≡ n) × (g ≡ f)) ⊎ ((m ≢ n) × (flights m ≡ some g))
parked flights n f m g h = elim (Bool-cases (m == n)) [
  | inl own ↦ inl (ground arith, ground arith)
  | inr other ↦ inr (ground arith, ground arith)
]

-- No two requests wait for one challenge, if none of the others waits for that of `f`.
parked-single :
    (s : System) (n : ℕ) (f : Flight)
    → Inv s
    → ((m : ℕ) (g : Flight) → m ≢ n → s.flights m ≡ some g → g.id ≢ f.id)
    → (m k : ℕ) (g g' : Flight) → park s.flights n (waiting f) m ≡ some g
    → park s.flights n (waiting f) k ≡ some g'
    → g.id ≡ g'.id
    → m ≡ k
parked-single s n f v alone m k g g' h h' e = elim (parked s.flights n f m g h) [
  | inl (mn, gf) ↦ elim (parked s.flights n f k g' h') [
    | inl (kn, gf') ↦ mn ∙ sym kn
    | inr (ne, was) ↦ absurd (alone k g' ne was (sym e ∙ ap (λ (x : Flight). x.id) gf))
  ]
  | inr (ne, was) ↦ elim (parked s.flights n f k g' h') [
    | inl (kn, gf') ↦ absurd (alone m g ne was (e ∙ ap (λ (x : Flight). x.id) gf'))
    | inr (ne', was') ↦ v.single m k g g' was was' e
  ]
]

log-verifying :
    (f : Flight) (calls : List String) → f.phase ≡ verifying → log (waiting f) calls ≡ calls
log-verifying f calls e = rw e

pub Held-Claimed : (o : Option _) (h : String) → Held o h → Claimed o
Held-Claimed none h p = absurd p
Held-Claimed (some row) h p = λ e. cc

-- A new request takes a claim that nobody had.
module _ (s : System) (n : ℕ) (f : Flight) (v : Inv s) (fresh : f.phase ≡ verifying)
    (won : (claim s.db f.id f.payload_hash).0 ≡ acquired) where
  unclaimed-ne : (k : String) → Claimed (s.db k) → k ≢ f.id
  unclaimed-ne k c e = claim-not-Claimed s.db f.id f.payload_hash won (rw e at c)

  flight-ne : (m : ℕ) (g : Flight) → s.flights m ≡ some g → g.id ≢ f.id
  flight-ne m g was = unclaimed-ne g.id (Held-Claimed _ _ (v.held m g was))

  uncalled : count f.id s.settle_calls ≡ 0
  uncalled = elim (Zero-cases (count f.id s.settle_calls)) [
    | inl z ↦ z
    | inr p ↦ absurd (unclaimed-ne f.id (v.paid f.id p) refl)
  ]

  acquired-Held :
      (m : ℕ) (g : Flight)
      → park s.flights n (waiting f) m ≡ some g
      → Held ((claim s.db f.id f.payload_hash).1 g.id) g.payload_hash
  acquired-Held m g h = elim (parked s.flights n f m g h) [
    | inl (mn, gf) ↦ rw gf (claim-Held s.db f.id f.payload_hash won)
    | inr (ne, was) ↦
        rw (claim_others s.db f.id f.payload_hash g.id (flight-ne m g was)) (v.held m g was)
  ]

  acquired-quiet :
      (m : ℕ) (g : Flight)
      → park s.flights n (waiting f) m ≡ some g
      → g.phase ≡ verifying
      → count g.id s.settle_calls ≡ 0
  acquired-quiet m g h e = elim (parked s.flights n f m g h) [
    | inl (mn, gf) ↦ rw gf uncalled
    | inr (ne, was) ↦ v.quiet m g was e
  ]

  pub acquire-Inv : Inv (advance s n (waiting f, (claim s.db f.id f.payload_hash).1))
  acquire-Inv = rw (log-verifying f s.settle_calls fresh) (record {
    held = acquired-Held;
    single = parked-single s n f v (λ m g ne was. flight-ne m g was);
    quiet = acquired-quiet;
    paid = λ k h.
        rw (claim_others s.db f.id f.payload_hash k (unclaimed-ne k (v.paid k h))) (v.paid k h);
    once = v.once;
  })

-- A verified request calls `facilitator.settle`.
module _ (s : System) (n : ℕ) (f : Flight) (payer : String) (v : Inv s) (at : s.flights n ≡ some f)
    (fresh : f.phase ≡ verifying) where
  abbrev pub called : Flight
  called = record f { phase = settling payer }

  called-Held :
      (m : ℕ) (g : Flight)
      → park s.flights n (waiting called) m ≡ some g
      → Held (s.db g.id) g.payload_hash
  called-Held m g h = elim (parked s.flights n (record f { phase = settling payer }) m g h) [
    | inl (mn, gf) ↦ rw gf (v.held n f at)
    | inr (ne, was) ↦ v.held m g was
  ]

  called-quiet :
      (m : ℕ) (g : Flight)
      → park s.flights n (waiting called) m ≡ some g
      → g.phase ≡ verifying
      → count g.id (f.id ∷ s.settle_calls) ≡ 0
  called-quiet m g h e = elim (parked s.flights n (record f { phase = settling payer }) m g h) [
    | inl (mn, gf) ↦ cc
    | inr (ne, was) ↦
        ground (arith, eq_iff f.id g.id, others-ne s n f v at m g ne was, v.quiet m g was e)
  ]

  called-paid : (k : String) → 0 < count k (f.id ∷ s.settle_calls) → Claimed (s.db k)
  called-paid k h = elim (Bool-cases (f.id === k)) [
    | inl own ↦ rw (← (eq_iff f.id k).0 own) (Held-Claimed _ _ (v.held n f at))
    | inr other ↦ v.paid k (ground arith)
  ]

  pub call-Inv : Inv (advance s n (waiting called, s.db))
  call-Inv = record {
    held = called-Held;
    single = parked-single s n called v (others-ne s n f v at);
    quiet = called-quiet;
    paid = called-paid;
    once = λ k. ground (arith, eq_iff f.id k, v.once k, v.quiet n f at fresh);
  }
