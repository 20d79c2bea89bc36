-- ===== src/Agent/Safe.antt =====
-- The invariant of an agent's calls and store, and what keeps it.
use agent_allowance.Common.{
  ℕ, ◌≤◌, ◌<◌, String, false, ◌≡◌, ◌≢◌, refl, ◌⊎◌, inl, inr, Option, some, List, arith, eq_iff,
  Bool-cases, Zero-cases, sym, ◌∙◌, ◌==◌, subst,
}
use agent_allowance.Agent.Evidence.{Evidence}
use agent_allowance.Agent.Evidence.Keys.{HasAttempt}
use agent_allowance.Agent.Attempt.{Run, waiting}
use agent_allowance.Agent.System.{System, is_sent, count, park, log, advance, drop, boot}
use agent_allowance.Agent.Advance.{Keeps}

-- The pair of a call's payment.
abbrev pub Own : Evidence → Run → Type 0
Own db f = HasAttempt db f.attempt.allowance_id f.attempt.request_reference

abbrev pub own_count : Run → List (String × String) → ℕ
own_count f sent = count f.attempt.allowance_id f.attempt.request_reference sent

-- Two calls for one payment.
abbrev pub SamePair : Run → Run → Type 0
SamePair f g =
    (f.attempt.allowance_id ≡ g.attempt.allowance_id)
    × (f.attempt.request_reference ≡ g.attempt.request_reference)

pub record Inv (s : System) : Type 0 where
  pub own : (n : ℕ) (f : Run) → s.runs n ≡ some f → Own s.db f
  pub calls : (a r : String) → 0 < count a r s.sent → HasAttempt s.db a r
  pub single : (m n : ℕ) (f g : Run) → s.runs m ≡ some f → s.runs n ≡ some g → SamePair f g → m ≡ n
  pub unsent :
      (n : ℕ) (f : Run) → s.runs n ≡ some f → is_sent f.phase ≡ false → own_count f s.sent ≡ 0
  pub once : (a r : String) → count a r s.sent ≤ 1

pub boot-Inv : (db : Evidence) → Inv (boot db)
boot-Inv db = record {
  own = λ n f h. cc;
  calls = λ a r h. absurd (omega arith);
  single = λ m n f g h k e. cc;
  unsent = λ n f h e. refl;
  once = λ a r. omega arith;
}

pub store-Inv : (s : System) (db' : Evidence) → Inv s → Keeps s.db db' → Inv (record s { db = db' })
store-Inv s db' v k = record {
  own = λ n f h. k _ _ (v.own n f h);
  calls = λ a r h. k a r (v.calls a r h);
  single = v.single;
  unsent = v.unsent;
  once = v.once;
}

pub drop-Inv : (s : System) (n : ℕ) → Inv s → Inv (drop s n)
drop-Inv s n v = record {
  own = λ m f h. v.own m f (ground arith);
  calls = v.calls;
  single = λ m k f g h h' e. v.single m k f g (ground arith) (ground arith) e;
  unsent = λ m f h e. v.unsent m f (ground arith) e;
  once = v.once;
}

-- What is in progress after call `n` has gone on as `g`.
parked :
    (runs : ℕ → Option Run) (n : ℕ) (g : Run) (m : ℕ) (h : Run)
    → park runs n (waiting g) m ≡ some h
    → ((m ≡ n) × (h ≡ g)) ⊎ ((m ≢ n) × (runs m ≡ some h))
parked runs n g m h e = elim (Bool-cases (m == n)) [
  | inl own ↦ inl (ground arith, ground arith)
  | inr other ↦ inr (ground arith, ground arith)
]

SamePair-sym : (f g : Run) → SamePair f g → SamePair g f
SamePair-sym f g (a, r) = (sym a, sym r)

-- Call `n` goes on with a payment that no other call has, and that was not sent.
module _ (s : System) (n : ℕ) (g : Run) (v : Inv s)
    (alone : (m : ℕ) (h : Run) → m ≢ n → s.runs m ≡ some h → ¬ SamePair h g) (held : Own s.db g)
    (quiet : own_count g s.sent ≡ 0) where
  parked-Own : (m : ℕ) (h : Run) → park s.runs n (waiting g) m ≡ some h → Own s.db h
  parked-Own m h e = elim (parked s.runs n g m h e) [
    | inl (mn, hg) ↦ rw hg held
    | inr (ne, was) ↦ v.own m h was
  ]

  parked-single :
      (m k : ℕ) (h h' : Run)
      → park s.runs n (waiting g) m ≡ some h
      → park s.runs n (waiting g) k ≡ some h'
      → SamePair h h'
      → m ≡ k
  parked-single m k h h' e e' same = elim (parked s.runs n g m h e) [
    | inl (mn, hg) ↦ elim (parked s.runs n g k h' e') [
      | inl (kn, hg') ↦ mn ∙ sym kn
      | inr (ne, was) ↦ absurd (alone k h' ne was (SamePair-sym g h' (rw hg at same)))
    ]
    | inr (ne, was) ↦ elim (parked s.runs n g k h' e') [
      | inl (kn, hg') ↦ absurd (alone m h ne was (rw hg' at same))
      | inr (ne', was') ↦ v.single m k h h' was was' same
    ]
  ]

  logged-zero :
      (h : Run) → ¬ SamePair h g → own_count h s.sent ≡ 0 → own_count h (log (waiting g) s.sent) ≡ 0
  logged-zero h ne z = ground (
    arith,
    eq_iff g.attempt.allowance_id h.attempt.allowance_id,
    eq_iff g.attempt.request_reference h.attempt.request_reference,
  )

  parked-unsent :
      (m : ℕ) (h : Run)
      → park s.runs n (waiting g) m ≡ some h
      → is_sent h.phase ≡ false
      → own_count h (log (waiting g) s.sent) ≡ 0
  parked-unsent m h e u = elim (parked s.runs n g m h e) [
    | inl (mn, hg) ↦ rw hg (own_unsent (rw hg at u))
    | inr (ne, was) ↦ logged-zero h (alone m h ne was) (v.unsent m h was u)
  ]
    where
      own_unsent : is_sent g.phase ≡ false → own_count g (log (waiting g) s.sent) ≡ 0
      own_unsent u' = ground arith

  logged-calls : (a r : String) → 0 < count a r (log (waiting g) s.sent) → HasAttempt s.db a r
  logged-calls a r p = elim (Zero-cases (count a r s.sent)) [
    | inl z ↦ moved (pair z)
    | inr q ↦ v.calls a r q
  ]
    where
      pair : count a r s.sent ≡ 0 → (g.attempt.allowance_id ≡ a) × (g.attempt.request_reference ≡ r)
      pair z = ground (arith, eq_iff g.attempt.allowance_id a, eq_iff g.attempt.request_reference r)

      moved : (g.attempt.allowance_id ≡ a) × (g.attempt.request_reference ≡ r) → HasAttempt s.db a r
      moved (ea, er) =
          subst (λ x. HasAttempt s.db x r) ea
            (subst (λ x. HasAttempt s.db g.attempt.allowance_id x) er held)

  logged-once : (a r : String) → count a r (log (waiting g) s.sent) ≤ 1
  logged-once a r = ground (
    arith,
    v.once a r,
    quiet,
    eq_iff g.attempt.allowance_id a,
    eq_iff g.attempt.request_reference r,
  )

  pub park-Inv : Inv (advance s n (waiting g, s.db))
  park-Inv = record {
    own = parked-Own;
    calls = logged-calls;
    single = parked-single;
    unsent = parked-unsent;
    once = logged-once;
  }
