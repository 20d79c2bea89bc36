-- ===== src/Agent/Evidence/Rows.antt =====
-- What the store answers after an attempt was written.
use agent_allowance.Common.{
  sym, ◌∙◌, none, false, subst, String, Bool, true, ◌≡◌, refl, some, List, [], ◌∷◌, ◌===◌, find,
  arith, eq_iff, ===_refl, Bool-cases, inl, inr, ap, ◌≢◌,
}
use agent_allowance.Shared.{PaymentAttempt}
use agent_allowance.Agent.Evidence.{
  Evidence, get_attempt, read_attempt, parse_attempt, column, update_attempt, update_attempts,
  put_attempt, attempt_known,
}

-- The attempt is read back under its id with every column that an update writes; of the nullable texts
-- the empty one is read as none.
pub record IsStored (db : Evidence) (a : PaymentAttempt) : Type 0 where
  pub row : PaymentAttempt
  pub found : get_attempt db a.attempt_id ≡ some row
  pub state : row.state ≡ a.state
  pub decision : row.decision ≡ a.decision
  pub reason : row.reason_code ≡ a.reason_code
  pub detail : row.safe_detail ≡ column a.safe_detail
  pub facilitator : row.facilitator_status ≡ column a.facilitator_status
  pub hash : row.tx_hash ≡ column a.tx_hash
  pub receipt_hash : row.receipt_hash ≡ column a.receipt_hash
  pub receipt : row.receipt ≡ a.receipt
  pub response_hash : row.response_hash ≡ column a.response_hash
  pub updated_at : row.updated_at ≡ a.updated_at

-- The columns that an insertion writes and no update changes.
pub record HasTerms (row a : PaymentAttempt) : Type 0 where
  pub attempt_id : row.attempt_id ≡ a.attempt_id
  pub allowance_id : row.allowance_id ≡ a.allowance_id
  pub url : row.url ≡ a.url
  pub reference : row.request_reference ≡ a.request_reference
  pub challenge : row.challenge_hash ≡ a.challenge_hash
  pub amount : row.amount_atomic ≡ a.amount_atomic
  pub pay_to : row.pay_to ≡ a.pay_to
  pub asset : row.asset_contract ≡ a.asset_contract
  pub created_at : row.created_at ≡ a.created_at

-- The terms that the store has for the attempt's id are those that it had before, or the attempt's own
-- where it had none.
abbrev pub KeepsTerms : Evidence → Evidence → PaymentAttempt → Type 0
KeepsTerms db db' a =
    (row : PaymentAttempt)
    → get_attempt db' a.attempt_id ≡ some row
    → ((old : PaymentAttempt) → get_attempt db a.attempt_id ≡ some old → HasTerms row old)
      × (get_attempt db a.attempt_id ≡ none → HasTerms row a)

abbrev same_id : PaymentAttempt → PaymentAttempt → Bool
same_id new row = row.attempt_id === new.attempt_id

find-update_attempts :
    (new : PaymentAttempt) (rows : List PaymentAttempt)
    → attempt_known new rows ≡ true
    → (row : PaymentAttempt) × (find (same_id new) (update_attempts new rows)
        ≡ some (update_attempt row new))
find-update_attempts new [] h = cc
find-update_attempts new (row ∷ rows) h = elim (Bool-cases (same_id new row)) [
  | inl own ↦ (row, ground arith)
  | inr other ↦
      let (found, e) = find-update_attempts new rows (ground arith) in (found, ground (arith, e))
]

-- What a write that succeeds stores is what a read of the attempt's id returns.
pub put_attempt-IsStored :
    (db db' : Evidence) (a : PaymentAttempt) → put_attempt db a ≡ some db' → IsStored db' a
unfolding put_attempt get_attempt
put_attempt-IsStored db db' a h = elim (Bool-cases (attempt_known a db.attempts)) [
  | inl known ↦ updated (find-update_attempts a db.attempts known) (ground arith)
  | inr fresh ↦ inserted (ground arith)
]
  where
    updated :
        (row : PaymentAttempt) × (find (same_id a) (update_attempts a db.attempts)
            ≡ some (update_attempt row a))
        → db'.attempts ≡ update_attempts a db.attempts
        → IsStored db' a
    updated (row, e) same = record {
      row = parse_attempt (update_attempt row a);
      found = rw (same, e) refl;
      state = refl;
      decision = refl;
      reason = refl;
      receipt = refl;
      detail = refl;
      facilitator = refl;
      hash = refl;
      receipt_hash = refl;
      response_hash = refl;
      updated_at = refl;
    }

    inserted : db'.attempts ≡ a ∷ db.attempts → IsStored db' a
    inserted same = record {
      row = parse_attempt a;
      found = rw (same, ===_refl a.attempt_id) refl;
      state = refl;
      decision = refl;
      reason = refl;
      receipt = refl;
      detail = refl;
      facilitator = refl;
      hash = refl;
      receipt_hash = refl;
      response_hash = refl;
      updated_at = refl;
    }

find_other :
    (new : PaymentAttempt) (rows : List PaymentAttempt) (id : String)
    → id ≢ new.attempt_id
    → find (λ (row : PaymentAttempt). row.attempt_id === id) (update_attempts new rows)
      ≡ find (λ (row : PaymentAttempt). row.attempt_id === id) rows
find_other new [] id ne = refl
find_other new (row ∷ rows) id ne = ground (
  arith,
  find_other new rows id ne,
  eq_iff row.attempt_id id,
  eq_iff row.attempt_id new.attempt_id,
)

some-injective : {a b : PaymentAttempt} → some a ≡ some b → a ≡ b
some-injective h = cc

some-not-none : {a : PaymentAttempt} → some a ≡ none → ⊥
some-not-none h = cc

-- The row under the attempt's id after an update.
find_updated :
    (new : PaymentAttempt) (rows : List PaymentAttempt) (old : PaymentAttempt)
    → find (same_id new) rows ≡ some old
    → find (same_id new) (update_attempts new rows) ≡ some (update_attempt old new)
find_updated new [] old h = cc
find_updated new (row ∷ rows) old h = ground (arith, find_updated new rows old)

terms_of :
    (old new row : PaymentAttempt)
    → some (parse_attempt (update_attempt old new)) ≡ some row
    → (earlier : PaymentAttempt) → some (parse_attempt old) ≡ some earlier
    → HasTerms row earlier
terms_of old new row h earlier k = subst (HasTerms row) (some-injective k) (
    subst (λ (r : PaymentAttempt). HasTerms r (parse_attempt old)) (some-injective h)
      (record {
        attempt_id = refl;
        allowance_id = refl;
        url = refl;
        reference = refl;
        challenge = refl;
        amount = refl;
        pay_to = refl;
        asset = refl;
        created_at = refl;
      }))

own_terms : (a row : PaymentAttempt) → some (parse_attempt a) ≡ some row → HasTerms row a
own_terms a row h =
    subst (λ (r : PaymentAttempt). HasTerms r a) (some-injective h)
      (record {
        attempt_id = refl;
        allowance_id = refl;
        url = refl;
        reference = refl;
        challenge = refl;
        amount = refl;
        pay_to = refl;
        asset = refl;
        created_at = refl;
      })

known-found :
    (new : PaymentAttempt) (rows : List PaymentAttempt)
    → attempt_known new rows ≡ true
    → (old : PaymentAttempt) × (find (same_id new) rows ≡ some old)
known-found new [] h = cc
known-found new (row ∷ rows) h = elim (Bool-cases (same_id new row)) [
  | inl own ↦ (row, ground arith)
  | inr other ↦ let (old, e) = known-found new rows (ground arith) in (old, ground (arith, e))
]

unknown-missing :
    (new : PaymentAttempt) (rows : List PaymentAttempt)
    → attempt_known new rows ≡ false
    → find (same_id new) rows ≡ none
unknown-missing new [] h = refl
unknown-missing new (row ∷ rows) h = ground (arith, unknown-missing new rows)

put_attempt-KeepsTerms :
    (db db' : Evidence) (a : PaymentAttempt) → put_attempt db a ≡ some db' → KeepsTerms db db' a
unfolding put_attempt get_attempt
put_attempt-KeepsTerms db db' a h row k = elim (Bool-cases (attempt_known a db.attempts)) [
  | inl known ↦
      let (old, e) = known-found a db.attempts known in
      let now = reads (update_attempts a db.attempts) (ground arith) in
      let updated = find_updated a db.attempts old e in
      (
        (λ earlier q.
            terms_of old a row (sym (ap read_attempt updated) ∙ now) earlier
              (sym (ap read_attempt e) ∙ q)),
        (λ q. absurd (some-not-none (sym (ap read_attempt e) ∙ q))),
      )
  | inr fresh ↦
      let missing = unknown-missing a db.attempts fresh in
      let now = reads (a ∷ db.attempts) (ground arith) in
      let inserted : find (same_id a) (a ∷ db.attempts) ≡ some a =
        ground (arith, ===_refl a.attempt_id) in
      (
        (λ earlier q. absurd (some-not-none (sym (sym (ap read_attempt missing) ∙ q)))),
        (λ q. own_terms a row (sym (ap read_attempt inserted) ∙ now)),
      )
]
  where
    reads :
        (rows : List PaymentAttempt)
        → db'.attempts ≡ rows
        → read_attempt (find (same_id a) rows) ≡ some row
    reads rows same =
        subst (λ (l : List PaymentAttempt). read_attempt (find (same_id a) l) ≡ some row) same k

-- The store is a map from the ids to the attempts: a write that succeeds answers a read of its own id
-- with every column that an update writes, and with the terms that were first inserted under that id,
-- which are its own where there were none; it changes the answer for no other id.
pub put_attempt_refines :
    (db db' : Evidence) (a : PaymentAttempt)
    → put_attempt db a ≡ some db'
    → IsStored db' a
      × KeepsTerms db db' a
      × ((id : String) → id ≢ a.attempt_id → get_attempt db' id ≡ get_attempt db id)
unfolding put_attempt get_attempt
put_attempt_refines db db' a h = (
  put_attempt-IsStored db db' a h,
  put_attempt-KeepsTerms db db' a h,
  λ id ne. ap read_attempt (ground (arith, find_other a db.attempts id ne, eq_iff a.attempt_id id)),
)
