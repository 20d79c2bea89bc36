-- ===== src/Agent/Evidence/Keys.antt =====
-- The pairs of an allowance and a request that have an attempt: none is ever lost.
use agent_allowance.Common.{
  String, Bool, true, false, ◌≡◌, refl, none, some, List, [], ◌∷◌, ◌===◌, any, find, arith,
  ===_refl,
}
use agent_allowance.Shared.{AllowanceRecord, PaymentAttempt}
use agent_allowance.Agent.Evidence.{
  get_attempt, read_attempt, Evidence, has_key, find_attempt, update_attempts, put_attempt,
  put_allowance,
}

-- There is an attempt for this allowance and this request.
abbrev pub HasAttempt : Evidence → String → String → Type 0
HasAttempt db a r = any (has_key a r) db.attempts ≡ true

find-none :
    (p : PaymentAttempt → Bool) (rows : List PaymentAttempt)
    → read_attempt (find p rows) ≡ none
    → any p rows ≡ false
find-none p [] h = refl
find-none p (row ∷ rows) h = ground (arith, find-none p rows)

pub find_attempt-none :
    (db : Evidence) (a r : String)
    → find_attempt db a r ≡ none
    → any (has_key a r) db.attempts ≡ false
unfolding find_attempt
find_attempt-none db a r h = find-none (has_key a r) db.attempts h

update_attempts-keys :
    (new : PaymentAttempt) (rows : List PaymentAttempt) (a r : String)
    → any (has_key a r) (update_attempts new rows) ≡ any (has_key a r) rows
update_attempts-keys new [] a r = refl
update_attempts-keys new (row ∷ rows) a r = ground (arith, update_attempts-keys new rows a r)

-- Writing an attempt keeps every pair.
pub put_attempt-HasAttempt :
    (db db' : Evidence) (new : PaymentAttempt) (a r : String)
    → put_attempt db new ≡ some db'
    → HasAttempt db a r
    → HasAttempt db' a r
unfolding put_attempt
put_attempt-HasAttempt db db' new a r h k = ground (arith, update_attempts-keys new db.attempts a r)

pub put_allowance-HasAttempt :
    (db db' : Evidence) (new : AllowanceRecord) (a r : String)
    → put_allowance db new ≡ some db'
    → HasAttempt db a r
    → HasAttempt db' a r
unfolding put_allowance
put_allowance-HasAttempt db db' new a r h k = ground arith

pub get_attempt-none :
    (db : Evidence) (id : String)
    → get_attempt db id ≡ none
    → any (λ (row : PaymentAttempt). row.attempt_id === id) db.attempts ≡ false
unfolding get_attempt
get_attempt-none db id h = find-none (λ (row : PaymentAttempt). row.attempt_id === id) db.attempts h

-- An attempt that was inserted, under a new id, has its pair.
pub put_attempt-own :
    (db db' : Evidence) (new : PaymentAttempt)
    → any (λ (row : PaymentAttempt). row.attempt_id === new.attempt_id) db.attempts ≡ false
    → put_attempt db new ≡ some db'
    → HasAttempt db' new.allowance_id new.request_reference
unfolding put_attempt
put_attempt-own db db' new f h =
    ground (arith, ===_refl new.allowance_id, ===_refl new.request_reference)
