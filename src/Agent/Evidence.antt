-- ===== src/Agent/Evidence.antt =====
-- packages/sdk/src/store.ts: the evidence store. A table is the list of its rows; `none` is a statement
-- that a constraint makes throw. JSON columns hold the values that they encode.
pub mod Keys
pub mod Rows
use agent_allowance.Common.{
  String, Bool, true, false, not, ◌||◌, ◌&&◌, Option, none, some, List, [], ◌∷◌, ◌++◌, ◌===◌, ◌==◌,
  any, find, is_some, truthy, same_text, if◌then◌else◌,
}
use agent_allowance.Shared.{AllowanceRecord, PaymentAttempt}

pub record Evidence : Type 0 where
  pub allowances : List AllowanceRecord
  pub attempts : List PaymentAttempt

-- A nullable text column as it is read: null and the empty text are undefined.
abbrev pub column : Option String → Option String
column none = none
column (some s) = if truthy (some s) then some s else none

-- `parseAllowance` and `parseAttempt`
abbrev parse_allowance : AllowanceRecord → AllowanceRecord
parse_allowance row = record row {
  create_tx_hash = column row.create_tx_hash;
  revoke_tx_hash = column row.revoke_tx_hash;
}

abbrev pub parse_attempt : PaymentAttempt → PaymentAttempt
parse_attempt row = record row {
  safe_detail = column row.safe_detail;
  facilitator_status = column row.facilitator_status;
  tx_hash = column row.tx_hash;
  receipt_hash = column row.receipt_hash;
  response_hash = column row.response_hash;
}

abbrev read_allowance : Option AllowanceRecord → Option AllowanceRecord
read_allowance none = none
read_allowance (some row) = some (parse_allowance row)

abbrev pub read_attempt : Option PaymentAttempt → Option PaymentAttempt
read_attempt none = none
read_attempt (some row) = some (parse_attempt row)

unfoldable pub get_allowance_row : Evidence → String → Option AllowanceRecord
get_allowance_row db id =
    read_allowance (find (λ (row : AllowanceRecord). row.allowance_id === id) db.allowances)

unfoldable pub get_attempt : Evidence → String → Option PaymentAttempt
get_attempt db id =
    read_attempt (find (λ (row : PaymentAttempt). row.attempt_id === id) db.attempts)

-- The row of this allowance and this request.
abbrev pub has_key : String → String → PaymentAttempt → Bool
has_key allowance_id reference row =
    row.allowance_id === allowance_id && row.request_reference === reference

unfoldable pub find_attempt : Evidence → String → String → Option PaymentAttempt
find_attempt db allowance_id reference =
    read_attempt (find (has_key allowance_id reference) db.attempts)

-- The columns that `DO UPDATE SET` writes.
abbrev pub update_attempt : PaymentAttempt → PaymentAttempt → PaymentAttempt
update_attempt row new = record row {
  state = new.state;
  decision = new.decision;
  reason_code = new.reason_code;
  safe_detail = new.safe_detail;
  facilitator_status = new.facilitator_status;
  tx_hash = new.tx_hash;
  receipt_hash = new.receipt_hash;
  receipt = new.receipt;
  response_hash = new.response_hash;
  updated_at = new.updated_at;
}

abbrev update_attempts : PaymentAttempt → List PaymentAttempt → List PaymentAttempt
update_attempts new [] = []
update_attempts new (row ∷ rows) =
    (if row.attempt_id === new.attempt_id then update_attempt row new else row)
    ∷ update_attempts new rows

-- `tx_hash TEXT UNIQUE`, where nulls are distinct.
abbrev same_hash : Option String → Option String → Bool
same_hash none other = false
same_hash (some h) none = false
same_hash (some h) (some k) = h === k

-- Another row has this hash.
abbrev hash_taken : PaymentAttempt → List PaymentAttempt → Bool
hash_taken new rows =
    any
      (λ (row : PaymentAttempt).
        not (row.attempt_id === new.attempt_id) && same_hash row.tx_hash new.tx_hash)
      rows

abbrev pub attempt_known : PaymentAttempt → List PaymentAttempt → Bool
attempt_known new rows = any (λ (row : PaymentAttempt). row.attempt_id === new.attempt_id) rows

-- The foreign key and `UNIQUE(allowance_id, request_reference)`.
abbrev may_insert : Evidence → PaymentAttempt → Bool
may_insert db new =
    any (λ (row : AllowanceRecord). row.allowance_id === new.allowance_id) db.allowances
    && not (any (has_key new.allowance_id new.request_reference) db.attempts)

unfoldable pub put_attempt : Evidence → PaymentAttempt → Option Evidence
put_attempt db new =
    if hash_taken new db.attempts
    then none
    else if attempt_known new db.attempts
    then some (record db { attempts = update_attempts new db.attempts })
    else if may_insert db new
    then some (record db { attempts = new ∷ db.attempts })
    else none

abbrev update_allowance : AllowanceRecord → AllowanceRecord → AllowanceRecord
update_allowance row new = record row {
  label = new.label;
  spent_atomic = new.spent_atomic;
  revoke_tx_hash = new.revoke_tx_hash;
  status = new.status;
  updated_at = new.updated_at;
}

abbrev update_allowances : AllowanceRecord → List AllowanceRecord → List AllowanceRecord
update_allowances new [] = []
update_allowances new (row ∷ rows) =
    (if row.allowance_id === new.allowance_id then update_allowance row new else row)
    ∷ update_allowances new rows

-- `UNIQUE(network, treasury_contract, context_rule_id)`
abbrev same_rule : AllowanceRecord → AllowanceRecord → Bool
same_rule new row =
    row.network === new.network
    && row.treasury_contract === new.treasury_contract
    && row.context_rule_id == new.context_rule_id

unfoldable pub put_allowance : Evidence → AllowanceRecord → Option Evidence
put_allowance db new =
    if any (λ (row : AllowanceRecord). row.allowance_id === new.allowance_id) db.allowances
    then some (record db { allowances = update_allowances new db.allowances })
    else if any (same_rule new) db.allowances
    then none
    else some (record db { allowances = new ∷ db.allowances })
