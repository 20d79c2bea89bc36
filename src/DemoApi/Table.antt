-- ===== src/DemoApi/Table.antt =====
-- apps/x402-demo-api/src/store.ts: the table of challenges. A row's JSON columns hold the values
-- that they encode; each method is one statement or one `BEGIN IMMEDIATE` transaction, so one step.
pub mod Laws
use agent_allowance.Common.{
  ℕ, String, Bool, true, false, not, ◌&&◌, Option, none, some, ◌===◌, is_text, truthy, is_some,
  if◌then◌else◌,
}
use agent_allowance.Shared.{PaymentRequirements, SettlementReceipt}

-- A row; its id is the key. `payload_hash` and `receipt` are nullable.
pub record Row : Type 0 where
  pub requirements : PaymentRequirements
  pub expires_at : ℕ
  pub payload_hash : Option String
  pub receipt : Option SettlementReceipt

abbrev pub Store : Type 0
Store = String → Option Row

abbrev pub write : Store → String → Row → Store
write db id row k = if k === id then some row else db k

-- `row.payload_hash ? String(row.payload_hash) : undefined`
abbrev text_or_undefined : Option String → Option String
text_or_undefined none = none
text_or_undefined (some s) = if truthy (some s) then some s else none

abbrev read : Option Row → Option Row
read none = none
read (some row) = some (record row { payload_hash = text_or_undefined row.payload_hash })

unfoldable pub get : Store → String → Option Row
get db id = read (db id)

-- `create`: `none` where the INSERT violates the primary key and throws.
unfoldable pub create : Store → String → PaymentRequirements → ℕ → Option Store
create db id requirements expires_at =
    if is_some (db id)
    then none
    else some (
        write db id (record {
          requirements = requirements;
          expires_at = expires_at;
          payload_hash = none;
          receipt = none;
        }))

pub data Claim : Type 0 where
  acquired pending conflict : Claim
  settled : SettlementReceipt → Claim

-- The UPDATE of `claim`, under `payload_hash IS NULL AND receipt_json IS NULL`.
abbrev claim_row : Store → String → String → Row → Claim × Store
claim_row db id payload_hash row =
    if not (is_some row.payload_hash) && not (is_some row.receipt)
    then (acquired, write db id (record row { payload_hash = some payload_hash }))
    else (conflict, db)

abbrev claim_seen : Store → String → String → Row → Option Row → Claim × Store
claim_seen db id payload_hash row none = (conflict, db)
claim_seen db id payload_hash row (some seen) = elim seen.receipt [
  | some receipt ↦
      if is_text seen.payload_hash payload_hash then (settled receipt, db) else (conflict, db)
  | none ↦
      if is_some seen.payload_hash
      then (if is_text seen.payload_hash payload_hash then (pending, db) else (conflict, db))
      else claim_row db id payload_hash row
]

unfoldable pub claim : Store → String → String → Claim × Store
unfolding get
claim db id payload_hash = elim (db id) [
  | none ↦ (conflict, db)
  | some row ↦ claim_seen db id payload_hash row (get db id)
]

-- The WHERE clause that `release` and `settle` share.
abbrev owns : Row → String → Bool
owns row payload_hash = is_text row.payload_hash payload_hash && not (is_some row.receipt)

unfoldable pub release : Store → String → String → Store
release db id payload_hash = elim (db id) [
  | none ↦ db
  | some row ↦
      if owns row payload_hash then write db id (record row { payload_hash = none }) else db
]

unfoldable pub settle : Store → String → String → SettlementReceipt → Store
settle db id payload_hash receipt = elim (db id) [
  | none ↦ db
  | some row ↦
      if owns row payload_hash then write db id (record row { receipt = some receipt }) else db
]
