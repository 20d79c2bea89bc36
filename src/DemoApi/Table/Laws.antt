-- ===== src/DemoApi/Table/Laws.antt =====
-- What the table's methods do to a row, and that they leave every other row alone.
use agent_allowance.Common.{String, ◌≡◌, ◌≢◌, Option, none, some, arith, eq_iff, ===_refl}
use agent_allowance.Shared.{SettlementReceipt}
use agent_allowance.DemoApi.Table.{Row, Store, acquired, claim, release, settle}

-- The row is claimed by this hash and not settled.
abbrev pub Held : Option Row → String → Type 0
Held none h = ⊥
Held (some row) h = (row.payload_hash ≡ some h) × (row.receipt ≡ none)

-- The row is claimed, settled or not.
abbrev pub Claimed : Option Row → Type 0
Claimed none = ⊥
Claimed (some row) = row.payload_hash ≢ none

module _ (db : Store) (id payload_hash : String) where
  pub claim_others : (k : String) → k ≢ id → (claim db id payload_hash).1 k ≡ db k
  unfolding claim
  claim_others k h = ground (arith, eq_iff k id)

  pub claim-Held :
      (claim db id payload_hash).0 ≡ acquired → Held ((claim db id payload_hash).1 id) payload_hash
  unfolding claim
  claim-Held h = ground (arith, ===_refl id)

  pub claim-not-Claimed : (claim db id payload_hash).0 ≡ acquired → ¬ (Claimed (db id))
  unfolding claim
  claim-not-Claimed h c = ground arith

  pub claim_same : (claim db id payload_hash).0 ≢ acquired → (claim db id payload_hash).1 ≡ db
  unfolding claim
  claim_same h = ground arith

  pub release_others : (k : String) → k ≢ id → release db id payload_hash k ≡ db k
  unfolding release
  release_others k h = ground (arith, eq_iff k id)

  pub settle_others :
      (receipt : SettlementReceipt) (k : String)
      → k ≢ id
      → settle db id payload_hash receipt k ≡ db k
  unfolding settle
  settle_others receipt k h = ground (arith, eq_iff k id)

  pub settle-Claimed :
      (receipt : SettlementReceipt)
      → Claimed (db id)
      → Claimed (settle db id payload_hash receipt id)
  unfolding settle
  settle-Claimed receipt c = ground (arith, ===_refl id)
