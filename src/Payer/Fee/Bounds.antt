-- ===== src/Payer/Fee/Bounds.antt =====
-- The fee that is chosen lies between the simulation's minimum and the configured cap.
use agent_allowance.Common.{ℕ, ◌+◌, ◌*◌, ◌≤◌, ◌<◌, ◌≡◌, String, Option, or_else, arith}
use agent_allowance.Shared.Amounts.{codes, digits_value}
use agent_allowance.Payer.Fee.{fee, select_transaction_fee, default_max_fee}

-- A fee that is chosen is at most the cap (the default one where none is configured) and lies
-- within one stroop above the simulation's minimum plus a tenth of it plus 100 stroops.
pub select_transaction_fee-bounds :
    (min_resource_fee max_fee : Option String) (chosen : ℕ)
    → select_transaction_fee min_resource_fee max_fee ≡ fee chosen
    → let minimum = digits_value (codes (or_else min_resource_fee "")) 0 in
      (chosen ≤ digits_value (codes (or_else max_fee default_max_fee)) 0)
      × (11 * minimum + 1000 ≤ 10 * chosen)
      × (10 * chosen < 11 * minimum + 1010)
unfolding select_transaction_fee
select_transaction_fee-bounds min_resource_fee max_fee chosen h = ground arith
