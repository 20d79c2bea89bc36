-- ===== src/Payer/Fee.antt =====
-- `selectTransactionFeeStroops` of packages/x402-payer/src/payment.ts.
pub mod Bounds
use agent_allowance.Common.{
  ℕ, ◌+◌, ◌-◌, ◌/◌, String, Bool, Option, none, some, not, ◌||◌, leb, ltb, or_else, truthy,
  if◌then◌else◌,
}
use agent_allowance.Shared.Amounts.{codes, is_digits, digits_value}

pub data FeeResult : Type 0 where
  fee : ℕ → FeeResult
  invalid_minimum invalid_maximum over_cap : FeeResult

-- `minimum + ceil(minimum / 10) + 100`, as the source rounds it.
unfoldable pub headroom_fee : ℕ → ℕ
headroom_fee minimum = minimum + (minimum + 10 - 1) / 10 + 100

abbrev default_max_fee : String
default_max_fee = "10000000"

unfoldable pub select_transaction_fee : Option String → Option String → FeeResult
unfolding headroom_fee
select_transaction_fee min_resource_fee max_fee =
    let min_text = codes (or_else min_resource_fee "") in
    let max_text = codes (or_else max_fee default_max_fee) in
    if not (truthy min_resource_fee) || not (is_digits min_text)
    then invalid_minimum
    else if not (is_digits max_text) || leb (digits_value max_text 0) 0
    then invalid_maximum
    else if ltb (digits_value max_text 0) (headroom_fee (digits_value min_text 0))
    then over_cap
    else fee (headroom_fee (digits_value min_text 0))
