-- ===== src/Examples/Amounts.antt =====
-- An amount as text.
use agent_allowance.Common.{◌≡◌, arith}
use agent_allowance.Shared.Amounts.{ok}
use agent_allowance.Shared.Decimal.{decimal_to_atomic, atomic_to_decimal}
use agent_allowance.Shared.Decimal.RoundTrip.{decimal_to_atomic-atomic_to_decimal}

decimal_to_atomic-atomic_to_decimal_example :
    decimal_to_atomic (atomic_to_decimal 12500000 7) 7 ≡ ok 12500000
decimal_to_atomic-atomic_to_decimal_example =
    decimal_to_atomic-atomic_to_decimal 12500000 6 (omega arith)
