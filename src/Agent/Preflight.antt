-- ===== src/Agent/Preflight.antt =====
-- `preflight` and `#getAllowance` of packages/sdk/src/agent-allowance.ts. The ledger and the total that
-- the spending policy reports are what the chain answered, `none` where one of the two calls failed.
pub mod Sound
use agent_allowance.Common.{
  ℕ, ℤ, pos, ◌-ℤ◌, String, Bool, true, false, not, ◌||◌, Option, none, some, ltb, ltb_ℤ, includes,
  ◌===◌, or_else, if◌then◌else◌, Flow, next, stop, thrown, stop_if, or_throw, need, ◌>>=◌, ◌>>◌,
}
use agent_allowance.Shared.{
  AllowanceStatus, active, exhausted, expired, revoked, PaymentRequirements, AllowanceRecord,
  PolicyReason, network_mismatch, asset_not_allowed, recipient_not_allowed, allowance_revoked,
  allowance_expired, allowance_not_active, budget_exceeded,
}
use agent_allowance.Shared.Amounts.{big_int, AmountResult, ok, err, parse_atomic_amount}

abbrev pub is_revoked : AllowanceStatus → Bool
is_revoked revoked = true
is_revoked other = false

abbrev pub is_expired : AllowanceStatus → Bool
is_expired expired = true
is_expired other = false

abbrev pub is_active : AllowanceStatus → Bool
is_active active = true
is_active other = false

abbrev pub amount_or_throw : {R : Type 0} → AmountResult → Flow R ℕ
amount_or_throw (ok n) = next n
amount_or_throw (err e) = thrown "amount"

-- `preflight`: `stop r` is a refusal for the reason `r`, `next n` an approval that leaves `n`.
unfoldable pub preflight : PaymentRequirements → AllowanceRecord → ℕ → Flow PolicyReason ℤ
preflight requirements allowance current_ledger = do
  stop_if (not (requirements.network === allowance.network)) network_mismatch
  stop_if (not (requirements.asset === allowance.asset_contract)) asset_not_allowed
  stop_if (not (includes allowance.allowed_recipients requirements.pay_to)) recipient_not_allowed
  stop_if (is_revoked allowance.status) allowance_revoked
  stop_if (ltb allowance.valid_until_ledger current_ledger || is_expired allowance.status)
      allowance_expired
  stop_if (not (is_active allowance.status)) allowance_not_active
  amount ← amount_or_throw (parse_atomic_amount requirements.amount)
  max ← or_throw (big_int allowance.max_spend_atomic) "BigInt"
  spent ← or_throw (big_int allowance.spent_atomic) "BigInt"
  stop_if (ltb_ℤ (max -ℤ spent) (pos amount)) budget_exceeded
  next ((max -ℤ spent) -ℤ pos amount)

-- What the chain answers: the latest ledger and the cached total, which may be missing.
abbrev pub Chain : Type 0
Chain = Option (ℕ × Option String)

-- `BigInt(spent) >= BigInt(max) ? "EXHAUSTED" : "ACTIVE"`, which throws at a text that is no number.
abbrev pub budget_status : Option ℤ → Option ℤ → AllowanceStatus
budget_status (some spent) (some max) = if ltb_ℤ spent max then active else exhausted
budget_status spent max = AllowanceStatus.error

unfoldable pub status_at : AllowanceRecord → ℕ → String → AllowanceStatus
status_at allowance latest spent =
    if ltb allowance.valid_until_ledger latest
    then expired
    else budget_status (big_int spent) (big_int allowance.max_spend_atomic)

abbrev pub with_status : AllowanceRecord → String → AllowanceStatus → String → AllowanceRecord
with_status allowance spent AllowanceStatus.error now = record allowance {
  status = AllowanceStatus.error;
  updated_at = now;
}
with_status allowance spent status now = record allowance {
  spent_atomic = spent;
  status = status;
  updated_at = now;
}

-- The record that `#getAllowance` puts into the store and returns.
unfoldable pub refresh : AllowanceRecord → Chain → String → AllowanceRecord
refresh allowance none now = record allowance { status = AllowanceStatus.error; updated_at = now }
refresh allowance (some (latest, total)) now =
    let spent = or_else total allowance.spent_atomic in
    with_status allowance spent (status_at allowance latest spent) now

-- `#getAllowance` of a record that the store holds: a revoked one is returned as it is.
unfoldable pub get_allowance : AllowanceRecord → Chain → String → AllowanceRecord
get_allowance allowance chain now =
    if is_revoked allowance.status then allowance else refresh allowance chain now
