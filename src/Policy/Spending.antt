-- ===== src/Policy/Spending.antt =====
-- `validateSpendingLimitEvent` of packages/facilitator-policy/src/events.ts.
pub mod Values
pub mod Sound
use agent_allowance.Common.{
  ℕ, ℤ, String, Bool, true, false, not, ◌||◌, ◌&&◌, Option, none, some, List, [], ◌∷◌, ◌===◌, ◌==◌,
  is_text, ltb_ℤ, lookup, length, if◌then◌else◌, Flow, next, stop, stop_if, need, ◌>>=◌, ◌>>◌,
}
use agent_allowance.Xdr.{
  ScVal, u32, i128, symbol, address, Native, bigint, array, natives, is_bigint, is_string, Sdk,
  sdk_call,
}
use agent_allowance.Policy.Events.{
  ExpectedTransfer, EventReason, policy_event_malformed, policy_event_context_mismatch, ParsedEvent,
  map_fields, property,
}

abbrev pub second_topic : List ScVal → Option ScVal
second_topic (a ∷ b ∷ []) = some b
second_topic other = none

abbrev as_address : ScVal → Option ScVal
as_address (address a) = some (address a)
as_address other = none

abbrev as_i128 : ScVal → Option ScVal
as_i128 (i128 hi lo) = some (i128 hi lo)
as_i128 other = none

abbrev as_u32 : ScVal → Option ℕ
as_u32 (u32 n) = some n
as_u32 other = none

-- `nativeTotal < nativeAmount` of two bigints.
abbrev pub big_below : Native → ℤ → Bool
big_below (bigint t) amount = ltb_ℤ t amount
big_below other amount = false

abbrev second : List Native → Option Native
second (a ∷ call ∷ []) = if is_string a "Contract" then some call else none
second other = none

abbrev context_call : Native → Option Native
context_call (array vs) = second (natives vs)
context_call other = none

abbrev three : List Native → ExpectedTransfer → Bool
three (a ∷ b ∷ c ∷ []) e = is_string a e.sender && is_string b e.recipient && is_bigint c e.amount
three other e = false

abbrev args_are : Native → ExpectedTransfer → Bool
args_are (array vs) e = three (natives vs) e
args_are other e = false

module _ (sdk : Sdk) where
  -- The fields' types: an amount, a rule and a total.
  unfoldable pub numeric_fields :
      List (String × ScVal) → Flow EventReason (ScVal × ℕ × ScVal × ScVal)
  numeric_fields fields = do
    stop_if (not (length fields == 4)) policy_event_malformed
    amount ← need (lookup "amount" fields) policy_event_malformed
    context ← need (lookup "context" fields) policy_event_malformed
    rule ← need (lookup "context_rule_id" fields) policy_event_malformed
    total ← need (lookup "total_spent_in_period" fields) policy_event_malformed
    amount_val ← need (as_i128 amount) policy_event_malformed
    rule_id ← need (as_u32 rule) policy_event_malformed
    total_val ← need (as_i128 total) policy_event_malformed
    next (amount_val, rule_id, total_val, context)

  -- The embedded call is the payment's transfer.
  unfoldable pub check_context : Native → ExpectedTransfer → Flow EventReason (Unit {0})
  check_context context expected = do
    call ← need (context_call context) policy_event_malformed
    contract ← property call "contract"
    stop_if (not (is_string contract expected.token)) policy_event_context_mismatch
    name ← property call "fn_name"
    stop_if (not (is_string name "transfer")) policy_event_context_mismatch
    args ← property call "args"
    stop_if (not (args_are args expected)) policy_event_context_mismatch

  unfoldable pub check_amounts : ScVal → ℕ → ScVal → ExpectedTransfer → Flow EventReason (Unit {0})
  check_amounts amount_val rule_id total_val expected = do
    amount ← sdk_call (sdk.native amount_val)
    total ← sdk_call (sdk.native total_val)
    stop_if
        (not (is_bigint amount expected.amount)
          || not (rule_id == expected.context_rule_id)
          || big_below total expected.amount)
        policy_event_context_mismatch

  -- The event names the payer.
  unfoldable pub check_payer : ParsedEvent → ExpectedTransfer → Flow EventReason (Unit {0})
  check_payer event expected = do
    stop_if (not (is_text event.event_name "spending_limit_enforced")) policy_event_malformed
    topic ← need (second_topic event.topics) policy_event_malformed
    payer_val ← need (as_address topic) policy_event_context_mismatch
    payer ← sdk_call (sdk.address_of_val payer_val)
    stop_if (not (payer === expected.sender)) policy_event_context_mismatch

  unfoldable pub check_spending : ParsedEvent → ExpectedTransfer → Flow EventReason (Unit {0})
  check_spending event expected = do
    check_payer event expected
    fields ← need (map_fields event.payload) policy_event_malformed
    (amount_val, rule_id, total_val, context_val) ← numeric_fields fields
    check_amounts amount_val rule_id total_val expected
    context ← sdk_call (sdk.native context_val)
    check_context context expected
