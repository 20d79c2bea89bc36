-- ===== src/Policy/Simulation.antt =====
-- `validatePolicyAwareSimulationEvents` of packages/facilitator-policy/src/events.ts.
pub mod Sound
use Prim.Native.String.{◌++◌ as concat}
use agent_allowance.Common.{
  ℕ, ℤ, pos, String, Bool, true, false, not, ◌||◌, ◌&&◌, Option, none, some, List, [], ◌∷◌, ◌===◌,
  is_text, truthy, or_else, lookup, includes, find, select, any, all, eqb_ℤ, if◌then◌else◌, Flow,
  next, stop, stop_if, need, ◌>>=◌, ◌>>◌,
}
use agent_allowance.Xdr.{Sdk}
use agent_allowance.Policy.Manifest.{Adapter, Manifest, spending_limit_kind}
use agent_allowance.Policy.Events.{
  ExpectedTransfer, EventReason, manifest_mismatch, transfer_event_missing,
  transfer_event_duplicate, transfer_event_mismatch, policy_event_unapproved,
  policy_event_duplicate, policy_event_malformed, RawEvent, ParsedEvent, TransferEvent, Approved,
  parse_contract_events, parse_transfer, observed_is,
}
use agent_allowance.Policy.Spending.{check_spending}

-- `Record<string, string>`, the code hashes that were observed.
abbrev pub Hashes : Type 0
Hashes = Option (List (String × String))

abbrev pub observed : Hashes → String → Option String
observed none id = none
observed (some hashes) id = lookup id hashes

-- `verifyCodeIdentity`: an adapter without a pinned hash passes.
unfoldable pub identity_ok : Hashes → Adapter → Bool
identity_ok hashes a =
    not (truthy a.expected_wasm_hash)
    || observed_is (observed hashes a.contract_id) (or_else a.expected_wasm_hash "")

abbrev is_transfer : ParsedEvent → Bool
is_transfer e = is_text e.event_name "transfer"

abbrev pub not_transfer : ParsedEvent → Bool
not_transfer e = not (is_text e.event_name "transfer")

-- The adapter of a contract.
abbrev pub adapter_of : Manifest → String → Option Adapter
adapter_of m id = find (λ a. a.contract_id === id) m.adapters

event_key : Adapter → ParsedEvent → String
event_key a e =
    concat a.kind
      (concat ":" (concat e.contract_id (concat ":" (or_else e.event_name "<invalid>"))))

abbrev the_one : List ParsedEvent → Flow EventReason ParsedEvent
the_one [] = stop transfer_event_missing
the_one (e ∷ []) = next e
the_one (e ∷ f ∷ es) = stop transfer_event_duplicate

unfoldable pub is_expected : TransferEvent → ExpectedTransfer → Bool
is_expected t e =
    t.token === e.token
    && t.sender === e.sender
    && t.recipient === e.recipient
    && eqb_ℤ t.amount e.amount

-- Every required adapter has an approved event.
unfoldable pub required_seen : List Adapter → List Approved → Bool
required_seen as_ approved =
    all (λ a. not a.required || any (λ v. v.contract_id === a.contract_id) approved) as_

module _ (sdk : Sdk) (m : Manifest) (hashes : Hashes) (expected : ExpectedTransfer) where
  -- One policy event, under the keys that were seen before it.
  unfoldable pub check_event : List String → ParsedEvent → Flow EventReason Adapter
  unfolding event_key
  check_event seen e = do
    a ← need (adapter_of m e.contract_id) policy_event_unapproved
    stop_if (not (identity_ok hashes a)) manifest_mismatch
    stop_if (includes seen (event_key a e)) policy_event_duplicate
    stop_if (not (a.kind === spending_limit_kind)) policy_event_unapproved
    check_spending sdk e expected
    next a

  -- The loop over the policy events.
  unfoldable pub check_events : List String → List ParsedEvent → Flow EventReason (List Approved)
  unfolding event_key
  check_events seen [] = next []
  check_events seen (e ∷ es) = do
    a ← check_event seen e
    rest ← check_events (event_key a e ∷ seen) es
    next (record { kind = a.kind; contract_id = e.contract_id; event_name = e.event_name } ∷ rest)

  unfoldable pub check_transfer_event : List ParsedEvent → Flow EventReason (Unit {0})
  check_transfer_event parsed = do
    event ← the_one (select is_transfer parsed)
    found ← parse_transfer sdk event
    transfer ← need found transfer_event_mismatch
    stop_if (not (is_expected transfer expected)) transfer_event_mismatch

  abbrev rule_mismatch : Option ℤ → Bool
  rule_mismatch none = false
  rule_mismatch (some z) = not (eqb_ℤ z (pos expected.context_rule_id))

  unfoldable pub validate_simulation : List RawEvent → Flow EventReason (List Approved)
  validate_simulation events = do
    stop_if (truthy m.smart_account && not (is_text m.smart_account expected.sender))
        manifest_mismatch
    stop_if (rule_mismatch m.expected_rule_id) manifest_mismatch
    parsed ← parse_contract_events sdk events
    check_transfer_event parsed
    approved ← check_events [] (select not_transfer parsed)
    stop_if (not (required_seen m.adapters approved)) policy_event_malformed
    next approved
