-- ===== src/Agent/Allowances.antt =====
-- packages/sdk/src/agent-allowance.ts: the creation and the revocation of an allowance.
pub mod Created
use agent_allowance.Common.{
  ℕ, ℤ, pos, ◌+◌, String, Bool, true, false, not, ◌||◌, Option, none, some, List, [], ◌∷◌, ◌==◌,
  ◌===◌, length, ltb_ℤ, ceil_div_5, pos_part, is_text, if◌then◌else◌, Flow, next, stop, thrown,
  stop_if, need, or_throw, ◌>>=◌, ◌>>◌,
}
use agent_allowance.Shared.{
  AllowanceRecord, AllowanceStatus, active, revoked, PolicyReason, configuration_error,
  signer_not_authorized, allowance_not_found,
}
use agent_allowance.Shared.Amounts.{parse_atomic_amount}
use agent_allowance.Policy.Manifest.{is_blank}
use agent_allowance.Agent.Preflight.{amount_or_throw, is_revoked}
use agent_allowance.Agent.Evidence.{Evidence, get_allowance_row, put_allowance}

-- The numbers of seconds are integers.
pub record CreateInput : Type 0 where
  pub label : String
  pub delegated_signer : String
  pub max_spend_atomic : String
  pub window_seconds : ℤ
  pub allowed_recipients : List String
  pub expires_in_seconds : ℤ

-- What the code reads of the configuration: also the public key of each configured signer, whether
-- `Address.fromString` accepts a text, and the decimal text of a number.
pub record AgentConfig : Type 0 where
  pub network : String
  pub treasury_contract : String
  pub asset_contract : String
  pub public_key : String → Option String
  pub is_address : String → Bool
  pub decimal : ℕ → String

abbrev pub only : List String → Option String
only [] = none
only (x ∷ xs) = some x

-- `#createAllowance` up to the latest ledger: the limit that was parsed, and the recipient.
unfoldable pub check_create : AgentConfig → CreateInput → Flow PolicyReason (ℕ × String)
check_create config input = do
  stop_if (is_blank input.label || not (length input.allowed_recipients == 1)) configuration_error
  stop_if (not (config.is_address input.delegated_signer)) configuration_error
  recipient ← need (only input.allowed_recipients) configuration_error
  stop_if (not (config.is_address recipient)) configuration_error
  stop_if (not (is_text (config.public_key input.delegated_signer) input.delegated_signer))
      signer_not_authorized
  max ← amount_or_throw (parse_atomic_amount input.max_spend_atomic)
  stop_if (ltb_ℤ input.window_seconds (pos 5)) configuration_error
  stop_if (ltb_ℤ input.expires_in_seconds (pos 10)) configuration_error
  next (max, recipient)

-- `createContextRule`'s answer
pub record CreatedRule : Type 0 where
  pub context_rule_id : ℕ
  pub transaction_hash : String

unfoldable pub created_record :
    AgentConfig → CreateInput → ℕ → ℕ → CreatedRule → String → AllowanceRecord
created_record config input max latest rule time = record {
  allowance_id = config.decimal rule.context_rule_id;
  label = input.label;
  network = config.network;
  treasury_contract = config.treasury_contract;
  asset_contract = config.asset_contract;
  delegated_signer = input.delegated_signer;
  max_spend_atomic = config.decimal max;
  spent_atomic = "0";
  window_ledgers = pos_part (ceil_div_5 input.window_seconds);
  allowed_recipients = input.allowed_recipients;
  valid_until_ledger = latest + pos_part (ceil_div_5 input.expires_in_seconds);
  context_rule_id = rule.context_rule_id;
  create_tx_hash = some rule.transaction_hash;
  revoke_tx_hash = none;
  status = active;
  created_at = time;
  updated_at = time;
}

-- `#createAllowance`, with the latest ledger and the created rule, `none` where they throw.
unfoldable pub create_allowance :
    AgentConfig
    → CreateInput
    → Option ℕ
    → Option CreatedRule
    → String
    → Evidence
    → Flow PolicyReason (AllowanceRecord × Evidence)
create_allowance config input ledger rule time db = do
  (max, recipient) ← check_create config input
  latest ← or_throw ledger "getLatestLedger"
  created ← or_throw rule "createContextRule"
  let allowance = created_record config input max latest created time
  db' ← or_throw (put_allowance db allowance) "constraint failed"
  next (allowance, db')

abbrev revoke_found :
    Option String
    → String
    → Evidence
    → AllowanceRecord
    → Flow PolicyReason (AllowanceRecord × Evidence)
revoke_found hash time db row =
    let updated = record row { status = revoked; revoke_tx_hash = hash; updated_at = time } in
    let stored = or_throw hash "revokeContextRule" >>= λ h.
    or_throw (put_allowance db updated) "constraint failed" >>= λ db'. next (updated, db') in
    if is_revoked row.status then next (row, db) else stored

-- `#revokeAllowance`, with the hash of the transaction that removes the rule, `none` where that throws.
-- The store is read before the transaction and written after it.
unfoldable pub revoke_allowance :
    String
    → Option String
    → String
    → Evidence
    → Evidence
    → Flow PolicyReason (AllowanceRecord × Evidence)
revoke_allowance id hash time before db = do
  row ← need (get_allowance_row before id) allowance_not_found
  revoke_found hash time db row
