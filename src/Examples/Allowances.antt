-- ===== src/Examples/Allowances.antt =====
-- An allowance of one hundred units, and a payment of five under it.
use agent_allowance.Shared.Amounts.{big_int, parse_atomic_amount}
use agent_allowance.Common.{pos, none, some, [], ◌∷◌, false, ◌≡◌, refl}
use agent_allowance.Shared.{AllowanceRecord, active, exhausted}
use agent_allowance.Agent.Preflight.{status_at, refresh, preflight, get_allowance, is_revoked}
use agent_allowance.Agent.Preflight.Sound.{
  IsApproved, preflight_sound, IsOpen, get_allowance-active,
}
use agent_allowance.Examples.Fixtures.{payer, token, delegate, merchant, testnet, requirements}

abbrev pub allowance : AllowanceRecord
allowance = record {
  allowance_id = "4";
  label = "research";
  network = testnet;
  treasury_contract = payer;
  asset_contract = token;
  delegated_signer = delegate;
  max_spend_atomic = "100";
  spent_atomic = "40";
  window_ledgers = 720;
  allowed_recipients = merchant ∷ [];
  valid_until_ledger = 5000;
  context_rule_id = 4;
  create_tx_hash = none;
  revoke_tx_hash = none;
  status = active;
  created_at = "";
  updated_at = "";
}

preflight_sound_example : IsApproved requirements allowance 4000 (pos 55)
unfolding preflight parse_atomic_amount big_int
preflight_sound_example = preflight_sound requirements allowance 4000 (pos 55) refl

-- The same allowance after its budget was once used up.
abbrev spent : AllowanceRecord
spent = record allowance { spent_atomic = "100"; status = exhausted }

get_allowance-active_example :
    (is_revoked spent.status ≡ false) × IsOpen spent (some (4000, some "60"))
unfolding get_allowance refresh status_at big_int
get_allowance-active_example = get_allowance-active spent (some (4000, some "60")) "later" refl
