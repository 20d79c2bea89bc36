-- ===== src/Agent/Allowances/Created.antt =====
-- What a new allowance holds.
use agent_allowance.Common.{
  ℕ, ℤ, pos, negsuc, ◌+◌, ◌*◌, ◌≤◌, ◌<◌, ◌≡◌, refl, String, true, false, not, ◌||◌, Option, none,
  some, List, [], ◌∷◌, ◌==◌, length, ltb_ℤ, ltb_ℤ-false, ◌≤ℤ◌, ceil_div_5, pos_part, is_text, next,
  stop_if, need, or_throw, >>=-eq-next, stop_if-next, need-next, call-next, next-injective, arith,
  eq_iff, ap, subst,
}
use agent_allowance.Shared.{
  AllowanceRecord, PolicyReason, configuration_error, signer_not_authorized,
}
use agent_allowance.Shared.Amounts.{parse_atomic_amount, AmountResult, ok, err}
use agent_allowance.Policy.Manifest.{is_blank}
use agent_allowance.Agent.Preflight.{amount_or_throw}
use agent_allowance.Agent.Evidence.{Evidence, put_allowance}
use agent_allowance.Agent.Allowances.{
  CreateInput, AgentConfig, CreatedRule, only, check_create, created_record, create_allowance,
}

-- An input that may become an allowance with this limit.
pub record IsCreatable (config : AgentConfig) (input : CreateInput) (max : ℕ) : Type 0 where
  pub labelled : is_blank input.label ≡ false
  pub recipient : String
  pub one : input.allowed_recipients ≡ recipient ∷ []
  pub recipient_address : config.is_address recipient ≡ true
  pub signer_address : config.is_address input.delegated_signer ≡ true
  pub configured : config.public_key input.delegated_signer ≡ some input.delegated_signer
  pub limit : parse_atomic_amount input.max_spend_atomic ≡ ok max
  pub window : pos 5 ≤ℤ input.window_seconds
  pub expiry : pos 10 ≤ℤ input.expires_in_seconds

only-eq : (xs : List String) (x : String) → (length xs == 1) ≡ true → only xs ≡ some x → xs ≡ x ∷ []
only-eq [] x h k = cc
only-eq (y ∷ []) x h k = cc
only-eq (y ∷ z ∷ xs) x h k = absurd (ground arith)

amount-eq : (r : AmountResult) (n : ℕ) → amount_or_throw {R = PolicyReason} r ≡ next n → r ≡ ok n
amount-eq (ok m) n h = cc
amount-eq (err e) n h = cc

same-eq : (o : Option String) (s : String) → is_text o s ≡ true → o ≡ some s
same-eq none s h = cc
same-eq (some t) s h = ground (arith, eq_iff t s)

check_create_sound :
    (config : AgentConfig) (input : CreateInput) (max : ℕ) (recipient : String)
    → check_create config input ≡ next (max, recipient)
    → IsCreatable config input max
unfolding check_create
check_create_sound config input max recipient h =
    let badly = is_blank input.label || not (length input.allowed_recipients == 1) in
    let (u1, h1, k1) = >>=-eq-next (stop_if badly configuration_error) _ h in
    let (u2, h2, k2) =
      >>=-eq-next (stop_if (not (config.is_address input.delegated_signer)) configuration_error) _
        k1 in
    let (r, h3, k3) = >>=-eq-next (need (only input.allowed_recipients) configuration_error) _ k2 in
    let (u4, h4, k4) = >>=-eq-next (stop_if (not (config.is_address r)) configuration_error) _ k3 in
    let unknown = not (is_text (config.public_key input.delegated_signer) input.delegated_signer) in
    let (u5, h5, k5) = >>=-eq-next (stop_if unknown signer_not_authorized) _ k4 in
    let (n, h6, k6) =
      >>=-eq-next (amount_or_throw (parse_atomic_amount input.max_spend_atomic)) _ k5 in
    let (u7, h7, k7) =
      >>=-eq-next (stop_if (ltb_ℤ input.window_seconds (pos 5)) configuration_error) _ k6 in
    let (u8, h8, k8) =
      >>=-eq-next (stop_if (ltb_ℤ input.expires_in_seconds (pos 10)) configuration_error) _ k7 in
    let e1 = stop_if-next badly configuration_error h1 in
    let e2 = stop_if-next (not (config.is_address input.delegated_signer)) configuration_error h2 in
    let e4 = stop_if-next (not (config.is_address r)) configuration_error h4 in
    let e5 = stop_if-next unknown signer_not_authorized h5 in
    let same : ◌≡◌ {A = ℕ × String} (n, r) (max, recipient) = next-injective k8 in
    record {
      labelled = ground arith;
      recipient = r;
      one =
          only-eq input.allowed_recipients r (ground arith)
            (need-next (only input.allowed_recipients) configuration_error h3);
      recipient_address = ground arith;
      signer_address = ground arith;
      configured =
          same-eq (config.public_key input.delegated_signer) input.delegated_signer (ground arith);
      limit = rw (← ap (λ (p : ℕ × String). p.0) same) (amount-eq _ n h6);
      window =
          ltb_ℤ-false input.window_seconds (pos 5)
            (stop_if-next (ltb_ℤ input.window_seconds (pos 5)) configuration_error h7);
      expiry =
          ltb_ℤ-false input.expires_in_seconds (pos 10)
            (stop_if-next (ltb_ℤ input.expires_in_seconds (pos 10)) configuration_error h8);
    }

-- The least number of ledgers that last this long at five seconds each.
abbrev pub IsLedgers : ℤ → ℕ → Type 0
IsLedgers seconds ledgers = (n : ℕ) × (seconds ≡ pos n) × (n ≤ 5 * ledgers) × (5 * ledgers < n + 5)

ceil_div_5-IsLedgers : (z : ℤ) → pos 5 ≤ℤ z → IsLedgers z (pos_part (ceil_div_5 z))
ceil_div_5-IsLedgers (pos n) h = (n, refl, omega arith, omega arith)
ceil_div_5-IsLedgers (negsuc n) h = absurd (ground arith)

-- A new allowance: its input, its place on the chain and in the store, and its times in ledgers.
pub record IsCreated (config : AgentConfig) (input : CreateInput) (ledger : Option ℕ)
    (rule : Option CreatedRule) (time : String) (db : Evidence) (a : AllowanceRecord)
    (db' : Evidence) : Type 0 where
  pub max : ℕ
  pub creatable : IsCreatable config input max
  pub latest : ℕ
  pub at_ledger : ledger ≡ some latest
  pub created : CreatedRule
  pub on_chain : rule ≡ some created
  pub is_record : a ≡ created_record config input max latest created time
  pub stored : put_allowance db a ≡ some db'
  pub window : IsLedgers input.window_seconds a.window_ledgers
  pub lifetime : ℕ
  pub lives : IsLedgers input.expires_in_seconds lifetime
  pub until : a.valid_until_ledger ≡ latest + lifetime

ten-five : (z : ℤ) → pos 10 ≤ℤ z → pos 5 ≤ℤ z
ten-five z h = omega arith

-- An allowance that is created has a label, one recipient and a configured signer whose addresses are
-- valid, and a positive limit; its rule was created on the chain before it is stored; its window and its
-- lifetime are the seconds of the input, rounded up to whole ledgers of five seconds, and it is stored as
-- active with nothing spent.
pub create_allowance_sound :
    (config : AgentConfig) (input : CreateInput) (ledger : Option ℕ) (rule : Option CreatedRule)
    (time : String) (db : Evidence) (a : AllowanceRecord) (db' : Evidence)
    → create_allowance config input ledger rule time db ≡ next (a, db')
    → IsCreated config input ledger rule time db a db'
unfolding create_allowance created_record
create_allowance_sound config input ledger rule time db a db' h =
    let ((max, recipient), h1, k1) = >>=-eq-next (check_create config input) _ h in
    let (latest, h2, k2) = >>=-eq-next (or_throw ledger "getLatestLedger") _ k1 in
    let (created, h3, k3) = >>=-eq-next (or_throw rule "createContextRule") _ k2 in
    let new = created_record config input max latest created time in
    let (db1, h4, k4) = >>=-eq-next (or_throw (put_allowance db new) "constraint failed") _ k3 in
    let c = check_create_sound config input max recipient h1 in
    let same : ◌≡◌ {A = AllowanceRecord × Evidence} (new, db1) (a, db') = next-injective k4 in
    subst (λ (p : AllowanceRecord × Evidence). IsCreated config input ledger rule time db p.0 p.1)
      same
      (record {
        max = max;
        creatable = c;
        latest = latest;
        at_ledger = call-next ledger "getLatestLedger" h2;
        created = created;
        on_chain = call-next rule "createContextRule" h3;
        is_record = refl;
        stored = call-next (put_allowance db new) "constraint failed" h4;
        window = ceil_div_5-IsLedgers input.window_seconds c.window;
        lifetime = pos_part (ceil_div_5 input.expires_in_seconds);
        lives =
            ceil_div_5-IsLedgers input.expires_in_seconds
              (ten-five input.expires_in_seconds c.expiry);
        until = refl;
      })
