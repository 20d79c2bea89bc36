-- ===== src/Agent/Preflight/Sound.antt =====
-- What an approval promises, and when an allowance is active.
use agent_allowance.Common.{
  ◌⊎◌, Bool-cases, if◌then◌else◌, ℕ, ℤ, pos, ◌-ℤ◌, ◌≤ℤ◌, ◌<ℤ◌, ◌≤◌, ◌<◌, String, Bool, true, false,
  not, ◌||◌, ◌≡◌, refl, Option, none, some, ltb, ltb_ℤ, includes, ◌===◌, or_else, next, stop_if,
  or_throw, arith, eq_iff, >>=-eq-next, stop_if-next, not-eq-false, or-eq-false, call-next,
  next-injective, subst, ltb_ℤ-false, ltb_ℤ_iff,
}
use agent_allowance.Shared.{
  AllowanceStatus, active, exhausted, expired, revoked, draft, PaymentRequirements, AllowanceRecord,
  PolicyReason, network_mismatch, asset_not_allowed, recipient_not_allowed, allowance_expired,
  allowance_not_active, budget_exceeded,
}
use agent_allowance.Shared.Amounts.{big_int, AmountResult, ok, err, parse_atomic_amount}
use agent_allowance.Agent.Preflight.{
  with_status, is_revoked, is_expired, is_active, amount_or_throw, preflight, Chain, budget_status,
  status_at, refresh, get_allowance,
}

pub record IsApproved (requirements : PaymentRequirements) (allowance : AllowanceRecord)
    (current_ledger : ℕ) (rest : ℤ) : Type 0 where
  pub network : requirements.network ≡ allowance.network
  pub asset : requirements.asset ≡ allowance.asset_contract
  pub recipient : includes allowance.allowed_recipients requirements.pay_to ≡ true
  pub current : current_ledger ≤ allowance.valid_until_ledger
  pub is_on : allowance.status ≡ active
  pub amount : ℕ
  pub max : ℤ
  pub spent : ℤ
  pub read_amount : parse_atomic_amount requirements.amount ≡ ok amount
  pub positive : 0 < amount
  pub read_max : big_int allowance.max_spend_atomic ≡ some max
  pub read_spent : big_int allowance.spent_atomic ≡ some spent
  pub covered : pos amount ≤ℤ (max -ℤ spent)
  pub rest_is : rest ≡ (max -ℤ spent) -ℤ pos amount

is_active-eq : (s : AllowanceStatus) → is_active s ≡ true → s ≡ active
is_active-eq draft h = cc
is_active-eq active h = refl
is_active-eq exhausted h = cc
is_active-eq expired h = cc
is_active-eq revoked h = cc
is_active-eq AllowanceStatus.error h = cc

amount_or_throw-eq :
    (r : AmountResult) (n : ℕ) → amount_or_throw {R = PolicyReason} r ≡ next n → r ≡ ok n
amount_or_throw-eq (ok m) n h = cc
amount_or_throw-eq (err e) n h = cc

positive_amount : (s : String) (n : ℕ) → parse_atomic_amount s ≡ ok n → 0 < n
unfolding parse_atomic_amount
positive_amount s n h = ground arith

-- An approval is for the allowance's network and asset and one of its recipients, under an active
-- allowance that the current ledger has not passed; the amount is a positive number of atomic units,
-- what is left of the budget covers it, and the approval returns what is left after it.
pub preflight_sound :
    (requirements : PaymentRequirements) (allowance : AllowanceRecord) (current_ledger : ℕ)
    (rest : ℤ)
    → preflight requirements allowance current_ledger ≡ next rest
    → IsApproved requirements allowance current_ledger rest
unfolding preflight
preflight_sound requirements allowance current_ledger rest h =
    let listed = includes allowance.allowed_recipients requirements.pay_to in
    let late = ltb allowance.valid_until_ledger current_ledger in
    let (u1, h1, k1) =
      >>=-eq-next (stop_if (not (requirements.network === allowance.network)) _) _ h in
    let (u2, h2, k2) =
      >>=-eq-next (stop_if (not (requirements.asset === allowance.asset_contract)) _) _ k1 in
    let (u3, h3, k3) = >>=-eq-next (stop_if (not listed) _) _ k2 in
    let (u4, h4, k4) = >>=-eq-next (stop_if (is_revoked allowance.status) _) _ k3 in
    let (u5, h5, k5) = >>=-eq-next (stop_if (late || is_expired allowance.status) _) _ k4 in
    let (u6, h6, k6) = >>=-eq-next (stop_if (not (is_active allowance.status)) _) _ k5 in
    let (n, h7, k7) =
      >>=-eq-next (amount_or_throw (parse_atomic_amount requirements.amount)) _ k6 in
    let (m, h8, k8) = >>=-eq-next (or_throw (big_int allowance.max_spend_atomic) _) _ k7 in
    let (s, h9, k9) = >>=-eq-next (or_throw (big_int allowance.spent_atomic) _) _ k8 in
    let (u10, h10, k10) = >>=-eq-next (stop_if (ltb_ℤ (m -ℤ s) (pos n)) _) _ k9 in
    let in_time = (or-eq-false late _ (stop_if-next _ allowance_expired h5)).0 in
    subst (IsApproved requirements allowance current_ledger) (next-injective k10) (record {
      network =
          (eq_iff requirements.network allowance.network).0
            (not-eq-false _ (stop_if-next _ network_mismatch h1));
      asset =
          (eq_iff requirements.asset allowance.asset_contract).0
            (not-eq-false _ (stop_if-next _ asset_not_allowed h2));
      recipient = not-eq-false listed (stop_if-next _ recipient_not_allowed h3);
      current = ground (arith, in_time);
      is_on = is_active-eq _ (not-eq-false _ (stop_if-next _ allowance_not_active h6));
      amount = n;
      max = m;
      spent = s;
      read_amount = amount_or_throw-eq _ n h7;
      positive = positive_amount requirements.amount n (amount_or_throw-eq _ n h7);
      read_max = call-next _ "BigInt" h8;
      read_spent = call-next _ "BigInt" h9;
      covered = ltb_ℤ-false (m -ℤ s) (pos n) (stop_if-next _ budget_exceeded h10);
      rest_is = refl;
    })

budget_status-active :
    (spent max : Option ℤ)
    → budget_status spent max ≡ active
    → (s : ℤ) × (m : ℤ) × (spent ≡ some s) × (max ≡ some m) × (s <ℤ m)
budget_status-active (some s) (some m) h = (s, m, refl, refl, below (Bool-cases (ltb_ℤ s m)))
  where
    below : (ltb_ℤ s m ≡ true) ⊎ (ltb_ℤ s m ≡ false) → s <ℤ m
    below c = ground (arith, ltb_ℤ_iff s m)
budget_status-active none max h = cc
budget_status-active (some s) none h = cc

with_status-active :
    (a : AllowanceRecord) (spent : String) (s : AllowanceStatus) (now : String)
    → (with_status a spent s now).status ≡ active
    → s ≡ active
with_status-active a spent draft now h = h
with_status-active a spent active now h = refl
with_status-active a spent exhausted now h = h
with_status-active a spent expired now h = h
with_status-active a spent revoked now h = h
with_status-active a spent AllowanceStatus.error now h = h

-- The chain's answer under which an allowance is active: the latest ledger is not past its end and
-- the total that the policy reports (the stored one where it reports none) is below its maximum.
pub record IsOpen (allowance : AllowanceRecord) (chain : Chain) : Type 0 where
  pub latest : ℕ
  pub total : Option String
  pub answered : chain ≡ some (latest, total)
  pub in_time : latest ≤ allowance.valid_until_ledger
  pub spent : ℤ
  pub max : ℤ
  pub read_spent : big_int (or_else total allowance.spent_atomic) ≡ some spent
  pub read_max : big_int allowance.max_spend_atomic ≡ some max
  pub below : spent <ℤ max

status_at-active :
    (a : AllowanceRecord) (latest : ℕ) (total : Option String)
    → status_at a latest (or_else total a.spent_atomic) ≡ active
    → IsOpen a (some (latest, total))
unfolding status_at
status_at-active a latest total h =
    let late = ltb a.valid_until_ledger latest in
    let here = in_time late (Bool-cases late) h in
    let (s, m, hs, hm, less) =
      budget_status-active (big_int (or_else total a.spent_atomic)) (big_int a.max_spend_atomic)
        here.1 in
    record {
      latest = latest;
      total = total;
      answered = refl;
      in_time = ground (arith, here.0);
      spent = s;
      max = m;
      read_spent = hs;
      read_max = hm;
      below = less;
    }
  where
    in_time :
        {s : AllowanceStatus} (b : Bool)
        → (b ≡ true) ⊎ (b ≡ false)
        → (if b then expired else s) ≡ active
        → (b ≡ false) × (s ≡ active)
    in_time true c h = cc
    in_time false c h = (refl, h)

active_unrevoked : (s : AllowanceStatus) → s ≡ active → is_revoked s ≡ false
active_unrevoked s e = grind arith

kept-active :
    (a r : AllowanceRecord) (b : Bool)
    → is_revoked a.status ≡ b
    → (if b then a else r).status ≡ active
    → (is_revoked a.status ≡ false) × (r.status ≡ active)
kept-active a r true e h = ground (arith, active_unrevoked a.status)
kept-active a r false e h = (e, h)

-- A record that the agent reads from its store comes back active only if it was not revoked and the
-- chain's answer leaves it open.
pub get_allowance-active :
    (allowance : AllowanceRecord) (chain : Chain) (now : String)
    → (get_allowance allowance chain now).status ≡ active
    → (is_revoked allowance.status ≡ false) × IsOpen allowance chain
unfolding get_allowance refresh
get_allowance-active allowance none now h =
    let errored = record allowance { status = AllowanceStatus.error; updated_at = now } in
    let impossible = (kept-active allowance errored (is_revoked allowance.status) refl h).1 in cc
get_allowance-active allowance (some (latest, total)) now h =
    let spent = or_else total allowance.spent_atomic in
    let status = status_at allowance latest spent in
    let (live, e) =
      kept-active allowance (with_status allowance spent status now) (is_revoked allowance.status)
        refl h in
    (
      live,
      status_at-active allowance latest total (with_status-active allowance spent status now e),
    )
