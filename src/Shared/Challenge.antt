-- ===== src/Shared/Challenge.antt =====
-- packages/shared/src/x402.ts: the payment header, the challenge and the choice of its option.
-- What `JSON.parse` of the decoded base64 text yields is a parameter.
use agent_allowance.Common.{
  ℕ, pos, String, Bool, true, false, not, ◌||◌, ◌&&◌, Option, none, some, List, [], ◌∷◌, ◌==◌,
  ◌===◌, leb, leb_ℤ, find, if◌then◌else◌, length, all,
}
use agent_allowance.Shared.{PaymentRequirements, StellarPaymentPayload}
use agent_allowance.Shared.Amounts.{AmountResult, codes, parse_atomic_amount}

-- `decodePaymentSignature`; `none` where it throws.
unfoldable pub decode_payment_signature :
    (String → Option StellarPaymentPayload) → String → Option StellarPaymentPayload
decode_payment_signature parse value = elim (parse value) [
  | none ↦ none
  | some decoded ↦
      if not (decoded.x402_version == 2) || decoded.transaction === "" then none else some decoded
]

-- `[A-Z2-7]`
abbrev is_base32 : ℕ → Bool
is_base32 c = leb b'A' c && leb c b'Z' || leb b'2' c && leb c b'7'

abbrev rest_is_base32 : List ℕ → Bool
rest_is_base32 cs = length cs == 55 && all is_base32 cs

abbrev contract_codes : List ℕ → Bool
contract_codes [] = false
contract_codes (c ∷ cs) = c == b'C' && rest_is_base32 cs

abbrev account_codes : List ℕ → Bool
account_codes [] = false
account_codes (c ∷ cs) = (c == b'C' || c == b'G') && rest_is_base32 cs

-- `/^C[A-Z2-7]{55}$/`
unfoldable pub is_contract : String → Bool
is_contract s = contract_codes (codes s)

-- `/^[CG][A-Z2-7]{55}$/`
unfoldable pub is_account : String → Bool
is_account s = account_codes (codes s)

pub record PaymentRequired : Type 0 where
  pub x402_version : ℕ
  pub resource_url : String
  pub accepts : List PaymentRequirements

abbrev is_ok : AmountResult → Bool
is_ok (AmountResult.ok n) = true
is_ok (AmountResult.err e) = false

abbrev option_ok : PaymentRequirements → Bool
option_ok accepted =
    accepted.scheme === "exact"
    && (accepted.network === "stellar:testnet" || accepted.network === "stellar:pubnet")
    && is_contract accepted.asset
    && is_account accepted.pay_to
    && not (leb_ℤ accepted.max_timeout_seconds (pos 0))
    && accepted.extra.are_fees_sponsored
    && is_ok (parse_atomic_amount accepted.amount)

abbrev accept_only : PaymentRequired → List PaymentRequirements → Option PaymentRequired
accept_only challenge [] = none
accept_only challenge (accepted ∷ []) = if option_ok accepted then some challenge else none
accept_only challenge (accepted ∷ other ∷ more) = none

-- `parsePaymentRequired` on a value that has the fields of a challenge; `none` where it throws.
unfoldable pub parse_payment_required : PaymentRequired → Option PaymentRequired
unfolding is_contract is_account parse_atomic_amount
parse_payment_required challenge =
    if challenge.x402_version == 2 then accept_only challenge challenge.accepts else none

-- `selectExactPayment`; `none` where it throws.
unfoldable pub select_exact_payment : PaymentRequired → String → Option PaymentRequirements
select_exact_payment challenge network =
    find (λ candidate. candidate.network === network) challenge.accepts
