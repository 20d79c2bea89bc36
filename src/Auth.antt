-- ===== src/Auth.antt =====
-- packages/stellar-smart-account-auth/src/validate.ts: `validateDelegatedAuthorizationEntries`, cut
-- into its checks. `stop` is `{ valid: false, reason }`, `next` is `{ valid: true, ... }`.
pub mod Sound
pub mod Building
use agent_allowance.Common.{
  ℕ, ℤ, pos, eqb_ℤ, String, Bool, true, false, not, ◌||◌, ◌&&◌, Option, none, some, List, [], ◌∷◌,
  ◌++◌, ◌==◌, ◌===◌, is_text, lookup, length, Flow, next, stop, thrown, stop_if, need, ◌>>=◌, ◌>>◌,
  if◌then◌else◌,
}
use agent_allowance.Xdr.{
  ScAddress, ScVal, void, u32, symbol, bytes, address, vec, map, items, entries, Native, is_bigint,
  InvokeArgs, AuthorizedFunction, contract_fn, other_fn, AddressCredentials, Credentials,
  by_address, other_credentials, AuthEntry, Preimage, handed, not_called, failed, Sdk, sdk_call,
}

pub data AuthReason : Type 0 where
  structure_invalid entry_unsigned payer_mismatch delegate_mismatch : AuthReason
  rule_selection_invalid digest_mismatch expiration_mismatch : AuthReason

pub record Transfer : Type 0 where
  pub token : String
  pub sender : String
  pub recipient : String
  pub amount : ℤ

pub record AuthValid : Type 0 where
  pub payer : String
  pub delegate : String
  pub context_rule_ids : List ℕ

unfoldable pub contract_function : AuthEntry → Option InvokeArgs
contract_function e = elim e.function [
  | contract_fn call ↦ if e.sub_invocations == 0 then some call else none
  | other_fn name ↦ none
]

-- The bytes of a value that is bytes.
abbrev pub as_bytes : ScVal → Option (List ℕ)
as_bytes (bytes b) = some b
as_bytes other = none

unfoldable pub is_void : ScVal → Bool
is_void void = true
is_void other = false

-- `byName` after the loop: the latest entry first, or `none` at a key that is no symbol.
names_from : List (String × ScVal) → List (ScVal × ScVal) → Option (List (String × ScVal))
names_from seen [] = some seen
names_from seen ((symbol name, v) ∷ rest) = names_from ((name, v) ∷ seen) rest
names_from seen ((other, v) ∷ rest) = none

rule_ids_from : List ScVal → Option (List ℕ)
rule_ids_from [] = some []
rule_ids_from (u32 id ∷ rest) = elim (rule_ids_from rest) [
  | none ↦ none
  | some ids ↦ some (id ∷ ids)
]
rule_ids_from (other ∷ rest) = none

-- At least one rule.
abbrev read_rule_ids : Option ScVal → Option (List ℕ)
read_rule_ids (some (vec vs)) = elim (rule_ids_from (items vs)) [
  | none ↦ none
  | some [] ↦ none
  | some (id ∷ ids) ↦ some (id ∷ ids)
]
read_rule_ids other = none

abbrev delegated_parts : List ScVal → Option ScAddress
delegated_parts (symbol name ∷ address a ∷ []) = if name === "Delegated" then some a else none
delegated_parts other = none

abbrev signer_parts : List (ScVal × ScVal) → Option ScAddress
signer_parts ((vec parts, bytes []) ∷ []) = delegated_parts (items parts)
signer_parts other = none

-- The one signer: `["Delegated", address]` with an empty signature.
abbrev read_signer : Option ScVal → Option ScAddress
read_signer (some (map signers)) = signer_parts (entries signers)
read_signer other = none

abbrev both : Option (List ℕ) → Option ScAddress → Option (ScAddress × List ℕ)
both (some ids) (some signer) = some (signer, ids)
both ids signer = none

abbrev read_named : Option (List (String × ScVal)) → Option (ScAddress × List ℕ)
read_named none = none
read_named (some names) =
    both (read_rule_ids (lookup "context_rule_ids" names)) (read_signer (lookup "signers" names))

-- `readAuthPayload`, up to the conversion of the delegate's address.
unfoldable pub read_auth_payload : ScVal → Option (ScAddress × List ℕ)
unfolding names_from rule_ids_from
read_auth_payload (map es) =
    if length (entries es) == 2 then read_named (names_from [] (entries es)) else none
read_auth_payload other = none

-- The test under `expectedRuleId !== undefined`.
unfoldable pub selects : Option ℤ → List ℕ → Bool
selects none ids = true
selects (some expected) (id ∷ []) = eqb_ℤ (pos id) expected
selects (some expected) other = false

-- `Buffer.equals`
unfoldable pub same_bytes : List ℕ → List ℕ → Bool
same_bytes [] [] = true
same_bytes (a ∷ as_) (b ∷ bs) = a == b && same_bytes as_ bs
same_bytes other others = false

module _ (sdk : Sdk) where
  abbrev address_of_credentials : {R : Type 0} → Credentials → Flow R (Option String)
  address_of_credentials (by_address c) =
      sdk_call (sdk.address_text c.address) >>= λ a. next (some a)
  address_of_credentials (other_credentials name) = next none

  unfoldable pub address_of : {R : Type 0} → AuthEntry → Flow R (Option String)
  address_of e = address_of_credentials e.credentials

  abbrev pick_second :
      AuthEntry → AuthEntry → Option String → String → Flow AuthReason (AuthEntry × AuthEntry)
  pick_second a b second sender = if is_text second sender then next (b, a) else stop payer_mismatch

  -- The payer's entry is the first that names the payer, the delegate's is the other one.
  unfoldable pub pick_entries : List AuthEntry → String → Flow AuthReason (AuthEntry × AuthEntry)
  pick_entries (a ∷ b ∷ []) sender = do
    first ← address_of a
    let later = address_of b >>= λ second. pick_second a b second sender
    if is_text first sender then next (a, b) else later
  pick_entries other sender = stop structure_invalid

  abbrev need_credentials : Credentials → Flow AuthReason AddressCredentials
  need_credentials (by_address c) = next c
  need_credentials (other_credentials name) = stop structure_invalid

  -- Address credentials, signed, with one expiration.
  unfoldable pub check_credentials :
      AuthEntry → AuthEntry → Flow AuthReason (AddressCredentials × AddressCredentials)
  check_credentials payer_entry delegate_entry = do
    payer ← need_credentials payer_entry.credentials
    delegate ← need_credentials delegate_entry.credentials
    stop_if (is_void payer.signature || is_void delegate.signature) entry_unsigned
    stop_if (not (payer.expiration_ledger == delegate.expiration_ledger)) expiration_mismatch
    next (payer, delegate)

  abbrev three : {R A : Type 0} → List A → R → Flow R (A × A × A)
  three (a ∷ b ∷ c ∷ []) r = next (a, b, c)
  three other r = stop r

  -- The payer's root invocation is the required transfer. (The later operands of the source's `||`
  -- are read only if the earlier ones are false.)
  unfoldable pub check_transfer : AuthEntry → Transfer → Flow AuthReason (Unit {0})
  check_transfer payer_entry transfer = do
    call ← need (contract_function payer_entry) structure_invalid
    stop_if (not (call.function_name === "transfer")) structure_invalid
    token ← sdk_call (sdk.address_text call.contract_address)
    stop_if (not (token === transfer.token)) payer_mismatch
    (sender_val, recipient_val, amount_val) ← three call.args payer_mismatch
    sender ← sdk_call (sdk.address_of_val sender_val)
    stop_if (not (sender === transfer.sender)) payer_mismatch
    recipient ← sdk_call (sdk.address_of_val recipient_val)
    stop_if (not (recipient === transfer.recipient)) payer_mismatch
    amount ← sdk_call (sdk.native amount_val)
    stop_if (not (is_bigint amount transfer.amount)) payer_mismatch

  -- The delegate and the rules that the payer's signature names.
  unfoldable pub check_payload : ScVal → Option ℤ → Flow AuthReason (String × List ℕ)
  check_payload signature expected_rule_id = do
    (signer, ids) ← need (read_auth_payload signature) structure_invalid
    delegate ← sdk_call (sdk.address_of_val (address signer))
    stop_if (not (selects expected_rule_id ids)) rule_selection_invalid
    next (delegate, ids)

  abbrev one : {R A : Type 0} → List A → R → Flow R A
  one (a ∷ []) r = next a
  one other r = stop r

  -- The delegate's entry invokes `__check_auth` of the payer with 32 bytes, which are returned.
  unfoldable pub check_delegate : AuthEntry → String → String → Flow AuthReason (List ℕ)
  check_delegate delegate_entry delegate sender = do
    found ← address_of delegate_entry
    stop_if (not (is_text found delegate)) delegate_mismatch
    call ← need (contract_function delegate_entry) structure_invalid
    callee ← sdk_call (sdk.address_text call.contract_address)
    stop_if (not (callee === sender)) structure_invalid
    stop_if (not (call.function_name === "__check_auth")) structure_invalid
    arg ← one call.args structure_invalid
    digest ← need (as_bytes arg) structure_invalid
    stop_if (not (length digest == 32)) structure_invalid
    next digest

  abbrev digest_of : Preimage → List ℕ → Flow AuthReason (List ℕ)
  digest_of (handed payload) ids = next (sdk.hash (payload ++ sdk.rule_ids_raw ids))
  digest_of not_called ids = stop digest_mismatch
  digest_of (failed m) ids = thrown m

  unfoldable pub check_digest :
      AuthEntry → AddressCredentials → List ℕ → String → List ℕ → Flow AuthReason (Unit {0})
  check_digest payer_entry payer ids passphrase digest = do
    expected ← digest_of (sdk.authorize_entry payer_entry payer.expiration_ledger passphrase) ids
    stop_if (not (same_bytes expected digest)) digest_mismatch

  unfoldable pub validate_entries :
      List AuthEntry → Transfer → String → Option ℤ → Flow AuthReason AuthValid
  validate_entries auth_entries transfer passphrase expected_rule_id = do
    (payer_entry, delegate_entry) ← pick_entries auth_entries transfer.sender
    (payer, delegate_credentials) ← check_credentials payer_entry delegate_entry
    check_transfer payer_entry transfer
    (delegate, ids) ← check_payload payer.signature expected_rule_id
    digest ← check_delegate delegate_entry delegate transfer.sender
    check_digest payer_entry payer ids passphrase digest
    next (record { payer = transfer.sender; delegate = delegate; context_rule_ids = ids })
