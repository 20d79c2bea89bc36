-- ===== src/Auth/Building.antt =====
-- packages/stellar-smart-account-auth/src/authorization.ts: the two signed entries. The number of a rule
-- is a 32-bit number.
pub mod Valid
use agent_allowance.Common.{
  ℕ, ℤ, pos, negsuc, String, Bool, Option, none, some, List, [], ◌∷◌, ◌++◌, Flow, next, stop,
  thrown, throw_if, or_throw, ◌>>=◌, ◌>>◌, length, ◌==◌,
}
use agent_allowance.Xdr.{
  ScAddress, ScVal, ScVals, nil, cons, ScEntries, end, entry, u32, i128, symbol, bytes, address,
  vec, map, InvokeArgs, AuthorizedFunction, contract_fn, Credentials, by_address, other_credentials,
  AuthEntry, Preimage, handed, not_called, failed, Sdk, sdk_call,
}
use agent_allowance.Auth.{Transfer}

-- The functions of the SDK that sign, `none` where one throws: `Address.fromString(s).toScAddress()`,
-- `authorizeEntry(entry, signer, expiration, passphrase)` with a signer that returns this signature where
-- it is called, `authorizeInvocation` by a delegate, and `Uint64.fromString` of a number's text.
pub record Signing : Type 0 where
  pub address_from : String → Option ScAddress
  pub authorized : AuthEntry → ℕ → String → ScVal → Option AuthEntry
  pub authorize_invocation : String → ℕ → InvokeArgs → String → Option AuthEntry
  pub unsigned_64 : ℕ → Option ℕ

-- `i128`
unfoldable pub i128_val : {R : Type 0} → Signing → ℤ → Flow R ScVal
i128_val signing (pos n) = do low ← sdk_call (signing.unsigned_64 n); next (i128 (pos 0) low)
i128_val signing (negsuc n) = thrown "i128 helper only accepts non-negative payment amounts"

-- The root of `transferInvocation`; it has no sub-invocations.
unfoldable pub transfer_invocation : {R : Type 0} → Signing → Transfer → Flow R InvokeArgs
transfer_invocation signing spec = do
  token ← sdk_call (signing.address_from spec.token)
  sender ← sdk_call (signing.address_from spec.sender)
  recipient ← sdk_call (signing.address_from spec.recipient)
  amount ← i128_val signing spec.amount
  next (record {
    contract_address = token;
    function_name = "transfer";
    args = address sender ∷ address recipient ∷ amount ∷ [];
  })

abbrev pub u32_vals : List ℕ → ScVals
u32_vals [] = nil
u32_vals (id ∷ ids) = cons (u32 id) (u32_vals ids)

-- `contextRuleIdsScVal`
abbrev pub context_rule_ids_val : {R : Type 0} → List ℕ → Flow R ScVal
context_rule_ids_val [] = thrown "At least one context rule ID is required"
context_rule_ids_val (id ∷ ids) = next (vec (u32_vals (id ∷ ids)))

-- `authPayloadScVal`
unfoldable pub auth_payload_val : {R : Type 0} → Signing → String → List ℕ → Flow R ScVal
auth_payload_val signing delegate ids = do
  signer ← sdk_call (signing.address_from delegate)
  rules ← context_rule_ids_val ids
  next (
      map (
        entry (symbol "context_rule_ids") rules (
          entry (symbol "signers")
            (map
              (entry (vec (cons (symbol "Delegated") (cons (address signer) nil))) (bytes []) end))
            end)))

pub record BuiltEntries : Type 0 where
  pub smart_account_entry : AuthEntry
  pub delegated_signer_entry : AuthEntry
  pub auth_digest : List ℕ

-- `computeAuthDigest` of what the SDK hands the signer.
abbrev pub auth_digest_of : {R : Type 0} → Sdk → Preimage → List ℕ → Flow R (List ℕ)
auth_digest_of sdk (handed payload) ids =
    context_rule_ids_val ids >>= λ rules. next (sdk.hash (payload ++ sdk.rule_ids_raw ids))
auth_digest_of sdk not_called ids = thrown "Stellar SDK did not produce an authorization payload"
auth_digest_of sdk (failed m) ids = thrown m

abbrev pub credentials_address : {R : Type 0} → Credentials → Flow R ScAddress
credentials_address (by_address c) = next c.address
credentials_address (other_credentials name) = thrown "credentials"

-- `buildDelegatedAuthorizationEntries`
unfoldable pub build_delegated_authorization_entries :
    {R : Type 0} → Sdk → Signing → AuthEntry → String → List ℕ → ℕ → String → Flow R BuiltEntries
build_delegated_authorization_entries sdk signing payer_entry delegate ids valid_until passphrase =
    do
      digest ← auth_digest_of sdk (sdk.authorize_entry payer_entry valid_until passphrase) ids
      signature ← auth_payload_val signing delegate ids
      signed ← sdk_call (signing.authorized payer_entry valid_until passphrase signature)
      account ← credentials_address signed.credentials
      delegated ← sdk_call (
          signing.authorize_invocation delegate valid_until
            (record {
              contract_address = account;
              function_name = "__check_auth";
              args = bytes digest ∷ [];
            })
            passphrase)
      next (record {
        smart_account_entry = signed;
        delegated_signer_entry = delegated;
        auth_digest = digest;
      })
