-- ===== src/Auth/Building/Valid.antt =====
-- The entries that the payer builds are the ones that the validator accepts.
use agent_allowance.Common.{
  ℕ, pos, eqb_ℤ_iff, String, true, false, some, List, [], ◌∷◌, ◌++◌, ◌≡◌, refl, sym, ◌∙◌, ap, subst,
  ===_refl, ==_iff, length, next, >>=-eq-next, call-next, next-injective, arith,
}
use agent_allowance.Xdr.{
  ScAddress, ScVal, nil, cons, end, entry, u32, symbol, bytes, address, vec, map, InvokeArgs,
  contract_fn, AddressCredentials, by_address, Credentials, AuthEntry, Preimage, handed, not_called,
  failed, Sdk, sdk_call,
}
use agent_allowance.Auth.{
  Transfer, AuthReason, is_void, read_auth_payload, contract_function, same_bytes, selects,
  address_of, pick_entries, check_credentials, check_transfer, check_payload, check_delegate,
  check_digest, validate_entries,
}
use agent_allowance.Auth.Building.{
  Signing, BuiltEntries, auth_payload_val, auth_digest_of, credentials_address,
  build_delegated_authorization_entries,
}

-- The entry under new credentials.
abbrev pub signed_as : AuthEntry → AddressCredentials → ℕ → ScVal → AuthEntry
signed_as e c valid_until signature = record e {
  credentials = by_address (record c { expiration_ledger = valid_until; signature = signature });
}

-- What the SDK's documentation says of its functions: an address and its text belong together, a SHA-256
-- hash has 32 bytes, `authorizeEntry` signs the address credentials of a copy of the entry and hands its
-- signer a payload that depends on no signature, and `authorizeInvocation` gives the delegate's signed
-- entry of the invocation.
pub record IsSdk (sdk : Sdk) (signing : Signing) : Type 0 where
  pub texts :
      (s : String) (a : ScAddress) → signing.address_from s ≡ some a → sdk.address_text a ≡ some s
  pub values : (a : ScAddress) → sdk.address_of_val (address a) ≡ sdk.address_text a
  pub hashes : (b : List ℕ) → length (sdk.hash b) ≡ 32
  pub signs :
      (e e' : AuthEntry) (valid_until : ℕ) (passphrase : String) (signature : ScVal)
      (payload : List ℕ)
      → sdk.authorize_entry e valid_until passphrase ≡ handed payload
      → signing.authorized e valid_until passphrase signature ≡ some e'
      → (c : AddressCredentials) × (e.credentials ≡ by_address c)
        × (e' ≡ signed_as e c valid_until signature)
        × (sdk.authorize_entry e' valid_until passphrase ≡ handed payload)
  pub invokes :
      (delegate : String) (valid_until : ℕ) (call : InvokeArgs) (passphrase : String)
      (e : AuthEntry)
      → signing.authorize_invocation delegate valid_until call passphrase ≡ some e
      → (c : AddressCredentials) × (e.credentials ≡ by_address c)
        × (c.expiration_ledger ≡ valid_until)
        × (is_void c.signature ≡ false)
        × (sdk.address_text c.address ≡ some delegate)
        × (e.function ≡ contract_fn call)
        × (e.sub_invocations ≡ 0)

same_bytes_refl : (b : List ℕ) → same_bytes b b ≡ true
unfolding same_bytes
same_bytes_refl [] = refl
same_bytes_refl (x ∷ b) = ground (arith, same_bytes_refl b)

-- The payload for one rule, which the validator reads.
abbrev payload_val : ScAddress → ℕ → ScVal
payload_val signer id = map (
    entry (symbol "context_rule_ids") (vec (cons (u32 id) nil)) (
      entry (symbol "signers")
        (map (entry (vec (cons (symbol "Delegated") (cons (address signer) nil))) (bytes []) end))
        end))

read_payload_val :
    (signer : ScAddress) (id : ℕ)
    → read_auth_payload (payload_val signer id) ≡ some (signer, id ∷ [])
unfolding read_auth_payload
read_payload_val signer id = refl

payload_val-not-void : (signer : ScAddress) (id : ℕ) → is_void (payload_val signer id) ≡ false
unfolding is_void
payload_val-not-void signer id = refl

selects_one : (id : ℕ) → selects (some (pos id)) (id ∷ []) ≡ true
unfolding selects
selects_one id = (eqb_ℤ_iff (pos id) (pos id)).1 refl

digest-handed :
    (sdk : Sdk) (p : Preimage) (id : ℕ) (digest : List ℕ)
    → auth_digest_of {R = AuthReason} sdk p (id ∷ []) ≡ next digest
    → (payload : List ℕ) × (p ≡ handed payload)
      × (sdk.hash (payload ++ sdk.rule_ids_raw (id ∷ [])) ≡ digest)
digest-handed sdk (handed payload) id digest h = (payload, refl, next-injective h)
digest-handed sdk not_called id digest h = cc
digest-handed sdk (failed m) id digest h = cc

-- The two entries, as the SDK has signed them.
module _ (sdk : Sdk) (e d : AuthEntry) (c k : AddressCredentials) (signer : ScAddress)
    (t : Transfer) (delegate passphrase : String) (id valid_until : ℕ) (payload digest : List ℕ)
    (payer_is : sdk.address_text c.address ≡ some t.sender)
    (transfers : check_transfer sdk e t ≡ next tt)
    (signer_is : sdk.address_of_val (address signer) ≡ some delegate)
    (signed_by : d.credentials ≡ by_address k) (together : k.expiration_ledger ≡ valid_until)
    (signed : is_void k.signature ≡ false)
    (delegate_is : sdk.address_text k.address ≡ some delegate)
    (calls : d.function
      ≡ contract_fn (record {
        contract_address = c.address;
        function_name = "__check_auth";
        args = bytes digest ∷ [];
      }))
    (root : d.sub_invocations ≡ 0)
    (preimage : sdk.authorize_entry
        (signed_as e c valid_until (payload_val signer id))
        valid_until
        passphrase
      ≡ handed payload)
    (hashed : sdk.hash (payload ++ sdk.rule_ids_raw (id ∷ [])) ≡ digest)
    (full : length digest ≡ 32) where
  abbrev own : AuthEntry
  own = signed_as e c valid_until (payload_val signer id)

  abbrev own_credentials : AddressCredentials
  own_credentials = record c { expiration_ledger = valid_until; signature = payload_val signer id }

  picks : pick_entries sdk (own ∷ d ∷ []) t.sender ≡ next (own, d)
  unfolding pick_entries address_of
  picks = rw (payer_is, ===_refl t.sender) refl

  credentials_ok : check_credentials sdk own d ≡ next (own_credentials, k)
  unfolding check_credentials
  credentials_ok =
      rw
        (
          signed_by,
          payload_val-not-void signer id,
          signed,
          together,
          (==_iff valid_until valid_until).1 refl,
        )
        refl

  payload_ok : check_payload sdk (payload_val signer id) (some (pos id)) ≡ next (delegate, id ∷ [])
  unfolding check_payload
  payload_ok = rw (read_payload_val signer id, signer_is, selects_one id) refl

  delegate_ok : check_delegate sdk d delegate t.sender ≡ next digest
  unfolding check_delegate address_of contract_function
  delegate_ok =
      rw (signed_by, delegate_is, ===_refl delegate, calls, root, payer_is, ===_refl t.sender, full)
        refl

  digest_ok : check_digest sdk own own_credentials (id ∷ []) passphrase digest ≡ next tt
  unfolding check_digest
  digest_ok = rw (preimage, hashed, same_bytes_refl digest) refl

  transfers_ok : check_transfer sdk own t ≡ next tt
  unfolding check_transfer contract_function
  transfers_ok = transfers

  entries_valid :
      validate_entries sdk (own ∷ d ∷ []) t passphrase (some (pos id))
      ≡ next (record { payer = t.sender; delegate = delegate; context_rule_ids = id ∷ [] })
  unfolding validate_entries
  entries_valid = rw (picks, credentials_ok, transfers_ok, payload_ok, delegate_ok, digest_ok) refl

credentials-injective :
    (c k : AddressCredentials) → ◌≡◌ {A = Credentials} (by_address c) (by_address k) → c ≡ k
credentials-injective c k h = cc

auth_payload-val :
    (signing : Signing) (delegate : String) (id : ℕ) (v : ScVal)
    → auth_payload_val {R = AuthReason} signing delegate (id ∷ []) ≡ next v
    → (signer : ScAddress) × (signing.address_from delegate ≡ some signer)
      × (payload_val signer id ≡ v)
unfolding auth_payload_val
auth_payload-val signing delegate id v h =
    let (signer, h1, k1) = >>=-eq-next (sdk_call (signing.address_from delegate)) _ h in
    (signer, call-next (signing.address_from delegate) "stellar-sdk" h1, next-injective k1)

credentials_address-by :
    (c : AddressCredentials) (a : ScAddress)
    → credentials_address {R = AuthReason} (by_address c) ≡ next a
    → c.address ≡ a
credentials_address-by c a h = next-injective h

abbrev check_call : ScAddress → List ℕ → InvokeArgs
check_call account digest = record {
  contract_address = account;
  function_name = "__check_auth";
  args = bytes digest ∷ [];
}

-- What the five steps of the building give.
module _ (sdk : Sdk) (signing : Signing) (e : AuthEntry) (c : AddressCredentials) (t : Transfer)
    (delegate passphrase : String) (id valid_until : ℕ) (s : IsSdk sdk signing)
    (own_by : e.credentials ≡ by_address c) (payer_is : sdk.address_text c.address ≡ some t.sender)
    (transfers : check_transfer sdk e t ≡ next tt) where
  steps_valid :
      (digest : List ℕ) (signature : ScVal) (signed : AuthEntry) (account : ScAddress)
      (d : AuthEntry)
      → auth_digest_of {R = AuthReason} sdk (sdk.authorize_entry e valid_until passphrase) (id ∷ [])
        ≡ next digest
      → auth_payload_val {R = AuthReason} signing delegate (id ∷ []) ≡ next signature
      → signing.authorized e valid_until passphrase signature ≡ some signed
      → credentials_address {R = AuthReason} signed.credentials ≡ next account
      → signing.authorize_invocation delegate valid_until (check_call account digest) passphrase
        ≡ some d
      → validate_entries sdk (signed ∷ d ∷ []) t passphrase (some (pos id))
        ≡ next (record { payer = t.sender; delegate = delegate; context_rule_ids = id ∷ [] })
  steps_valid digest signature signed account d h1 h2 h3 h4 h5 =
      let (payload, handed_is, hashed) =
        digest-handed sdk (sdk.authorize_entry e valid_until passphrase) id digest h1 in
      let (signer, from, value) = auth_payload-val signing delegate id signature h2 in
      let (c', by', same, preimage) =
        s.signs e signed valid_until passphrase signature payload handed_is h3 in
      let (k, by, together, not_void, text, calls, root) =
        s.invokes delegate valid_until (check_call account digest) passphrase d h5 in
      let mine : c ≡ c' = credentials-injective c c' (sym own_by ∙ by') in
      let entry_is : signed_as e c valid_until (payload_val signer id) ≡ signed =
        ap (λ x. signed_as e x valid_until (payload_val signer id)) mine
        ∙ ap (λ x. signed_as e c' valid_until x) value
        ∙ sym same in
      let account_is : c.address ≡ account = next-injective {R = AuthReason} (
        subst (λ (x : AuthEntry). credentials_address {R = AuthReason} x.credentials ≡ next account)
          (sym entry_is) h4) in
      subst
        (λ (x : AuthEntry).
          validate_entries sdk (x ∷ d ∷ []) t passphrase (some (pos id))
          ≡ next (record { payer = t.sender; delegate = delegate; context_rule_ids = id ∷ [] }))
        entry_is
        (entries_valid sdk e d c k signer t delegate passphrase id valid_until payload digest
          payer_is transfers (s.values signer ∙ s.texts delegate signer from) by together not_void
          text (subst (λ a. d.function ≡ contract_fn (check_call a digest)) (sym account_is) calls)
          root
          (subst (λ x. sdk.authorize_entry x valid_until passphrase ≡ handed payload) (sym entry_is)
            preimage)
          hashed
          (subst (λ x. length x ≡ 32) hashed (s.hashes (payload ++ sdk.rule_ids_raw (id ∷ [])))))

-- Under the documented behaviour of the SDK, the entries that the payer builds for one rule from an entry
-- of its own that authorizes the transfer are accepted by the validator, in the order in which the payment
-- carries them, with the payer, the delegate and the rule.
pub build_delegated_authorization_entries_valid :
    (sdk : Sdk) (signing : Signing) (e : AuthEntry) (c : AddressCredentials) (t : Transfer)
    (delegate passphrase : String) (id valid_until : ℕ) (built : BuiltEntries)
    → IsSdk sdk signing
    → e.credentials ≡ by_address c
    → sdk.address_text c.address ≡ some t.sender
    → check_transfer sdk e t ≡ next tt
    → build_delegated_authorization_entries {R = AuthReason} sdk signing e delegate
        (id ∷ [])
        valid_until
        passphrase
      ≡ next built
    → validate_entries sdk
        (built.smart_account_entry ∷ built.delegated_signer_entry ∷ [])
        t
        passphrase
        (some (pos id))
      ≡ next (record { payer = t.sender; delegate = delegate; context_rule_ids = id ∷ [] })
unfolding build_delegated_authorization_entries
build_delegated_authorization_entries_valid sdk signing e c t delegate passphrase id valid_until
      built s own payer_is transfers h =
    let (digest, h1, k1) =
      >>=-eq-next {R = AuthReason}
        (auth_digest_of sdk (sdk.authorize_entry e valid_until passphrase) (id ∷ [])) _ h in
    let (signature, h2, k2) =
      >>=-eq-next {R = AuthReason} (auth_payload_val signing delegate (id ∷ [])) _ k1 in
    let (signed, h3, k3) =
      >>=-eq-next {R = AuthReason}
        (sdk_call (signing.authorized e valid_until passphrase signature)) _ k2 in
    let (account, h4, k4) =
      >>=-eq-next {R = AuthReason} (credentials_address signed.credentials) _ k3 in
    let (d, h5, k5) =
      >>=-eq-next {R = AuthReason}
        (sdk_call (
          signing.authorize_invocation delegate valid_until (check_call account digest) passphrase))
        _ k4 in
    subst
      (λ (x : BuiltEntries).
        validate_entries sdk (x.smart_account_entry ∷ x.delegated_signer_entry ∷ []) t passphrase
          (some (pos id))
        ≡ next (record { payer = t.sender; delegate = delegate; context_rule_ids = id ∷ [] }))
      (next-injective {R = AuthReason} k5)
      (steps_valid sdk signing e c t delegate passphrase id valid_until s own payer_is transfers
        digest signature signed account d h1 h2
        (call-next (signing.authorized e valid_until passphrase signature) "stellar-sdk" h3) h4
        (call-next
          (signing.authorize_invocation delegate valid_until (check_call account digest) passphrase)
          "stellar-sdk" h5))
