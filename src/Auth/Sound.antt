-- ===== src/Auth/Sound.antt =====
-- What an accepted pair of authorization entries guarantees.
use agent_allowance.Common.{
  ℕ, ℤ, String, ◌≡◌, ◌⊎◌, refl, true, false, Option, some, List, [], ◌∷◌, ◌++◌, arith, eq_iff, sym,
  ap, subst, ◌∙◌, next-injective, next, >>=-eq-next, eqb_ℤ_iff, length,
}
use agent_allowance.Xdr.{
  ScAddress, ScVal, address, bytes, Native, bigint, InvokeArgs, AddressCredentials, by_address,
  AuthEntry, Preimage, handed, not_called, failed, Sdk, is_bigint,
}
use agent_allowance.Auth.{
  Transfer, AuthValid, contract_function, read_auth_payload, address_of, pick_entries,
  check_credentials, check_transfer, check_payload, check_delegate, check_digest, digest_of,
  same_bytes, validate_entries, is_void, selects,
}

module _ (sdk : Sdk) where
  -- An entry of address credentials whose address prints as `who`.
  abbrev pub IsOf : AuthEntry → AddressCredentials → String → Type 0
  IsOf e c who = (e.credentials ≡ by_address c) × (sdk.address_text c.address ≡ some who)

  -- The call `transfer(sender, recipient, amount)` of the token, as the SDK reads it.
  pub record IsTransfer (e : AuthEntry) (t : Transfer) : Type 0 where
    pub call : InvokeArgs
    pub root : contract_function e ≡ some call
    pub name : call.function_name ≡ "transfer"
    pub token : sdk.address_text call.contract_address ≡ some t.token
    pub sender_val : ScVal
    pub recipient_val : ScVal
    pub amount_val : ScVal
    pub three_args : call.args ≡ sender_val ∷ recipient_val ∷ amount_val ∷ []
    pub sender : sdk.address_of_val sender_val ≡ some t.sender
    pub recipient : sdk.address_of_val recipient_val ≡ some t.recipient
    pub amount : sdk.native amount_val ≡ some (bigint t.amount)

  pick :
      (es : List AuthEntry) (sender : String) (p d : AuthEntry)
      → pick_entries sdk es sender ≡ next (p, d)
      → ((es ≡ p ∷ d ∷ []) ⊎ (es ≡ d ∷ p ∷ [])) × (c : AddressCredentials) × IsOf p c sender
  unfolding pick_entries address_of
  pick [] sender p d h = cc
  pick (a ∷ []) sender p d h = cc
  pick (a ∷ b ∷ []) sender p d h = grind (arith, eq_iff)
  pick (a ∷ b ∷ c ∷ es) sender p d h = cc

  is_bigint-eq : (v : Native) (a : ℤ) → is_bigint v a ≡ true → v ≡ bigint a
  is_bigint-eq (bigint z) a h = cc ((eqb_ℤ_iff z a).0 h)
  is_bigint-eq _ a h = cc

  transfer_sound :
      (p : AuthEntry) (t : Transfer) (u : Unit) → check_transfer sdk p t ≡ next u → IsTransfer p t
  unfolding check_transfer
  transfer_sound p t u h = grind (arith, eq_iff, is_bigint-eq)

  credentials_sound :
      (p d : AuthEntry) (c e : AddressCredentials)
      → check_credentials sdk p d ≡ next (c, e)
      → (p.credentials ≡ by_address c)
        × (d.credentials ≡ by_address e)
        × (is_void c.signature ≡ false)
        × (is_void e.signature ≡ false)
        × (c.expiration_ledger ≡ e.expiration_ledger)
  unfolding check_credentials
  credentials_sound p d c e h = ground arith

  payload_sound :
      (signature : ScVal) (expected : Option ℤ) (delegate : String) (ids : List ℕ)
      → check_payload sdk signature expected ≡ next (delegate, ids)
      → (signer : ScAddress) × (read_auth_payload signature ≡ some (signer, ids))
        × (sdk.address_of_val (address signer) ≡ some delegate)
        × (selects expected ids ≡ true)
  unfolding check_payload
  payload_sound signature expected delegate ids h = grind arith

  delegate_sound :
      (d : AuthEntry) (e : AddressCredentials) (delegate sender : String) (digest : List ℕ)
      → d.credentials ≡ by_address e
      → check_delegate sdk d delegate sender ≡ next digest
      → IsOf d e delegate
        × (call : InvokeArgs) × (contract_function d ≡ some call)
        × (call.function_name ≡ "__check_auth")
        × (sdk.address_text call.contract_address ≡ some sender)
        × (call.args ≡ bytes digest ∷ [])
        × (length digest ≡ 32)
  unfolding check_delegate address_of
  delegate_sound d e delegate sender digest c h = grind (arith, eq_iff)

  same_bytes-eq : (as_ bs : List ℕ) → same_bytes as_ bs ≡ true → as_ ≡ bs
  unfolding same_bytes
  same_bytes-eq [] [] h = refl
  same_bytes-eq (a ∷ as_) (b ∷ bs) h = ground (arith, same_bytes-eq as_ bs)
  same_bytes-eq _ _ h = cc

  digest_of_lem :
      (pre : Preimage) (ids expected : List ℕ)
      → digest_of sdk pre ids ≡ next expected
      → (payload : List ℕ) × (pre ≡ handed payload)
        × (expected ≡ sdk.hash (payload ++ sdk.rule_ids_raw ids))
  digest_of_lem (handed payload) ids expected h = (payload, refl, ground arith)
  digest_of_lem not_called ids expected h = cc
  digest_of_lem (failed m) ids expected h = cc

  digest_sound :
      (p : AuthEntry) (c : AddressCredentials) (ids : List ℕ) (passphrase : String)
      (digest : List ℕ) (u : Unit)
      → check_digest sdk p c ids passphrase digest ≡ next u
      → (payload : List ℕ) × (sdk.authorize_entry p c.expiration_ledger passphrase ≡ handed payload)
        × (digest ≡ sdk.hash (payload ++ sdk.rule_ids_raw ids))
  unfolding check_digest
  digest_sound p c ids passphrase digest u h =
      let (expected, made, h1) =
        >>=-eq-next (digest_of sdk (sdk.authorize_entry p c.expiration_ledger passphrase) ids) _
          h in
      let (payload, e, e') = digest_of_lem _ ids expected made in
      (payload, e, sym (same_bytes-eq expected digest (ground arith)) ∙ e')

  same_payer :
      (p : AuthEntry) (c c' : AddressCredentials) (who : String)
      → p.credentials ≡ by_address c
      → IsOf p c' who
      → IsOf p c who
  same_payer p c c' who h (h', named) = (h, ground arith)

  -- What the two entries say and do, for a transfer, a network and what was returned.
  pub record IsDelegated (es : List AuthEntry) (t : Transfer) (passphrase : String)
      (expected : Option ℤ) (v : AuthValid) : Type 0 where
    pub payer_entry : AuthEntry
    pub delegate_entry : AuthEntry
    pub pair : (es ≡ payer_entry ∷ delegate_entry ∷ []) ⊎ (es ≡ delegate_entry ∷ payer_entry ∷ [])
    pub payer : AddressCredentials
    pub delegate : AddressCredentials
    pub payer_is : IsOf payer_entry payer t.sender
    pub delegate_is : IsOf delegate_entry delegate v.delegate
    pub payer_signed : is_void payer.signature ≡ false
    pub delegate_signed : is_void delegate.signature ≡ false
    pub one_expiration : payer.expiration_ledger ≡ delegate.expiration_ledger
    pub transfers : IsTransfer payer_entry t
    pub signer : ScAddress
    pub signed_payload : read_auth_payload payer.signature ≡ some (signer, v.context_rule_ids)
    pub signer_is : sdk.address_of_val (address signer) ≡ some v.delegate
    pub selected : selects expected v.context_rule_ids ≡ true
    pub check : InvokeArgs
    pub check_root : contract_function delegate_entry ≡ some check
    pub check_name : check.function_name ≡ "__check_auth"
    pub check_callee : sdk.address_text check.contract_address ≡ some t.sender
    pub preimage : List ℕ
    pub preimage_is :
        sdk.authorize_entry payer_entry payer.expiration_ledger passphrase ≡ handed preimage
    pub check_args :
        check.args ≡ bytes (sdk.hash (preimage ++ sdk.rule_ids_raw v.context_rule_ids)) ∷ []
    pub returned_payer : v.payer ≡ t.sender

  abbrev valid_for : Transfer → String → List ℕ → AuthValid
  valid_for t delegate ids = record {
    payer = t.sender;
    delegate = delegate;
    context_rule_ids = ids;
  }

  assemble :
      (es : List AuthEntry) (t : Transfer) (passphrase : String) (expected : Option ℤ)
      (p d : AuthEntry) (c e : AddressCredentials) (delegate : String) (ids digest : List ℕ)
      (u u' : Unit)
      → pick_entries sdk es t.sender ≡ next (p, d)
      → check_credentials sdk p d ≡ next (c, e)
      → check_transfer sdk p t ≡ next u
      → check_payload sdk c.signature expected ≡ next (delegate, ids)
      → check_delegate sdk d delegate t.sender ≡ next digest
      → check_digest sdk p c ids passphrase digest ≡ next u'
      → IsDelegated es t passphrase expected (valid_for t delegate ids)
  assemble es t passphrase expected p d c e delegate ids digest u u' h1 h2 h3 h4 h5 h6 =
      let (paired, found, found_is) = pick es t.sender p d h1 in
      let (pc, dc, ps, ds, exp) = credentials_sound p d c e h2 in
      let (signer, payload, signer_is, selected) =
        payload_sound c.signature expected delegate ids h4 in
      let (delegate_is, call, root, name, callee, args, size) =
        delegate_sound d e delegate t.sender digest dc h5 in
      let (preimage, pre, bound) = digest_sound p c ids passphrase digest u' h6 in
      record {
        payer_entry = p;
        delegate_entry = d;
        pair = paired;
        payer = c;
        delegate = e;
        payer_is = same_payer p c found t.sender pc found_is;
        delegate_is = delegate_is;
        payer_signed = ps;
        delegate_signed = ds;
        one_expiration = exp;
        transfers = transfer_sound p t u h3;
        signer = signer;
        signed_payload = payload;
        signer_is = signer_is;
        selected = selected;
        check = call;
        check_root = root;
        check_name = name;
        check_callee = callee;
        preimage = preimage;
        preimage_is = pre;
        check_args = args ∙ ap (λ (b : List ℕ). bytes b ∷ []) bound;
        returned_payer = refl;
      }

  -- Entries that are accepted are exactly two, of the payer and of the delegate, in either order:
  -- both are signed and expire together; the payer's authorizes the required transfer and no
  -- sub-invocation, and its signature names the delegate and the returned rules, which are the
  -- expected one where one is expected; the delegate's authorizes the payer's `__check_auth` on the
  -- digest of the payer's own preimage and exactly those rules.
  pub validate_entries_sound :
      (es : List AuthEntry) (t : Transfer) (passphrase : String) (expected : Option ℤ)
      (v : AuthValid)
      → validate_entries sdk es t passphrase expected ≡ next v
      → IsDelegated es t passphrase expected v
  unfolding validate_entries
  validate_entries_sound es t passphrase expected v h =
      let ((p, d), h1, k1) = >>=-eq-next (pick_entries sdk es t.sender) _ h in
      let ((c, e), h2, k2) = >>=-eq-next (check_credentials sdk p d) _ k1 in
      let (u, h3, k3) = >>=-eq-next (check_transfer sdk p t) _ k2 in
      let ((delegate, ids), h4, k4) = >>=-eq-next (check_payload sdk c.signature expected) _ k3 in
      let (digest, h5, k5) = >>=-eq-next (check_delegate sdk d delegate t.sender) _ k4 in
      let (u', h6, k6) = >>=-eq-next (check_digest sdk p c ids passphrase digest) _ k5 in
      subst (IsDelegated es t passphrase expected) (next-injective k6)
        (assemble es t passphrase expected p d c e delegate ids digest u u' h1 h2 h3 h4 h5 h6)
