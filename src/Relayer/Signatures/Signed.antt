-- ===== src/Relayer/Signatures/Signed.antt =====
-- What accepted terms and signatures hold.
use agent_allowance.Common.{
  Any, ℕ, ℤ, String, true, false, not, ◌||◌, ◌≡◌, refl, some, List, [], ◌∷◌, ◌===◌, ◌==◌, All,
  length, next, stop_if, includes, need, or_throw, >>=-eq-next, stop_if-next, need-next,
  next-injective, arith, eq_iff, subst, or-eq-false, not-eq-false, call-next,
}
use agent_allowance.Shared.Amounts.{big_int}
use agent_allowance.Xdr.{
  Native, nothing, bigint, number, array, object, other_native, text, is_string, is_bigint, Sdk,
}
use agent_allowance.Relayer.Reasons.{
  unsafe_from_address, wrong_recipient, wrong_amount, missing_payer_auth, unsafe_tx_or_op_source,
}
use agent_allowance.Relayer.Entries.{signed_addresses, validate_auth_entries, validate_expirations}
use agent_allowance.Relayer.Entries.Sound.{
  IsPlain, IsForeign, IsTimelyEntry, validate_auth_entries_sound, validate_expirations_sound,
}
use agent_allowance.Relayer.Entries.Signers.{
  IsSignedBy, IsSignedEntry, signed_sound, unsigned_sound,
}
use agent_allowance.Relayer.Request.{VerifyRequest, NetworkConfig, Relayer, Call}
use agent_allowance.Relayer.Signatures.{
  is_address, check_terms, signed_payer, none_left, unsafe_source, check_signatures,
}

-- The recipient and the amount are the required ones, and neither of the relayer's addresses pays.
pub record IsOnTerms (request : VerifyRequest) (config : NetworkConfig) (relayer : Relayer)
    (call : Call) (required : ℤ) : Type 0 where
  pub not_relayer : is_address relayer.address call.sender ≡ false
  pub not_fund : is_address config.fund_address call.sender ≡ false
  pub recipient : is_string call.recipient request.requirements.pay_to ≡ true
  pub read_amount : big_int request.requirements.amount ≡ some required
  pub amount : is_bigint call.amount required ≡ true

pub check_terms_sound :
    (request : VerifyRequest) (config : NetworkConfig) (relayer : Relayer) (call : Call)
    (required : ℤ)
    → check_terms request config relayer call ≡ next required
    → IsOnTerms request config relayer call required
unfolding check_terms
check_terms_sound request config relayer call required h =
    let from_fund = is_address config.fund_address call.sender in
    let to_pay = is_string call.recipient request.requirements.pay_to in
    let (u1, h1, k1) =
      >>=-eq-next (stop_if (is_address relayer.address call.sender || from_fund) _) _ h in
    let (u2, h2, k2) = >>=-eq-next (stop_if (not to_pay) _) _ k1 in
    let (u3, h3, k3) = >>=-eq-next (stop_if (request.requirements.amount === "") _) _ k2 in
    let (n, h4, k4) = >>=-eq-next (or_throw (big_int request.requirements.amount) _) _ k3 in
    let (u5, h5, k5) = >>=-eq-next (stop_if (not (is_bigint call.amount n)) _) _ k4 in
    let (a1, a2) = or-eq-false _ from_fund (stop_if-next _ unsafe_from_address h1) in
    subst (IsOnTerms request config relayer call) (next-injective k5) (record {
      not_relayer = a1;
      not_fund = a2;
      recipient = not-eq-false to_pay (stop_if-next _ wrong_recipient h2);
      read_amount = call-next _ "BigInt" h4;
      amount = not-eq-false _ (stop_if-next _ wrong_amount h5);
    })

signed_payer-eq :
    (signed : List String) (sender : Native) (p : String)
    → signed_payer signed sender ≡ some p
    → (sender ≡ text p) × (includes signed p ≡ true)
signed_payer-eq signed (text s) p h = grind (arith, eq_iff)
signed_payer-eq signed (bigint z) p h = cc
signed_payer-eq signed (number z) p h = cc
signed_payer-eq signed nothing p h = cc
signed_payer-eq signed (array vs) p h = cc
signed_payer-eq signed (object ms) p h = cc
signed_payer-eq signed other_native p h = cc

none_left-eq : (as_ : List String) (u : Unit) → none_left as_ ≡ next u → as_ ≡ []
none_left-eq [] u h = refl
none_left-eq (a ∷ as_) u h = cc

module _ (sdk : Sdk) (request : VerifyRequest) (config : NetworkConfig) (relayer : Relayer) where
  -- The payer and everyone else signed, the relayer is no party to it, and the signatures hold for
  -- no longer than the payment may take.
  pub record IsSigned (call : Call) (payer : String) : Type 0 where
    pub current : ℕ
    pub no_envelope : call.transaction.signatures ≡ 0
    pub by_payer : call.sender ≡ text payer
    pub signed : Any (IsSignedBy sdk payer) call.auth
    pub all_signed : All (IsSignedEntry sdk) call.auth
    pub no_facilitator : All (IsForeign sdk (relayer.address ∷ config.fund_address ∷ [])) call.auth
    pub plain : All (IsPlain sdk) call.auth
    pub safe_source : unsafe_source config relayer call ≡ false
    pub known_ledger : relayer.latest_ledger ≡ some current
    pub in_window : All (IsTimelyEntry current request.requirements.max_timeout_seconds) call.auth

  pub check_signatures_sound :
      (call : Call) (payer : String)
      → check_signatures sdk request config relayer call ≡ next payer
      → IsSigned call payer
  unfolding check_signatures
  check_signatures_sound call payer h =
      let (u1, h1, k1) = >>=-eq-next (stop_if (not (call.transaction.signatures == 0)) _) _ h in
      let (u2, h2, k2) = >>=-eq-next (stop_if (length call.auth == 0) _) _ k1 in
      let (u3, h3, k3) =
        >>=-eq-next
          (validate_auth_entries sdk call.auth (relayer.address ∷ config.fund_address ∷ [])) _ k2 in
      let (p, h4, k4) =
        >>=-eq-next
          (need (signed_payer (signed_addresses sdk call.auth).0 call.sender) missing_payer_auth) _
          k3 in
      let (u5, h5, k5) = >>=-eq-next (none_left (signed_addresses sdk call.auth).1) _ k4 in
      let (u6, h6, k6) = >>=-eq-next (stop_if (unsafe_source config relayer call) _) _ k5 in
      let (u7, h7, k7) =
        >>=-eq-next
          (validate_expirations relayer.latest_ledger request.requirements.max_timeout_seconds
            call.auth)
          _ k6 in
      let (e1, e2) =
        validate_auth_entries_sound sdk call.auth (relayer.address ∷ config.fund_address ∷ []) u3
          h3 in
      let (now, l1, l2) = validate_expirations_sound _ _ call.auth u7 h7 in
      let (p1, p2) = signed_payer-eq _ call.sender p (need-next _ missing_payer_auth h4) in
      subst (IsSigned call) (next-injective k7) (record {
        current = now;
        no_envelope = ground arith;
        by_payer = p1;
        signed = signed_sound sdk call.auth p p2;
        all_signed = unsigned_sound sdk call.auth (none_left-eq _ u5 h5);
        no_facilitator = e1;
        plain = e2;
        safe_source = stop_if-next _ unsafe_tx_or_op_source h6;
        known_ledger = l1;
        in_window = l2;
      })
