-- ===== src/Relayer/Entries/Signers.antt =====
-- Who signed the entries of a payment.
use agent_allowance.Common.{
  Bool, Any, ◌⊎◌, String, true, false, ◌≡◌, refl, subst, Bool-cases, inl, inr, Option, none, some,
  List, [], ◌∷◌, All, includes, arith, eq_iff, ◌===◌,
}
use agent_allowance.Xdr.{
  Credentials, AddressCredentials, by_address, other_credentials, AuthEntry, Sdk,
}
use agent_allowance.Auth.{is_void}
use agent_allowance.Relayer.Entries.{
  add_signed, signature_missing, credentials_address, signed_addresses,
}
use agent_allowance.Relayer.Entries.Sound.{by_address-injective}

module _ (sdk : Sdk) where
  -- An entry with address credentials of this address, which are signed.
  abbrev pub IsSignedBy : String → AuthEntry → Type 0
  IsSignedBy held e =
      (c : AddressCredentials) × (e.credentials ≡ by_address c)
      × (sdk.address_text c.address ≡ some held)
      × (is_void c.signature ≡ false)

  -- The credentials of an entry whose address is read are signed.
  abbrev pub IsSignedEntry : AuthEntry → Type 0
  IsSignedEntry e =
      (c : AddressCredentials) (held : String)
      → e.credentials ≡ by_address c
      → sdk.address_text c.address ≡ some held
      → is_void c.signature ≡ false

  -- What one entry adds to the signed and to the unsigned addresses.
  IsAdded : Credentials → List String × List String → String → List String × List String → Type 0
  IsAdded k (signed, unsigned_ones) p (signed', unsigned_ones') =
      (includes signed' p ≡ true
        → ((c : AddressCredentials) × (k ≡ by_address c)
            × (sdk.address_text c.address ≡ some p)
            × (is_void c.signature ≡ false))
          ⊎ (includes signed p ≡ true))
      × (unsigned_ones' ≡ []
          → ((c : AddressCredentials) (held : String)
              → k ≡ by_address c
              → sdk.address_text c.address ≡ some held
              → is_void c.signature ≡ false)
            × (unsigned_ones ≡ []))

  add_signed-IsAdded :
      (k : Credentials) (before : List String × List String) (p : String)
      → IsAdded k before p
          (add_signed sdk (signature_missing sdk k) (credentials_address sdk k) before)
  unfolding IsAdded
  add_signed-IsAdded (other_credentials name) (signed, unsigned_ones) p =
      ((λ h. inr h), (λ h. ((λ c held same has. absurd (cc)), h)))
  add_signed-IsAdded (by_address c) (signed, unsigned_ones) p =
      by_parts (is_void c.signature) refl (sdk.address_text c.address) refl
    where
      by_parts :
          (v : Bool)
          → is_void c.signature ≡ v
          → (o : Option String) → sdk.address_text c.address ≡ o
          → IsAdded
              (by_address c)
              (signed, unsigned_ones)
              p
              (add_signed sdk v o (signed, unsigned_ones))
      by_parts v e none k = (
        (λ h. inr h),
        (λ h. ((λ d held same has. let q = by_address-injective c d same in absurd (cc)), h)),
      )
      by_parts true e (some a) k = ((λ h. inr h), (λ h. absurd (cc)))
      by_parts false e (some a) k = (
        (λ h. elim (Bool-cases (a === p)) [
          | inl own ↦ inl (
            c,
            refl,
            subst (λ (x : String). sdk.address_text c.address ≡ some x) ((eq_iff a p).0 own) k,
            e,
          )
          | inr other ↦ inr (ground arith)
        ]),
        (λ h. (
          (λ d held same has.
              subst (λ (x : AddressCredentials). is_void x.signature ≡ false)
                (by_address-injective c d same) e),
          h,
        )),
      )

  pub signed_sound :
      (es : List AuthEntry) (p : String)
      → includes (signed_addresses sdk es).0 p ≡ true
      → Any (IsSignedBy p) es
  unfolding signed_addresses IsAdded
  signed_sound [] p h = absurd (cc)
  signed_sound (e ∷ es) p h =
      elim ((add_signed-IsAdded e.credentials (signed_addresses sdk es) p).0 h) [
        | inl now ↦ inl now
        | inr later ↦ inr (signed_sound es p later)
      ]

  pub unsigned_sound :
      (es : List AuthEntry) → (signed_addresses sdk es).1 ≡ [] → All IsSignedEntry es
  unfolding signed_addresses IsAdded
  unsigned_sound [] h = tt
  unsigned_sound (e ∷ es) h =
      let (now, later) = (add_signed-IsAdded e.credentials (signed_addresses sdk es) "").1 h in
      (now, unsigned_sound es later)
