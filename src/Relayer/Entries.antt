-- ===== src/Relayer/Entries.antt =====
-- packages/relayer-plugin-x402-facilitator/src/stellar/utils.ts: the authorization entries of a
-- payment. A conversion that throws is caught and its entry passed over, as in the source.
pub mod Sound
pub mod Signers
use agent_allowance.Common.{
  ℕ, ◌+◌, ℤ, pos, ◌+ℤ◌, ceil_div_5, String, Bool, true, false, not, ◌||◌, ◌&&◌, Option, none, some,
  List, [], ◌∷◌, ◌==◌, leb, ltb_ℤ, ◌===◌, truthy, any, includes, if◌then◌else◌, Flow, next, stop,
  stop_if, need, ◌>>=◌, ◌>>◌,
}
use agent_allowance.Xdr.{
  ScVal, void, AddressCredentials, Credentials, by_address, other_credentials, AuthEntry, Sdk,
}
use agent_allowance.Auth.{is_void}
use agent_allowance.Relayer.Reasons.{
  RelayReason, facilitator_in_auth, unsupported_credential_type, has_subinvocations,
  simulation_failed, auth_already_expired, auth_expiration_too_far,
}

abbrev push : Option String → List String → List String
push none xs = xs
push (some x) xs = x ∷ xs

-- The addresses to check: `.filter((addr) => !!addr)`.
abbrev pub present : List (Option String) → List String
present [] = []
present (none ∷ os) = present os
present (some s ∷ os) = let rest = present os in if s === "" then rest else s ∷ rest

module _ (sdk : Sdk) where
  abbrev pub credentials_address : Credentials → Option String
  credentials_address (by_address c) = sdk.address_text c.address
  credentials_address (other_credentials name) = none

  -- `getAllAddressesFromAuthEntries`
  unfoldable pub all_addresses : List AuthEntry → List String
  all_addresses [] = []
  all_addresses (e ∷ es) = push (credentials_address e.credentials) (all_addresses es)

  abbrev entry_shape : Credentials → ℕ → Flow RelayReason (Unit {0})
  entry_shape (other_credentials name) n = stop unsupported_credential_type
  entry_shape (by_address c) n = stop_if (not (n == 0)) has_subinvocations

  unfoldable pub check_shapes : List AuthEntry → Flow RelayReason (Unit {0})
  check_shapes [] = next tt
  check_shapes (e ∷ es) = do entry_shape e.credentials e.sub_invocations; check_shapes es

  -- `validateAuthEntries`, over the relayer's address and the additional ones.
  unfoldable pub validate_auth_entries :
      List AuthEntry → List (Option String) → Flow RelayReason (Unit {0})
  validate_auth_entries es facilitators = do
    stop_if (any (includes (all_addresses es)) (present facilitators)) facilitator_in_auth
    check_shapes es

  abbrev add_signed : Bool → Option String → List String × List String → List String × List String
  add_signed unsigned none (signed, unsigned_ones) = (signed, unsigned_ones)
  add_signed true (some a) (signed, unsigned_ones) = (signed, a ∷ unsigned_ones)
  add_signed false (some a) (signed, unsigned_ones) = (a ∷ signed, unsigned_ones)

  abbrev signature_missing : Credentials → Bool
  signature_missing (by_address c) = is_void c.signature
  signature_missing (other_credentials name) = true

  -- `getSignedAddressesFromAuthEntries`: the signed addresses and the unsigned ones.
  unfoldable pub signed_addresses : List AuthEntry → List String × List String
  signed_addresses [] = ([], [])
  signed_addresses (e ∷ es) =
      add_signed (signature_missing e.credentials) (credentials_address e.credentials)
        (signed_addresses es)

-- `getExpirationLedgersFromAuthEntries`
unfoldable pub expiration_ledgers : List AuthEntry → List ℕ
expiration_ledgers [] = []
expiration_ledgers (e ∷ es) = elim e.credentials [
  | by_address c ↦ c.expiration_ledger ∷ expiration_ledgers es
  | other_credentials name ↦ expiration_ledgers es
]

-- `currentLedger + Math.ceil(maxTimeoutSeconds / ESTIMATED_LEDGER_CLOSE_SECONDS)`
unfoldable pub max_expiration : ℕ → ℤ → ℤ
max_expiration current timeout = pos current +ℤ ceil_div_5 timeout

unfoldable pub check_expirations : ℕ → ℤ → List ℕ → Flow RelayReason (Unit {0})
check_expirations current latest [] = next tt
check_expirations current latest (e ∷ es) = do
  stop_if (leb e current) auth_already_expired
  stop_if (ltb_ℤ latest (pos e)) auth_expiration_too_far
  check_expirations current latest es

-- `validateAuthEntryExpirations`; `none` is a failed request for the latest ledger.
unfoldable pub validate_expirations : Option ℕ → ℤ → List AuthEntry → Flow RelayReason (Unit {0})
validate_expirations ledger timeout es = do
  current ← need ledger simulation_failed
  check_expirations current (max_expiration current timeout) (expiration_ledgers es)
