-- ===== src/Examples/Building.antt =====
-- The entries of one payment, built and checked, over an SDK that signs.
use agent_allowance.Common.{
  ℕ, pos, String, Option, none, some, [], ◌∷◌, ◌≡◌, refl, false, subst, next,
}
use agent_allowance.Xdr.{
  sc_address, ScVal, void, bytes, InvokeArgs, contract_fn, AddressCredentials, Credentials,
  by_address, other_credentials, AuthEntry,
}
use agent_allowance.Auth.{is_void, check_transfer, contract_function, validate_entries}
use agent_allowance.Auth.Building.{
  Signing, BuiltEntries, auth_payload_val, build_delegated_authorization_entries,
}
use agent_allowance.Auth.Building.Valid.{
  IsSdk, signed_as, build_delegated_authorization_entries_valid,
}
use agent_allowance.Examples.Fixtures.{
  sdk, payer, delegate, digest, transfer_call, payer_entry, payment,
}

abbrev authorized_by : AuthEntry → Credentials → ℕ → ScVal → Option AuthEntry
authorized_by e (by_address c) valid_until signature = some (signed_as e c valid_until signature)
authorized_by e (other_credentials name) valid_until signature = none

abbrev invocation_entry : String → ℕ → InvokeArgs → AuthEntry
invocation_entry by valid_until call = record {
  credentials = by_address (record {
    address = sc_address by [];
    expiration_ledger = valid_until;
    signature = bytes (9 ∷ []);
  });
  function = contract_fn call;
  sub_invocations = 0;
}

abbrev signing : Signing
signing = record {
  address_from = λ s. some (sc_address s []);
  authorized =
      λ e valid_until passphrase signature. authorized_by e e.credentials valid_until signature;
  authorize_invocation =
      λ by valid_until call passphrase. some (invocation_entry by valid_until call);
  unsigned_64 = λ n. some n;
}

authorized_by-signed :
    (e e' : AuthEntry) (valid_until : ℕ) (signature : ScVal) (credentials : Credentials)
    → e.credentials ≡ credentials
    → authorized_by e credentials valid_until signature ≡ some e'
    → (c : AddressCredentials) × (e.credentials ≡ by_address c)
      × (e' ≡ signed_as e c valid_until signature)
authorized_by-signed e e' valid_until signature (by_address c) h k = (c, h, cc)
authorized_by-signed e e' valid_until signature (other_credentials name) h k = cc

some-injective : {A : Type 0} (a b : A) → ◌≡◌ {A = Option A} (some a) (some b) → a ≡ b
some-injective a b h = cc

-- The entry of an invocation is signed by its delegate.
abbrev IsInvoked : String → ℕ → InvokeArgs → AuthEntry → Type 0
IsInvoked by valid_until call e =
    (c : AddressCredentials) × (e.credentials ≡ by_address c)
    × (c.expiration_ledger ≡ valid_until)
    × (is_void c.signature ≡ false)
    × (sdk.address_text c.address ≡ some by)
    × (e.function ≡ contract_fn call)
    × (e.sub_invocations ≡ 0)

invocation_entry-IsInvoked :
    (by : String) (valid_until : ℕ) (call : InvokeArgs)
    → IsInvoked by valid_until call (invocation_entry by valid_until call)
unfolding sdk is_void
invocation_entry-IsInvoked by valid_until call = (_, refl, refl, refl, refl, refl, refl)

sdk-IsSdk : IsSdk sdk signing
unfolding sdk
sdk-IsSdk = record {
  texts =
      λ s a h. subst (λ x. sdk.address_text x ≡ some s) (some-injective (sc_address s []) a h) refl;
  values = λ a. refl;
  hashes = λ b. refl;
  signs = λ e e' valid_until passphrase signature payload h k.
      let (c, by, same) = authorized_by-signed e e' valid_until signature e.credentials refl k in
      (c, by, same, h);
  invokes = λ by valid_until call passphrase e h.
      subst (IsInvoked by valid_until call)
        (some-injective (invocation_entry by valid_until call) e h)
        (invocation_entry-IsInvoked by valid_until call);
}

-- The payer's entry as the recording simulation returns it, without a signature.
abbrev recorded : AuthEntry
recorded = record {
  credentials =
      by_address
        (record { address = sc_address payer []; expiration_ledger = 0; signature = void });
  function = contract_fn transfer_call;
  sub_invocations = 0;
}

abbrev built : BuiltEntries
built = record {
  smart_account_entry = payer_entry;
  delegated_signer_entry = invocation_entry delegate 110 (record {
    contract_address = sc_address payer [];
    function_name = "__check_auth";
    args = bytes digest ∷ [];
  });
  auth_digest = digest;
}

build_delegated_authorization_entries_valid_example :
    validate_entries sdk
      (built.smart_account_entry ∷ built.delegated_signer_entry ∷ [])
      payment
      "Test"
      (some (pos 4))
    ≡ next (record { payer = payer; delegate = delegate; context_rule_ids = 4 ∷ [] })
unfolding sdk check_transfer contract_function build_delegated_authorization_entries
    auth_payload_val
build_delegated_authorization_entries_valid_example =
    build_delegated_authorization_entries_valid sdk signing recorded
      (record { address = sc_address payer []; expiration_ledger = 0; signature = void }) payment
      delegate "Test" 4 110 built sdk-IsSdk refl refl refl refl
