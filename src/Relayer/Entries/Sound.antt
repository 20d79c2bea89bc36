-- ===== src/Relayer/Entries/Sound.antt =====
-- What accepted authorization entries hold.
use agent_allowance.Common.{
  ℕ, ◌+◌, ◌*◌, ◌≤◌, ℤ, pos, negsuc, ◌<◌, ◌≤ℤ◌, String, false, ◌≡◌, ◌≢◌, refl, sym, subst,
  Bool-cases, inl, inr, true, none, ===_refl, ◌===◌, eq_iff, Option, some, List, [], ◌∷◌, next,
  arith, >>=-eq-next, All, any, includes, need, need-next, ltb_ℤ-false, stop_if, stop_if-next,
}
use agent_allowance.Xdr.{
  Credentials, AddressCredentials, by_address, other_credentials, AuthEntry, Sdk,
}
use agent_allowance.Relayer.Reasons.{facilitator_in_auth, simulation_failed}
use agent_allowance.Relayer.Entries.{
  present, push, all_addresses, check_shapes, entry_shape, validate_auth_entries,
  expiration_ledgers, max_expiration, check_expirations, validate_expirations,
}

-- An expiration in the window after the current ledger.
abbrev pub IsInWindow : ℕ → ℤ → ℕ → Type 0
IsInWindow current latest e = (current < e) × (pos e ≤ℤ latest)

check_expirations_sound :
    (current : ℕ) (latest : ℤ) (es : List ℕ) (u : Unit)
    → check_expirations current latest es ≡ next u
    → All (IsInWindow current latest) es
unfolding check_expirations
check_expirations_sound current latest [] u h = tt
check_expirations_sound current latest (e ∷ es) u h =
    ground (arith, check_expirations_sound current latest es u, ltb_ℤ-false latest (pos e))

-- An expiration after the current ledger and before the ledger in which the last of `seconds` would
-- close, at five seconds for each ledger.
abbrev pub IsTimely : ℕ → ℕ → ℕ → Type 0
IsTimely current seconds e = (current < e) × (5 * e ≤ 5 * current + seconds + 4)

-- The entry's expiration is timely, where it has address credentials.
abbrev pub IsTimelyEntry : ℕ → ℤ → AuthEntry → Type 0
IsTimelyEntry current timeout entry =
    (c : AddressCredentials)
    → entry.credentials ≡ by_address c
    → (seconds : ℕ) × (timeout ≡ pos seconds) × IsTimely current seconds c.expiration_ledger

window-IsTimely :
    (current : ℕ) (timeout : ℤ) (e : ℕ)
    → IsInWindow current (max_expiration current timeout) e
    → (seconds : ℕ) × (timeout ≡ pos seconds) × IsTimely current seconds e
unfolding max_expiration
window-IsTimely current (pos seconds) e (above, within) = (seconds, refl, (above, ground arith))
window-IsTimely current (negsuc n) e (above, within) = absurd (ground arith)

timely-IsInWindow :
    (current seconds e : ℕ)
    → IsTimely current seconds e
    → IsInWindow current (max_expiration current (pos seconds)) e
unfolding max_expiration
timely-IsInWindow current seconds e (above, within) = (above, ground arith)

pub by_address-injective : (c d : AddressCredentials) → by_address c ≡ by_address d → c ≡ d
by_address-injective c d h = cc

-- The ledgers of one entry's credentials before those of the rest.
abbrev pub ledgers_with : Credentials → List ℕ → List ℕ
ledgers_with (by_address c) ledgers = c.expiration_ledger ∷ ledgers
ledgers_with (other_credentials name) ledgers = ledgers

expiration_ledgers-cons :
    (e : AuthEntry) (es : List AuthEntry)
    → expiration_ledgers (e ∷ es) ≡ ledgers_with e.credentials (expiration_ledgers es)
unfolding expiration_ledgers
expiration_ledgers-cons e es = ground arith

with-IsTimely :
    (current : ℕ) (timeout : ℤ) (k : Credentials) (ledgers : List ℕ)
    → All (IsInWindow current (max_expiration current timeout)) (ledgers_with k ledgers)
    → ((c : AddressCredentials)
        → k ≡ by_address c
        → (seconds : ℕ) × (timeout ≡ pos seconds) × IsTimely current seconds c.expiration_ledger)
      × All (IsInWindow current (max_expiration current timeout)) ledgers
with-IsTimely current timeout (by_address c) ledgers (h, hs) =
    (λ c' same. rw (sym (by_address-injective c c' same)) (window-IsTimely current timeout _ h), hs)
with-IsTimely current timeout (other_credentials name) ledgers h = (λ c same. absurd (cc), h)

entries-IsTimelyEntry :
    (current : ℕ) (timeout : ℤ) (es : List AuthEntry)
    → All (IsInWindow current (max_expiration current timeout)) (expiration_ledgers es)
    → All (IsTimelyEntry current timeout) es
entries-IsTimelyEntry current timeout [] h = tt
entries-IsTimelyEntry current timeout (e ∷ es) h =
    let (first, rest) = with-IsTimely current timeout e.credentials (expiration_ledgers es) (
      subst (All (IsInWindow current (max_expiration current timeout)))
        (expiration_ledgers-cons e es) h) in
    (first, entries-IsTimelyEntry current timeout es rest)

-- Expirations are accepted only on a known ledger; then every entry with address credentials expires
-- after that ledger and no later than the timeout allows, in ledgers of five seconds, the last one
-- counted whole.
pub validate_expirations_sound :
    (ledger : Option ℕ) (timeout : ℤ) (es : List AuthEntry) (u : Unit)
    → validate_expirations ledger timeout es ≡ next u
    → (current : ℕ) × (ledger ≡ some current) × All (IsTimelyEntry current timeout) es
unfolding validate_expirations
validate_expirations_sound ledger timeout es u h =
    let (current, h1, k1) = >>=-eq-next (need ledger simulation_failed) _ h in
    (
      current,
      need-next ledger simulation_failed h1,
      entries-IsTimelyEntry current timeout es (check_expirations_sound current _ _ u k1),
    )

check_expirations_complete :
    (current : ℕ) (latest : ℤ) (es : List ℕ)
    → All (IsInWindow current latest) es
    → check_expirations current latest es ≡ next tt
unfolding check_expirations
check_expirations_complete current latest [] h = refl
check_expirations_complete current latest (e ∷ es) ((above, within), h) =
    ground (arith, check_expirations_complete current latest es h, ltb_ℤ-false latest (pos e))

with_window :
    (current : ℕ) (latest : ℤ) (k : Credentials) (ledgers : List ℕ)
    → ((c : AddressCredentials) → k ≡ by_address c → IsInWindow current latest c.expiration_ledger)
    → All (IsInWindow current latest) ledgers
    → All (IsInWindow current latest) (ledgers_with k ledgers)
with_window current latest (by_address c) ledgers h hs = (h c refl, hs)
with_window current latest (other_credentials name) ledgers h hs = hs

ledgers-IsInWindow :
    (current seconds : ℕ) (es : List AuthEntry)
    → All
        (λ (e : AuthEntry).
          (c : AddressCredentials)
          → e.credentials ≡ by_address c
          → IsTimely current seconds c.expiration_ledger)
        es
    → All (IsInWindow current (max_expiration current (pos seconds))) (expiration_ledgers es)
unfolding expiration_ledgers
ledgers-IsInWindow current seconds [] h = tt
ledgers-IsInWindow current seconds (e ∷ es) (h, hs) =
    subst (All (IsInWindow current (max_expiration current (pos seconds))))
      (sym (expiration_ledgers-cons e es))
      (with_window current _ e.credentials (expiration_ledgers es)
        (λ c same. timely-IsInWindow current seconds c.expiration_ledger (h c same))
        (ledgers-IsInWindow current seconds es hs))

-- On a known ledger, entries are accepted whose expirations, where they have address credentials, all lie
-- after it and no later than the timeout allows, in ledgers of five seconds, the last one counted whole.
pub validate_expirations_complete :
    (current seconds : ℕ) (es : List AuthEntry)
    → All
        (λ (e : AuthEntry).
          (c : AddressCredentials)
          → e.credentials ≡ by_address c
          → IsTimely current seconds c.expiration_ledger)
        es
    → validate_expirations (some current) (pos seconds) es ≡ next tt
unfolding validate_expirations
validate_expirations_complete current seconds es h =
    check_expirations_complete current (max_expiration current (pos seconds))
      (expiration_ledgers es) (ledgers-IsInWindow current seconds es h)

module _ (sdk : Sdk) where
  -- An entry with address credentials and no sub-invocation.
  abbrev pub IsPlain : AuthEntry → Type 0
  IsPlain e = ((c : AddressCredentials) × (e.credentials ≡ by_address c)) × (e.sub_invocations ≡ 0)

  entry_shape_sound :
      (c : Credentials) (n : ℕ) (u : Unit)
      → entry_shape sdk c n ≡ next u
      → ((a : AddressCredentials) × (c ≡ by_address a)) × (n ≡ 0)
  entry_shape_sound (by_address a) n u h = ((a, refl), ground arith)
  entry_shape_sound (other_credentials name) n u h = cc

  check_shapes_sound :
      (es : List AuthEntry) (u : Unit) → check_shapes sdk es ≡ next u → All IsPlain es
  unfolding check_shapes
  check_shapes_sound [] u h = tt
  check_shapes_sound (e ∷ es) u h =
      let (v, h1, k1) = >>=-eq-next (entry_shape sdk e.credentials e.sub_invocations) _ h in
      (entry_shape_sound e.credentials e.sub_invocations v h1, check_shapes_sound es u k1)

  -- Every address that the facilitator has is another one than the text.
  abbrev pub AreOthers : List (Option String) → String → Type 0
  AreOthers facilitators held =
      All (λ (f : Option String). (a : String) → f ≡ some a → a ≢ "" → held ≢ a) facilitators

  -- The entry's address, where it has one, is none of the facilitator's.
  abbrev pub IsForeign : List (Option String) → AuthEntry → Type 0
  IsForeign facilitators e =
      (c : AddressCredentials) (held : String)
      → e.credentials ≡ by_address c
      → sdk.address_text c.address ≡ some held
      → AreOthers facilitators held

  pub unprotected :
      (facilitators : List (Option String)) (held : String)
      → includes (present facilitators) held ≡ false
      → AreOthers facilitators held
  unprotected [] held h = tt
  unprotected (none ∷ fs) held h = ((λ a e nonempty same. cc), unprotected fs held h)
  unprotected (some f ∷ fs) held h = elim (Bool-cases (f === "")) [
    | inl blank ↦
        ((λ a e nonempty same. grind (arith, eq_iff f "")), unprotected fs held (ground arith))
    | inr given ↦
        ((λ a e nonempty same. grind (arith, eq_iff f held)), unprotected fs held (ground arith))
  ]

  not_included :
      (xs : List String) (facilitators : List (Option String))
      → any (includes xs) (present facilitators) ≡ false
      → (held : String) → includes xs held ≡ true
      → AreOthers facilitators held
  not_included xs [] h held k = tt
  not_included xs (none ∷ fs) h held k = ((λ a e nonempty same. cc), not_included xs fs h held k)
  not_included xs (some f ∷ fs) h held k = elim (Bool-cases (f === "")) [
    | inl blank ↦ (
      (λ a e nonempty same. grind (arith, eq_iff f "")),
      not_included xs fs (ground arith) held k,
    )
    | inr given ↦ ((λ a e nonempty same. grind arith), not_included xs fs (ground arith) held k)
  ]

  includes-push :
      (o : Option String) (xs : List String) (held : String)
      → includes xs held ≡ true
      → includes (push o xs) held ≡ true
  includes-push none xs held h = h
  includes-push (some a) xs held h = ground arith

  -- The entry's address is listed.
  abbrev IsListed : List String → AuthEntry → Type 0
  IsListed xs e =
      (c : AddressCredentials) (held : String)
      → e.credentials ≡ by_address c
      → sdk.address_text c.address ≡ some held
      → includes xs held ≡ true

  All-IsListed :
      (xs : List String) (es : List AuthEntry)
      → ((held : String) → includes (all_addresses sdk es) held ≡ true → includes xs held ≡ true)
      → All (IsListed xs) es
  unfolding all_addresses
  All-IsListed xs [] h = tt
  All-IsListed xs (e ∷ es) h = (
    (λ c held same has. h held (ground (arith, ===_refl held))),
    All-IsListed xs es (λ held k. h held (includes-push _ _ held k)),
  )

  All-IsForeign :
      (xs : List String) (facilitators : List (Option String))
      → any (includes xs) (present facilitators) ≡ false
      → (es : List AuthEntry) → All (IsListed xs) es
      → All (IsForeign facilitators) es
  All-IsForeign xs facilitators h [] k = tt
  All-IsForeign xs facilitators h (e ∷ es) (k, ks) = (
    (λ c held same has. not_included xs facilitators h held (k c held same has)),
    All-IsForeign xs facilitators h es ks,
  )

  -- Accepted entries hold address credentials and no sub-invocation, and the address of none is one of
  -- the facilitator's, where that is not the empty text.
  pub validate_auth_entries_sound :
      (es : List AuthEntry) (facilitators : List (Option String)) (u : Unit)
      → validate_auth_entries sdk es facilitators ≡ next u
      → All (IsForeign facilitators) es × All IsPlain es
  unfolding validate_auth_entries
  validate_auth_entries_sound es facilitators u h =
      let (v, h1, k1) =
        >>=-eq-next
          (stop_if (any (includes (all_addresses sdk es)) (present facilitators))
            facilitator_in_auth)
          _ h in
      (
        All-IsForeign (all_addresses sdk es) facilitators (stop_if-next _ facilitator_in_auth h1) es
            (All-IsListed _ es (λ held k. k)),
        check_shapes_sound es u k1,
      )
