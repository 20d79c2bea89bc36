-- ===== src/Policy/Simulation/Sound.antt =====
-- What accepted simulation events guarantee: one transfer, the required one, and beside it only
-- policy events that the manifest pins.
use agent_allowance.Common.{
  subst, sym, next-injective, ℤ, pos, ◌≢◌, ===_ne, ◌===◌, Any, any, inl, inr, Bool-cases,
  Option-cases, find-listed, find-holds, includes, stop_if-bind, String, ◌≡◌, true, not, Option,
  some, List, [], ◌∷◌, next, arith, eq_iff, truthy, ◌&&◌, ◌∙◌, ap, ◌>>◌, >>=-eq-next, select,
  need-bind, All, is_text, not-eq-false, eqb_ℤ_iff, stop_if, stop_if-next,
}
use agent_allowance.Xdr.{Sdk}
use agent_allowance.Policy.Manifest.{Adapter, Manifest, spending_limit_kind}
use agent_allowance.Policy.Events.{
  policy_event_unapproved, policy_event_duplicate, same_lower_case, ExpectedTransfer,
  transfer_event_mismatch, manifest_mismatch, policy_event_malformed, RawEvent, ParsedEvent,
  TransferEvent, Approved, parse_contract_events, parse_transfer,
}
use agent_allowance.Policy.Events.Parsed.{IsRead, parse_contract_events-IsRead}
use agent_allowance.Policy.Spending.{check_spending}
use agent_allowance.Policy.Spending.Sound.{IsSpending, check_spending_sound}
use agent_allowance.Policy.Simulation.{
  Hashes, observed, identity_ok, adapter_of, is_transfer, not_transfer, is_expected, required_seen,
  check_event, check_events, check_transfer_event, validate_simulation, the_one, event_key,
  rule_mismatch,
}

module _ (sdk : Sdk) (m : Manifest) (hashes : Hashes) (expected : ExpectedTransfer) where
  -- The contract's observed code is the one that the adapter pins, where it pins one.
  abbrev pub HasPinnedCode : Adapter → Type 0
  HasPinnedCode a =
      (pinned : String)
      → a.expected_wasm_hash ≡ some pinned
      → pinned ≢ ""
      → (code : String) × (observed hashes a.contract_id ≡ some code)
        × (same_lower_case code pinned ≡ true)

  identity_ok_sound : (a : Adapter) → identity_ok hashes a ≡ true → HasPinnedCode a
  unfolding identity_ok
  identity_ok_sound a h pinned e given = elim (Option-cases (observed hashes a.contract_id)) [
    | inl unobserved ↦ absurd (ground (arith, ===_ne pinned "" given, unobserved, e))
    | inr (code, found) ↦ (code, found, ground (arith, ===_ne pinned "" given, found, e))
  ]

  -- A policy event that the manifest pins: its contract has an adapter, of the supported kind, with
  -- the pinned code, and the event is a spending-limit event for this very payment.
  pub record IsPinned (e : ParsedEvent) : Type 0 where
    pub adapter : Adapter
    pub listed : Any (λ (a : Adapter). a ≡ adapter) m.adapters
    pub contract : adapter.contract_id ≡ e.contract_id
    pub code : HasPinnedCode adapter
    pub kind : adapter.kind ≡ spending_limit_kind
    pub spending : IsSpending sdk e expected

  check_event_sound :
      (seen : List String) (e : ParsedEvent) (a : Adapter)
      → check_event sdk m hashes expected seen e ≡ next a
      → IsPinned e
  unfolding check_event
  check_event_sound seen e a h =
      let (adapter, h1, k1) = need-bind (adapter_of m e.contract_id) policy_event_unapproved _ h in
      let (ok, k2) = stop_if-bind (not (identity_ok hashes adapter)) manifest_mismatch _ k1 in
      let (new, k3) =
        stop_if-bind (includes seen (event_key adapter e)) policy_event_duplicate _ k2 in
      let (kind, k4) =
        stop_if-bind (not (adapter.kind === spending_limit_kind)) policy_event_unapproved _ k3 in
      let (u5, h5, k5) = >>=-eq-next (check_spending sdk e expected) _ k4 in
      record {
        adapter = adapter;
        listed = find-listed _ m.adapters adapter h1;
        contract =
            (eq_iff adapter.contract_id e.contract_id).0 (find-holds _ m.adapters adapter h1);
        code = identity_ok_sound adapter (not-eq-false _ ok);
        kind = (eq_iff adapter.kind spending_limit_kind).0 (not-eq-false _ kind);
        spending = check_spending_sound sdk e expected h5;
      }

  check_events_sound :
      (es : List ParsedEvent) (seen : List String) (approved : List Approved)
      → check_events sdk m hashes expected seen es ≡ next approved
      → All IsPinned es
  unfolding check_events
  check_events_sound [] seen approved h = tt
  check_events_sound (e ∷ es) seen approved h =
      let (a, h1, k1) = >>=-eq-next (check_event sdk m hashes expected seen e) _ h in
      let (rest, h2, k2) =
        >>=-eq-next (check_events sdk m hashes expected (event_key a e ∷ seen) es) _ k1 in
      (check_event_sound seen e a h1, check_events_sound es (event_key a e ∷ seen) rest h2)

  -- What is approved are the events, in their order.
  approved_events :
      (es : List ParsedEvent) (seen : List String) (approved : List Approved)
      → check_events sdk m hashes expected seen es ≡ next approved
      → (id : String) → any (λ (v : Approved). v.contract_id === id) approved ≡ true
      → Any (λ (e : ParsedEvent). e.contract_id ≡ id) es
  unfolding check_events
  approved_events [] seen approved h id k =
      let found =
        subst (λ (l : List Approved). any (λ (v : Approved). v.contract_id === id) l ≡ true)
          (sym (next-injective h)) k in
      absurd (cc)
  approved_events (e ∷ es) seen approved h id k =
      let (a, h1, k1) = >>=-eq-next (check_event sdk m hashes expected seen e) _ h in
      let (rest, h2, k2) =
        >>=-eq-next (check_events sdk m hashes expected (event_key a e ∷ seen) es) _ k1 in
      let found =
        subst (λ (l : List Approved). any (λ (v : Approved). v.contract_id === id) l ≡ true)
          (sym (next-injective k2)) k in
      elim (Bool-cases (e.contract_id === id)) [
        | inl own ↦ inl ((eq_iff e.contract_id id).0 own)
        | inr other ↦
            inr
              (approved_events es (event_key a e ∷ seen) rest h2 id (ground (arith, found, other)))
      ]

  -- Every required adapter has an event.
  abbrev pub HasRequired : List ParsedEvent → Adapter → Type 0
  HasRequired es a = a.required ≡ true → Any (λ (e : ParsedEvent). e.contract_id ≡ a.contract_id) es

  required_seen_sound :
      (es : List ParsedEvent) (approved : List Approved)
      → ((id : String)
          → any (λ (v : Approved). v.contract_id === id) approved ≡ true
          → Any (λ (e : ParsedEvent). e.contract_id ≡ id) es)
      → (as_ : List Adapter) → required_seen as_ approved ≡ true
      → All (HasRequired es) as_
  unfolding required_seen
  required_seen_sound es approved f [] h = tt
  required_seen_sound es approved f (a ∷ as_) h =
      ((λ r. f a.contract_id (ground arith)), required_seen_sound es approved f as_ (ground arith))

  -- The one transfer event, read as the required transfer.
  pub record IsPayment (parsed : List ParsedEvent) : Type 0 where
    pub event : ParsedEvent
    pub only : select is_transfer parsed ≡ event ∷ []
    pub transfer : TransferEvent
    pub read_as : parse_transfer sdk event ≡ next (some transfer)
    pub token : transfer.token ≡ expected.token
    pub sender : transfer.sender ≡ expected.sender
    pub recipient : transfer.recipient ≡ expected.recipient
    pub amount : transfer.amount ≡ expected.amount

  the_one_sound : (es : List ParsedEvent) (e : ParsedEvent) → the_one es ≡ next e → es ≡ e ∷ []
  the_one_sound [] e h = cc
  the_one_sound (x ∷ []) e h = cc
  the_one_sound (x ∷ y ∷ es) e h = cc

  is_expected_sound :
      (t : TransferEvent)
      → is_expected t expected ≡ true
      → (t.token ≡ expected.token)
        × (t.sender ≡ expected.sender)
        × (t.recipient ≡ expected.recipient)
        × (t.amount ≡ expected.amount)
  unfolding is_expected
  is_expected_sound t h = grind (arith, eq_iff, eqb_ℤ_iff)

  check_transfer_event_sound :
      (parsed : List ParsedEvent) (u : Unit)
      → check_transfer_event sdk m hashes expected parsed ≡ next u
      → IsPayment parsed
  unfolding check_transfer_event
  check_transfer_event_sound parsed u h =
      let (event, h1, k1) = >>=-eq-next (the_one (select is_transfer parsed)) _ h in
      let (found, h2, k2) = >>=-eq-next (parse_transfer sdk event) _ k1 in
      let (t, h3, k3) =
        need-bind found transfer_event_mismatch
          (λ t. stop_if (not (is_expected t expected)) transfer_event_mismatch) k2 in
      let (tok, snd, rcp, amt) = is_expected_sound t (
        not-eq-false (is_expected t expected)
          (stop_if-next (not (is_expected t expected)) transfer_event_mismatch k3)) in
      record {
        event = event;
        only = the_one_sound (select is_transfer parsed) event h1;
        transfer = t;
        read_as = h2 ∙ ap (λ (o : Option TransferEvent). next o) h3;
        token = tok;
        sender = snd;
        recipient = rcp;
        amount = amt;
      }

  -- The simulated events are one payment and pinned policy events, under a manifest of this payment.
  abbrev pub IsSimulated : List RawEvent → Type 0
  IsSimulated events =
      (parsed : List ParsedEvent) × (parse_contract_events sdk events ≡ next parsed)
      × All (IsRead sdk parsed) events
      × IsPayment parsed
      × All IsPinned (select not_transfer parsed)
      × All (HasRequired (select not_transfer parsed)) m.adapters
      × ((account : String)
          → m.smart_account ≡ some account
          → account ≢ ""
          → account ≡ expected.sender)
      × ((rule : ℤ) → m.expected_rule_id ≡ some rule → rule ≡ pos expected.context_rule_id)

  -- Simulation events that are accepted decode, and the contract events come from successful calls and are
  -- read whole; among the contract events exactly one is a transfer,
  -- and it is the required one; every other one is pinned by the manifest (an adapter of the supported kind
  -- lists its contract, whose observed code is the adapter's, where that pins one) and is a spending-limit
  -- event of this payment; every required adapter has such an event; and the account and the rule of the
  -- payment are those that the manifest names, where it names them.
  pub validate_simulation_sound :
      (events : List RawEvent) (approved : List Approved)
      → validate_simulation sdk m hashes expected events ≡ next approved
      → IsSimulated events
  unfolding validate_simulation
  validate_simulation_sound events approved h =
      let (u1, h1, k1) =
        >>=-eq-next
          (stop_if (truthy m.smart_account && not (is_text m.smart_account expected.sender))
            manifest_mismatch)
          _ h in
      let (u2, h2, k2) =
        >>=-eq-next
          (stop_if (rule_mismatch sdk m hashes expected m.expected_rule_id) manifest_mismatch) _
          k1 in
      let (parsed, h3, k3) = >>=-eq-next (parse_contract_events sdk events) _ k2 in
      let (u4, h4, k4) = >>=-eq-next (check_transfer_event sdk m hashes expected parsed) _ k3 in
      let (seen, h5, k5) =
        >>=-eq-next (check_events sdk m hashes expected [] (select not_transfer parsed)) _ k4 in
      (
        parsed,
        h3,
        parse_contract_events-IsRead sdk events parsed h3,
        check_transfer_event_sound parsed u4 h4,
        check_events_sound _ [] seen h5,
        required_seen_sound (select not_transfer parsed) seen
            (approved_events (select not_transfer parsed) [] seen h5) m.adapters (last seen k5),
        (λ account e given. grind (arith, eq_iff account expected.sender, eq_iff account "")),
        (λ rule e. grind (arith, eqb_ℤ_iff)),
      )
    where
      last :
          (seen : List Approved)
          → (stop_if (not (required_seen m.adapters seen)) policy_event_malformed >> next seen)
            ≡ next approved
          → required_seen m.adapters seen ≡ true
      last seen k = ground arith
