-- ===== src/Relayer/Transfers/Single.antt =====
-- What accepted simulation events show.
use agent_allowance.Common.{
  ℤ, String, Bool, true, false, not, ◌≡◌, refl, sym, ◌∙◌, ◌⊎◌, inl, inr, none, some, List, [], ◌∷◌,
  ◌===◌, select, All, next, stop_if, stop_if-next, >>=-eq-next, arith, eq_iff, not-eq-false,
}
use agent_allowance.Xdr.{is_bigint, Sdk}
use agent_allowance.Policy.Events.{RawEvent}
use agent_allowance.Relayer.Reasons.{event_missing_contract_id, event_not_transfer}
use agent_allowance.Relayer.Transfers.{
  TransferEvent, Reading, skipped, missing_contract_id, non_transfer, transferred, ParsedTransfers,
  read_event, add_reading, parse_transfer_events, the_single, no_more, validate_simulation_events,
}

-- The transfer of this amount of this token from the payer to the recipient.
abbrev pub IsRequired : String → String → String → ℤ → TransferEvent → Type 0
IsRequired contract sender recipient amount e =
    (e.contract_id ≡ contract)
    × (e.sender ≡ sender)
    × (e.recipient ≡ recipient)
    × (is_bigint e.amount amount ≡ true)

the_single-eq : (es : List TransferEvent) (e : TransferEvent) → the_single es ≡ next e → es ≡ e ∷ []
the_single-eq [] e h = cc
the_single-eq (x ∷ []) e h = cc
the_single-eq (x ∷ y ∷ es) e h = cc

no_more-eq : (es : List TransferEvent) (u : Unit) → no_more es ≡ next u → es ≡ []
no_more-eq [] u h = refl
no_more-eq (x ∷ es) u h = cc

select-all :
    (p : TransferEvent → Bool) (es : List TransferEvent)
    → select (λ e. not (p e)) es ≡ []
    → select p es ≡ es
select-all p [] h = refl
select-all p (e ∷ es) h = ground (arith, select-all p es)

select-head :
    (p : TransferEvent → Bool) (es : List TransferEvent) (e : TransferEvent)
    (rest : List TransferEvent)
    → select p es ≡ e ∷ rest
    → p e ≡ true
select-head p [] e rest h = cc
select-head p (x ∷ es) e rest h = ground (arith, select-head p es e rest)

module _ (sdk : Sdk) where
  -- A raw event that was skipped or read as a transfer.
  abbrev pub IsQuiet : RawEvent → Type 0
  IsQuiet raw =
      (read_event sdk raw ≡ skipped) ⊎ ((t : TransferEvent) × (read_event sdk raw ≡ transferred t))

  quiet_reading :
      (r : Reading) (parsed : ParsedTransfers)
      → (add_reading r parsed).non_transfer_detected ≡ false
      → (add_reading r parsed).missing_contract_id_detected ≡ false
      → ((r ≡ skipped) ⊎ ((t : TransferEvent) × (r ≡ transferred t)))
        × (parsed.non_transfer_detected ≡ false)
        × (parsed.missing_contract_id_detected ≡ false)
  quiet_reading skipped parsed h k = (inl refl, h, k)
  quiet_reading missing_contract_id parsed h k = cc
  quiet_reading non_transfer parsed h k = cc
  quiet_reading (transferred t) parsed h k = (inr (t, refl), h, k)

  All-IsQuiet :
      (raws : List RawEvent)
      → (parse_transfer_events sdk raws).non_transfer_detected ≡ false
      → (parse_transfer_events sdk raws).missing_contract_id_detected ≡ false
      → All IsQuiet raws
  unfolding parse_transfer_events
  All-IsQuiet [] h k = tt
  All-IsQuiet (raw ∷ raws) h k =
      let (q, h1, k1) = quiet_reading (read_event sdk raw) (parse_transfer_events sdk raws) h k in
      (q, All-IsQuiet raws h1 k1)

  pub validate_simulation_events_sound :
      (raws : List RawEvent) (contract sender recipient : String) (amount : ℤ)
      (ts : List TransferEvent)
      → validate_simulation_events sdk raws contract sender recipient amount ≡ next ts
      → (t : TransferEvent) × ((parse_transfer_events sdk raws).transfers ≡ t ∷ [])
        × IsRequired contract sender recipient amount t
        × All IsQuiet raws
  unfolding validate_simulation_events
  validate_simulation_events_sound raws contract sender recipient amount ts h =
      let parsed = parse_transfer_events sdk raws in
      let token = λ (e : TransferEvent). e.contract_id === contract in
      let (u1, h1, k1) = >>=-eq-next (stop_if parsed.missing_contract_id_detected _) _ h in
      let (u2, h2, k2) = >>=-eq-next (stop_if parsed.non_transfer_detected _) _ k1 in
      let (e, h3, k3) = >>=-eq-next (the_single (select token parsed.transfers)) _ k2 in
      let (u4, h4, k4) = >>=-eq-next (stop_if (not (e.sender === sender)) _) _ k3 in
      let (u5, h5, k5) = >>=-eq-next (stop_if (not (e.recipient === recipient)) _) _ k4 in
      let (u6, h6, k6) = >>=-eq-next (stop_if (not (is_bigint e.amount amount)) _) _ k5 in
      let (u7, h7, k7) =
        >>=-eq-next (no_more (select (λ e. not (token e)) parsed.transfers)) _ k6 in
      let only = the_single-eq (select token parsed.transfers) e h3 in
      let same = select-all token parsed.transfers (no_more-eq _ u7 h7) in
      (
        e,
        sym same ∙ only,
        (
          (eq_iff e.contract_id contract).0 (select-head token parsed.transfers e [] only),
          (eq_iff e.sender sender).0 (not-eq-false _ (stop_if-next _ none h4)),
          (eq_iff e.recipient recipient).0 (not-eq-false _ (stop_if-next _ none h5)),
          not-eq-false _ (stop_if-next _ none h6),
        ),
        All-IsQuiet raws (stop_if-next _ (some event_not_transfer) h2)
            (stop_if-next _ (some event_missing_contract_id) h1),
      )
