-- ===== src/Policy/Events/Parsed.antt =====
-- Which events of a simulation are read.
use agent_allowance.Common.{
  Bool, Any, All, inl, inr, true, false, not, ◌===◌, ◌≡◌, refl, Option, none, some, List, [], ◌∷◌,
  next, ◌>>=◌, need, need-bind, stop_if-bind, >>=-eq-next, next-injective, arith, eq_iff,
  not-eq-false, subst, sym, ℕ,
}
use agent_allowance.Xdr.{DiagnosticEvent, Sdk}
use agent_allowance.Policy.Events.{
  RawEvent, ParsedEvent, decode, append_to, first_symbol, parse_event, parse_contract_events,
  event_not_transfer, event_missing_contract_id,
}

-- The event as it is read under its contract's id.
abbrev reading : Sdk → DiagnosticEvent → List ℕ → ParsedEvent
reading sdk event id = record {
  contract_id = sdk.encode_contract id;
  event_name = first_symbol event.topics;
  topics = event.topics;
  payload = event.payload;
}

module _ (sdk : Sdk) where
  -- The event as it is read under its contract's id.
  abbrev pub IsReading : DiagnosticEvent → List ℕ → ParsedEvent → Type 0
  IsReading event id p =
      (p.contract_id ≡ sdk.encode_contract id)
      × (p.topics ≡ event.topics)
      × (p.event_name ≡ first_symbol event.topics)
      × (p.payload ≡ event.payload)

  -- A raw event decodes; a contract event comes from a successful call, names its contract and stands among those that are read,
  -- with its contract, its topics and its data.
  abbrev pub IsRead : List ParsedEvent → RawEvent → Type 0
  IsRead parsed raw =
      (event : DiagnosticEvent) × (decode sdk raw ≡ some event)
      × (event.type_name ≡ "contract"
          → (id : List ℕ) × (event.contract_id ≡ some id)
            × (event.in_successful_call ≡ true)
            × Any (IsReading event id) parsed)

  parse_event_lem :
      (event : DiagnosticEvent) (r : Option ParsedEvent)
      → parse_event sdk event ≡ next r
      → event.type_name ≡ "contract"
      → (id : List ℕ) × (event.contract_id ≡ some id)
        × (event.in_successful_call ≡ true)
        × (r ≡ some (reading sdk event id))
  unfolding parse_event
  parse_event_lem event r h e = by_type (event.type_name === "contract") refl
    where
      by_type :
          (b : Bool)
          → (event.type_name === "contract") ≡ b
          → (id : List ℕ) × (event.contract_id ≡ some id)
            × (event.in_successful_call ≡ true)
            × (r ≡ some (reading sdk event id))
      by_type false k = absurd (grind (arith, eq_iff event.type_name "contract"))
      by_type true k =
          let (c, k1) =
            stop_if-bind (not event.in_successful_call) event_not_transfer
              (λ u. need event.contract_id event_missing_contract_id >>= λ id.
                next (some (reading sdk event id)))
              (ground (arith, k)) in
          let (id, e1, k2) =
            need-bind event.contract_id event_missing_contract_id
              (λ id. next (some (reading sdk event id))) k1 in
          (id, e1, not-eq-false _ c, sym (next-injective k2))

  Any-append_to :
      (P : ParsedEvent → Type 0) (o : Option ParsedEvent) (es : List ParsedEvent)
      → Any P es
      → Any P (append_to sdk o es)
  Any-append_to P none es h = h
  Any-append_to P (some p) es h = inr h

  All-IsRead :
      (raws : List RawEvent) (o : Option ParsedEvent) (es : List ParsedEvent)
      → All (IsRead es) raws
      → All (IsRead (append_to sdk o es)) raws
  All-IsRead [] o es h = tt
  All-IsRead (raw ∷ raws) o es ((event, d, f), hs) = (
    (event, d, λ e. let (id, e1, e2, e3) = f e in (id, e1, e2, Any-append_to _ o es e3)),
    All-IsRead raws o es hs,
  )

  -- Every event decodes, and every contract event is read.
  pub parse_contract_events-IsRead :
      (raws : List RawEvent) (parsed : List ParsedEvent)
      → parse_contract_events sdk raws ≡ next parsed
      → All (IsRead parsed) raws
  unfolding parse_contract_events
  parse_contract_events-IsRead [] parsed h = tt
  parse_contract_events-IsRead (raw ∷ raws) parsed h =
      let (event, h1, k1) = need-bind (decode sdk raw) event_not_transfer _ h in
      let (o, h2, k2) = >>=-eq-next (parse_event sdk event) _ k1 in
      let (rest, h3, k3) = >>=-eq-next (parse_contract_events sdk raws) _ k2 in
      subst (λ (es : List ParsedEvent). All (IsRead es) (raw ∷ raws)) (next-injective k3)
        (
          (
            event,
            h1,
            λ e.
                let (id, e1, e2, e3) = parse_event_lem event o h2 e in
                (
                  id,
                  e1,
                  e2,
                  subst
                      (λ (x : Option ParsedEvent). Any (IsReading event id) (append_to sdk x rest))
                      (sym e3) (inl (refl, refl, refl, refl)),
                ),
          ),
          All-IsRead raws o rest (parse_contract_events-IsRead raws rest h3),
        )
