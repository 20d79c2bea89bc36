-- ===== src/Policy/Spending/Sound.antt =====
-- What an accepted spending-limit event says.
use agent_allowance.Common.{
  subst, call-bind, not, [], ◌∷◌, ◌>>=◌, stop_if, stop_if-bind, stop_if-next, need-bind,
  not-eq-false, is_text, is_text-eq, eq_iff, ◌===◌, ℕ, ℤ, String, ◌≡◌, some, List, next, arith,
  >>=-eq-next, lookup, ◌≤ℤ◌, length, eqb_ℤ_iff, ltb_ℤ-false, need, need-next, call-next, ap, ◌∙◌,
  Option-cases, inl, inr,
}
use agent_allowance.Xdr.{
  ScAddress, address, ScVal, u32, Native, bigint, text, array, Natives, natives, is_string, Sdk,
  sdk_call,
}
use agent_allowance.Policy.Events.{
  ExpectedTransfer, EventReason, ParsedEvent, map_fields, property, policy_event_malformed,
  policy_event_context_mismatch,
}
use agent_allowance.Policy.Spending.Values.{is_string-eq, context_call_sound, args_are_sound}
use agent_allowance.Policy.Spending.{
  second_topic, as_address, context_call, check_spending, check_payer, check_amounts, check_context,
  numeric_fields,
}

as_address_sound :
    (v w : ScVal) → as_address v ≡ some w → (a : ScAddress) × (v ≡ address a) × (w ≡ address a)
as_address_sound v w h = grind arith

module _ (sdk : Sdk) where
  numeric_fields_sound :
      (fields : List (String × ScVal)) (a : ScVal) (r : ℕ) (t c : ScVal)
      → numeric_fields sdk fields ≡ next (a, r, t, c)
      → (length fields ≡ 4)
        × (lookup "amount" fields ≡ some a)
        × (lookup "context_rule_id" fields ≡ some (u32 r))
        × (lookup "total_spent_in_period" fields ≡ some t)
        × (lookup "context" fields ≡ some c)
  unfolding numeric_fields
  numeric_fields_sound fields a r t c h = grind arith

  check_amounts_sound :
      (a : ScVal) (r : ℕ) (t : ScVal) (e : ExpectedTransfer) (u : Unit)
      → check_amounts sdk a r t e ≡ next u
      → (sdk.native a ≡ some (bigint e.amount))
        × (r ≡ e.context_rule_id)
        × ((total : ℤ) → sdk.native t ≡ some (bigint total) → e.amount ≤ℤ total)
  unfolding check_amounts
  check_amounts_sound a r t e u h = elim (Option-cases (sdk.native a)) [
    | inl bad ↦ ground arith
    | inr (v, va) ↦ elim (Option-cases (sdk.native t)) [
      | inl bad ↦ ground arith
      | inr (w, vw) ↦ (amount v va w vw, ground arith, λ total k. covered v va total k)
    ]
  ]
    where
      amount :
          (v : Native)
          → sdk.native a ≡ some v
          → (w : Native) → sdk.native t ≡ some w
          → sdk.native a ≡ some (bigint e.amount)
      amount v va w vw = grind (arith, eqb_ℤ_iff)

      covered :
          (v : Native)
          → sdk.native a ≡ some v
          → (total : ℤ) → sdk.native t ≡ some (bigint total)
          → e.amount ≤ℤ total
      covered v va total k = ground (arith, ltb_ℤ-false total e.amount)

  -- The second and last topic is the payer's address.
  abbrev pub NamesPayer : ParsedEvent → ExpectedTransfer → Type 0
  NamesPayer event e =
      (name : ScVal) × (payer_address : ScAddress) × (event.topics
        ≡ name ∷ address payer_address ∷ [])
      × (sdk.address_of_val (address payer_address) ≡ some e.sender)

  payer_topic :
      (topics : List ScVal) (e : ExpectedTransfer)
      → (need (second_topic topics) policy_event_malformed >>= λ topic.
          need (as_address topic) policy_event_context_mismatch >>= λ payer_val.
          sdk_call (sdk.address_of_val payer_val) >>= λ payer.
          stop_if (not (payer === e.sender)) policy_event_context_mismatch)
        ≡ next tt
      → (name : ScVal) × (payer_address : ScAddress) × (topics ≡ name ∷ address payer_address ∷ [])
        × (sdk.address_of_val (address payer_address) ≡ some e.sender)
  payer_topic [] e h = absurd (cc)
  payer_topic (a ∷ []) e h = absurd (cc)
  payer_topic (a ∷ b ∷ []) e h =
      let (val, h1, k1) = need-bind (as_address b) policy_event_context_mismatch _ h in
      let (payer_address, e1, e2) = as_address_sound b val h1 in
      let (payer, h2, k2) = call-bind (sdk.address_of_val val) _ _ k1 in
      let same =
        (eq_iff payer e.sender).0
          (not-eq-false _ (stop_if-next _ policy_event_context_mismatch k2)) in
      (
        a,
        payer_address,
        cc,
        subst (λ (v : ScVal). sdk.address_of_val v ≡ some e.sender) e2
            (h2 ∙ ap (λ (x : String). some x) same),
      )
  payer_topic (a ∷ b ∷ c ∷ es) e h = absurd (cc)

  check_payer_sound :
      (event : ParsedEvent) (e : ExpectedTransfer)
      → check_payer sdk event e ≡ next tt
      → (event.event_name ≡ some "spending_limit_enforced") × NamesPayer event e
  unfolding check_payer
  check_payer_sound event e h =
      let (named, k) =
        stop_if-bind (not (is_text event.event_name "spending_limit_enforced"))
          policy_event_malformed _ h in
      (is_text-eq _ _ (not-eq-false _ named), payer_topic event.topics e k)

  -- The context is a pair of the text "Contract" and a call `transfer` of the payment's token, of the
  -- payment's sender, recipient and amount.
  pub record Embeds (context : Native) (e : ExpectedTransfer) : Type 0 where
    pub call : Native
    pub parts : Natives
    pub context_array : context ≡ array parts
    pub pair : natives parts ≡ text "Contract" ∷ call ∷ []
    pub contract : property {R = EventReason} call "contract" ≡ next (text e.token)
    pub function_name : property {R = EventReason} call "fn_name" ≡ next (text "transfer")
    pub values : Natives
    pub args : property {R = EventReason} call "args" ≡ next (array values)
    pub three_values : natives values ≡ text e.sender ∷ text e.recipient ∷ bigint e.amount ∷ []

  check_context_sound :
      (context : Native) (e : ExpectedTransfer)
      → check_context sdk context e ≡ next tt
      → Embeds context e
  unfolding check_context
  check_context_sound context e h =
      let (call, h1, k1) = need-bind (context_call context) policy_event_malformed _ h in
      let (contract, h2, k2) = >>=-eq-next (property call "contract") _ k1 in
      let (c2, k3) =
        stop_if-bind (not (is_string contract e.token)) policy_event_context_mismatch _ k2 in
      let (name, h4, k4) = >>=-eq-next (property call "fn_name") _ k3 in
      let (c4, k5) =
        stop_if-bind (not (is_string name "transfer")) policy_event_context_mismatch _ k4 in
      let (args, h6, k6) = >>=-eq-next (property call "args") _ k5 in
      let (parts, q1, q2) = context_call_sound context call h1 in
      let (values, q3, q4) =
        args_are_sound args e (not-eq-false _ (stop_if-next _ policy_event_context_mismatch k6)) in
      record {
        call = call;
        parts = parts;
        context_array = q1;
        pair = q2;
        contract =
            h2 ∙ ap (λ (v : Native). next v) (is_string-eq contract e.token (not-eq-false _ c2));
        function_name =
            h4 ∙ ap (λ (v : Native). next v) (is_string-eq name "transfer" (not-eq-false _ c4));
        values = values;
        args = h6 ∙ ap (λ (v : Native). next v) q3;
        three_values = q4;
      }

  -- The fields of the event's data, and the call that its context embeds.
  pub record IsSpending (event : ParsedEvent) (e : ExpectedTransfer) : Type 0 where
    pub named : event.event_name ≡ some "spending_limit_enforced"
    pub by_payer : NamesPayer event e
    pub fields : List (String × ScVal)
    pub data_fields : map_fields event.payload ≡ some fields
    pub four : length fields ≡ 4
    pub amount_val : ScVal
    pub amount_field : lookup "amount" fields ≡ some amount_val
    pub amount : sdk.native amount_val ≡ some (bigint e.amount)
    pub rule_field : lookup "context_rule_id" fields ≡ some (u32 e.context_rule_id)
    pub total_val : ScVal
    pub total_field : lookup "total_spent_in_period" fields ≡ some total_val
    pub total : (n : ℤ) → sdk.native total_val ≡ some (bigint n) → e.amount ≤ℤ n
    pub context_val : ScVal
    pub context_field : lookup "context" fields ≡ some context_val
    pub context : Native
    pub context_is : sdk.native context_val ≡ some context
    pub embedded : Embeds context e

  -- A spending-limit event that is accepted has two topics, the second of which is the payer's address; its
  -- data has exactly four fields, among them the payment's amount, the payment's rule, a period total which,
  -- where it is a bigint, is at least the amount, and a context that embeds the payment's own call: `transfer`
  -- of its token with its sender, recipient and amount.
  pub check_spending_sound :
      (event : ParsedEvent) (e : ExpectedTransfer)
      → check_spending sdk event e ≡ next tt
      → IsSpending event e
  unfolding check_spending
  check_spending_sound event e h =
      let (u1, h1, k1) = >>=-eq-next (check_payer sdk event e) _ h in
      let (fields, h2, k2) =
        >>=-eq-next (need (map_fields event.payload) policy_event_malformed) _ k1 in
      let ((a, r, t, c), h3, k3) = >>=-eq-next (numeric_fields sdk fields) _ k2 in
      let (u4, h4, k4) = >>=-eq-next (check_amounts sdk a r t e) _ k3 in
      let (n, h5, k5) = >>=-eq-next (sdk_call (sdk.native c)) _ k4 in
      let (four, fa, fr, ft, fc) = numeric_fields_sound fields a r t c h3 in
      let (amount, rule, total) = check_amounts_sound a r t e u4 h4 in
      record {
        named = (check_payer_sound event e h1).0;
        by_payer = (check_payer_sound event e h1).1;
        fields = fields;
        data_fields = need-next (map_fields event.payload) policy_event_malformed h2;
        four = four;
        amount_val = a;
        amount_field = fa;
        amount = amount;
        rule_field = fr ∙ ap (λ (n : ℕ). some (u32 n)) rule;
        total_val = t;
        total_field = ft;
        total = total;
        context_val = c;
        context_field = fc;
        context = n;
        context_is = call-next (sdk.native c) _ h5;
        embedded = check_context_sound n e k5;
      }
