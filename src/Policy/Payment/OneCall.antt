-- ===== src/Policy/Payment/OneCall.antt =====
-- What an accepted payment transaction holds.
use agent_allowance.Common.{
  false, call-bind, stop_if-bind, stop_if-next, not-eq-false, eq_iff, ◌===◌, ℕ, ℤ, String, not, ◌≡◌,
  refl, Option, some, List, [], ◌∷◌, Flow, next, stop, thrown, arith, >>=-eq-next, need, need-next,
  stop_if, ◌==◌, next-injective, ap, subst, ◌∙◌,
}
use agent_allowance.Policy.Spending.Values.{is_bigint-eq}
use agent_allowance.Xdr.{
  ScVal, Native, bigint, Transaction, Operation, invoke_host_function, other_operation,
  invoke_contract, other_function, InvokeArgs, AuthEntry, Sdk,
}
use agent_allowance.Auth.{structure_invalid, Transfer, AuthValid, validate_entries}
use agent_allowance.Auth.Sound.{IsDelegated, validate_entries_sound}
use agent_allowance.Policy.Payment.{
  TransactionValid, validate_transaction, three_args, check_call, single, invocation, first_rule,
  refuse_as,
}

pub refuse_as-next :
    {R S A : Type 0} (f : R → S) (m : Flow R A) {a : A} → refuse_as f m ≡ next a → m ≡ next a
refuse_as-next f (next b) h = ap (λ x. next x) (next-injective h)
refuse_as-next f (stop r) h = cc
refuse_as-next f (thrown m) h = cc

single_lem : {A R : Type 0} (xs : List A) (r : R) (a : A) → single xs r ≡ next a → xs ≡ a ∷ []
single_lem [] r a h = cc
single_lem (x ∷ []) r a h = cc
single_lem (x ∷ y ∷ xs) r a h = cc

invocation_lem :
    {R : Type 0} (o : Operation) (r : R) (call : InvokeArgs) (auth : List AuthEntry)
    → invocation o r ≡ next (call, auth)
    → (source : Option String) × (o ≡ invoke_host_function source (invoke_contract call) auth)
invocation_lem (invoke_host_function source (invoke_contract c) es) r call auth h = (source, cc)
invocation_lem (invoke_host_function source (other_function n) es) r call auth h = cc
invocation_lem (other_operation source n) r call auth h = cc

first_rule_lem :
    (ids : List ℕ) (id : ℕ) → first_rule ids ≡ next id → (rest : List ℕ) × (ids ≡ id ∷ rest)
first_rule_lem [] id h = cc
first_rule_lem (x ∷ ids) id h = (ids, cc)

-- The call is `transfer` of the token, with the sender, the recipient and the amount.
pub record IsTransferTo (sdk : Sdk) (call : InvokeArgs) (expected : Transfer) : Type 0 where
  pub on_token : sdk.address_text call.contract_address ≡ some expected.token
  pub named_transfer : call.function_name ≡ "transfer"
  pub sender_val : ScVal
  pub recipient_val : ScVal
  pub amount_val : ScVal
  pub three : call.args ≡ sender_val ∷ recipient_val ∷ amount_val ∷ []
  pub from_sender : sdk.address_of_val sender_val ≡ some expected.sender
  pub to_recipient : sdk.address_of_val recipient_val ≡ some expected.recipient
  pub of_amount : sdk.native amount_val ≡ some (bigint expected.amount)

three_args_lem :
    {R : Type 0} (vs : List ScVal) (r : R) (a b c : ScVal)
    → three_args vs r ≡ next (a, b, c)
    → vs ≡ a ∷ b ∷ c ∷ []
three_args_lem [] r a b c h = cc
three_args_lem (x ∷ []) r a b c h = cc
three_args_lem (x ∷ y ∷ []) r a b c h = cc
three_args_lem (x ∷ y ∷ z ∷ []) r a b c h = cc
three_args_lem (x ∷ y ∷ z ∷ w ∷ vs) r a b c h = cc

check_call_sound :
    (sdk : Sdk) (call : InvokeArgs) (expected : Transfer) (u : Unit)
    → check_call sdk call expected ≡ next u
    → IsTransferTo sdk call expected
unfolding check_call
check_call_sound sdk call expected u h =
    let (token, h1, k1) = call-bind (sdk.address_text call.contract_address) _ _ h in
    let (t, k2) = stop_if-bind (not (token === expected.token)) structure_invalid _ k1 in
    let (f, k3) = stop_if-bind (not (call.function_name === "transfer")) structure_invalid _ k2 in
    let ((a, b, c), h4, k4) = >>=-eq-next (three_args call.args structure_invalid) _ k3 in
    let (sender, h5, k5) = call-bind (sdk.address_of_val a) _ _ k4 in
    let (s, k6) = stop_if-bind (not (sender === expected.sender)) structure_invalid _ k5 in
    let (recipient, h7, k7) = call-bind (sdk.address_of_val b) _ _ k6 in
    let (r, k8) = stop_if-bind (not (recipient === expected.recipient)) structure_invalid _ k7 in
    let (amount, h9, k9) = call-bind (sdk.native c) _ _ k8 in
    let same =
      is_bigint-eq amount expected.amount (not-eq-false _ (stop_if-next _ structure_invalid k9)) in
    record {
      on_token = named token expected.token h1 t;
      named_transfer = (eq_iff call.function_name "transfer").0 (not-eq-false _ f);
      sender_val = a;
      recipient_val = b;
      amount_val = c;
      three = three_args_lem call.args structure_invalid a b c h4;
      from_sender = named sender expected.sender h5 s;
      to_recipient = named recipient expected.recipient h7 r;
      of_amount = h9 ∙ ap (λ (v : Native). some v) same;
    }
  where
    named : {o : Option String} (x y : String) → o ≡ some x → not (x === y) ≡ false → o ≡ some y
    named x y e k = e ∙ ap (λ (t : String). some t) ((eq_iff x y).0 (not-eq-false _ k))

module _ (sdk : Sdk) where
  -- One unsigned envelope with one operation, the required call, whose entries are delegated.
  pub record IsPaymentCall (xdr passphrase : String) (expected : Transfer) (rule : Option ℤ)
      (v : TransactionValid) : Type 0 where
    pub transaction : Transaction
    pub parsed : sdk.parse_transaction xdr passphrase ≡ some transaction
    pub unsigned : transaction.signatures ≡ 0
    pub call : InvokeArgs
    pub source : Option String
    pub one_operation :
        transaction.operations
        ≡ invoke_host_function source (invoke_contract call) v.auth_entries ∷ []
    pub required_call : IsTransferTo sdk call expected
    pub auth : AuthValid
    pub delegated : IsDelegated sdk v.auth_entries expected passphrase rule auth
    pub delegate : v.delegate ≡ auth.delegate
    pub rest : List ℕ
    pub rules : auth.context_rule_ids ≡ v.context_rule_id ∷ rest

  pub validate_transaction_sound :
      (xdr passphrase : String) (expected : Transfer) (rule : Option ℤ) (v : TransactionValid)
      → validate_transaction sdk xdr passphrase expected rule ≡ next v
      → IsPaymentCall xdr passphrase expected rule v
  unfolding validate_transaction
  validate_transaction_sound xdr passphrase expected rule v h =
      let (t, h1, k1) =
        >>=-eq-next (need (sdk.parse_transaction xdr passphrase) structure_invalid) _ h in
      let (u2, h2, k2) = >>=-eq-next (stop_if (not (t.signatures == 0)) structure_invalid) _ k1 in
      let (o, h3, k3) = >>=-eq-next (single t.operations structure_invalid) _ k2 in
      let ((call, es), h4, k4) = >>=-eq-next (invocation o structure_invalid) _ k3 in
      let (u5, h5, k5) = >>=-eq-next (check_call sdk call expected) _ k4 in
      let (av, h6, k6) = >>=-eq-next (validate_entries sdk es expected passphrase rule) _ k5 in
      let (id, h7, k7) = >>=-eq-next (first_rule av.context_rule_ids) _ k6 in
      let (rest, rules) = first_rule_lem av.context_rule_ids id h7 in
      let (source, called) = invocation_lem o structure_invalid call es h4 in
      subst (IsPaymentCall xdr passphrase expected rule) (next-injective k7) (record {
        transaction = t;
        parsed = need-next (sdk.parse_transaction xdr passphrase) structure_invalid h1;
        unsigned = zero_signatures t.signatures h2;
        call = call;
        source = source;
        one_operation = single_lem t.operations structure_invalid o h3 ∙ ap (λ x. x ∷ []) called;
        required_call = check_call_sound sdk call expected u5 h5;
        auth = av;
        delegated = validate_entries_sound sdk es expected passphrase rule av h6;
        delegate = refl;
        rest = rest;
        rules = rules;
      })
    where
      zero_signatures :
          (n : ℕ) {u : Unit} → stop_if (not (n == 0)) structure_invalid ≡ next u → n ≡ 0
      zero_signatures n h = ground arith
