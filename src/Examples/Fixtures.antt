-- ===== src/Examples/Fixtures.antt =====
-- An account, its delegate, a payment and an SDK over them, for the examples.
use agent_allowance.Common.{
  ℕ, pos, ◌+◌, ◌*◌, String, true, Option, none, some, List, [], ◌∷◌, ◌===◌, if◌then◌else◌, length,
  ◌==◌,
}
use agent_allowance.Shared.{PaymentRequirements}
use agent_allowance.Xdr.{
  ScAddress, sc_address, ScVal, void, u32, i128, symbol, string, bytes, address, vec, ScVals, nil,
  cons, ScEntries, end, entry, Native, nothing, bigint, number, text, array, object, other_native,
  Natives, Members, member, InvokeArgs, contract_fn, by_address, AuthEntry, invoke_contract,
  invoke_host_function, Transaction, handed, Sdk,
}
use agent_allowance.Auth.{Transfer}

abbrev pub payer : String
payer = "CAAAAAAAAAAAAAAAAAAAAAAAAAAAAAAAAAAAAAAAAAAAAAAAAAAAAAAA"

abbrev pub token : String
token = "CBBBBBBBBBBBBBBBBBBBBBBBBBBBBBBBBBBBBBBBBBBBBBBBBBBBBBBB"

abbrev pub policy : String
policy = "CDDDDDDDDDDDDDDDDDDDDDDDDDDDDDDDDDDDDDDDDDDDDDDDDDDDDDDD"

abbrev pub delegate : String
delegate = "GDELEGATE"

abbrev pub merchant : String
merchant = "GMERCHANT"

abbrev pub testnet : String
testnet = "stellar:testnet"

abbrev pub code_hash : String
code_hash = "0123456789abcdef0123456789abcdef0123456789abcdef0123456789abcdef"

abbrev pub at : String → ScVal
at s = address (sc_address s [])

mutual
  to_native : ScVal → Native
  to_native void = nothing
  to_native (u32 n) = number (pos n)
  to_native (i128 (pos hi) lo) = bigint (pos (hi * 18446744073709551616 + lo))
  to_native (symbol s) = text s
  to_native (string s) = text s
  to_native (address (sc_address s b)) = text s
  to_native (vec vs) = array (to_natives vs)
  to_native (ScVal.map es) = object (to_members es)
  to_native other = other_native

  to_natives : ScVals → Natives
  to_natives nil = Natives.nil
  to_natives (cons v vs) = Natives.cons (to_native v) (to_natives vs)

  to_members : ScEntries → Members
  to_members end = Members.end
  to_members (entry (symbol k) v es) = member k (to_native v) (to_members es)
  to_members (entry other v es) = to_members es

abbrev text_of : ScVal → Option String
text_of (address (sc_address s b)) = some s
text_of other = none

abbrev arm : ScAddress → Option String
arm (sc_address s b) = some s

abbrev contract_at : List ℕ → String
contract_at b = if length b == 1 then token else policy

abbrev pub digest : List ℕ
digest =
    1 ∷ 2 ∷ 3 ∷ 4 ∷ 5 ∷ 6 ∷ 7 ∷ 8 ∷ 9 ∷ 10 ∷ 11 ∷ 12 ∷ 13 ∷ 14 ∷ 15 ∷ 16 ∷ 17 ∷ 18 ∷ 19 ∷ 20 ∷ 21
    ∷ 22 ∷ 23 ∷ 24 ∷ 25 ∷ 26 ∷ 27 ∷ 28 ∷ 29 ∷ 30 ∷ 31 ∷ 32 ∷ []

-- The transfer of five units to the merchant.
abbrev pub transfer_call : InvokeArgs
transfer_call = record {
  contract_address = sc_address token [];
  function_name = "transfer";
  args = at payer ∷ at merchant ∷ i128 (pos 0) 5 ∷ [];
}

abbrev pub signed_payload : ScVal
signed_payload = ScVal.map (
    entry (symbol "context_rule_ids") (vec (cons (u32 4) nil)) (
      entry (symbol "signers")
        (ScVal.map
          (entry (vec (cons (symbol "Delegated") (cons (at delegate) nil))) (bytes []) end))
        end))

abbrev pub payer_entry : AuthEntry
payer_entry = record {
  credentials = by_address (record {
    address = sc_address payer [];
    expiration_ledger = 110;
    signature = signed_payload;
  });
  function = contract_fn transfer_call;
  sub_invocations = 0;
}

abbrev pub delegate_entry : AuthEntry
delegate_entry = record {
  credentials = by_address (record {
    address = sc_address delegate [];
    expiration_ledger = 110;
    signature = bytes (9 ∷ []);
  });
  function = contract_fn (record {
    contract_address = sc_address payer [];
    function_name = "__check_auth";
    args = bytes digest ∷ [];
  });
  sub_invocations = 0;
}

abbrev pub transaction : Transaction
transaction = record {
  signatures = 0;
  operations =
      invoke_host_function none (invoke_contract transfer_call) (delegate_entry ∷ payer_entry ∷ [])
      ∷ [];
  source = "GCHANNEL";
  fee = "700";
}

-- The encoding of `transaction`.
abbrev pub envelope : String
envelope = "AAAA"

abbrev decode_transaction : String → String → Option Transaction
decode_transaction xdr passphrase = if xdr === envelope then some transaction else none

unfoldable pub sdk : Sdk
unfolding to_native to_natives to_members
sdk = record {
  address_text = arm;
  address_of_val = text_of;
  native = λ v. some (to_native v);
  encode_contract = contract_at;
  parse_event = λ raw. none;
  parse_transaction = decode_transaction;
  authorize_entry = λ e expiration passphrase. handed (7 ∷ []);
  hash = λ b. digest;
  public_passphrase = "Public";
  testnet_passphrase = "Test";
  rule_ids_raw = λ ids. ids;
}

abbrev pub payment : Transfer
payment = record { token = token; sender = payer; recipient = merchant; amount = pos 5 }

abbrev pub requirements : PaymentRequirements
requirements = record {
  scheme = "exact";
  network = testnet;
  amount = "5";
  pay_to = merchant;
  max_timeout_seconds = pos 60;
  asset = token;
  extra = record { are_fees_sponsored = true; challenge_id = some "c1" };
}
