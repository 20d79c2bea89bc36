-- ===== src/Xdr.antt =====
-- What the source reads of the values of @stellar/stellar-sdk. The XDR unions are data with a
-- constructor for each arm that the source tests by `switch().name`, and one for all others; the
-- SDK's own functions are the fields of `Sdk`, an argument of every definition that calls them.
use agent_allowance.Common.{
  ℕ, ℤ, String, Bool, false, Option, List, [], ◌∷◌, eqb_ℤ, ◌===◌, Flow, or_throw,
}

-- The arm of the union and its bytes.
pub data ScAddress : Type 0 where
  sc_address : String → List ℕ → ScAddress

-- A missing vector or map reads as an empty one, as under the source's `?? []`.
mutual
  pub data ScVal : Type 0 where
    void : ScVal
    bool : Bool → ScVal
    u32 u64 : ℕ → ScVal
    i32 i64 : ℤ → ScVal
    u128 : ℕ → ℕ → ScVal
    i128 : ℤ → ℕ → ScVal
    symbol string : String → ScVal
    bytes : List ℕ → ScVal
    address : ScAddress → ScVal
    vec : ScVals → ScVal
    map : ScEntries → ScVal
    other_value : String → ScVal

  pub data ScVals : Type 0 where
    nil : ScVals
    cons : ScVal → ScVals → ScVals

  pub data ScEntries : Type 0 where
    end : ScEntries
    entry : ScVal → ScVal → ScEntries → ScEntries

abbrev pub items : ScVals → List ScVal
items nil = []
items (cons v vs) = v ∷ items vs

abbrev pub entries : ScEntries → List (ScVal × ScVal)
entries end = []
entries (entry k v es) = (k, v) ∷ entries es

-- What `scValToNative` makes of a value. Its numbers are integers.
mutual
  pub data Native : Type 0 where
    nothing : Native
    bigint number : ℤ → Native
    text : String → Native
    array : Natives → Native
    object : Members → Native
    other_native : Native

  pub data Natives : Type 0 where
    nil : Natives
    cons : Native → Natives → Natives

  pub data Members : Type 0 where
    end : Members
    member : String → Native → Members → Members

abbrev pub natives : Natives → List Native
natives Natives.nil = []
natives (Natives.cons v vs) = v ∷ natives vs

-- `v === a` for a bigint `a`, and `v === s` for a string `s`.
abbrev pub is_bigint : Native → ℤ → Bool
is_bigint (bigint z) a = eqb_ℤ z a
is_bigint other a = false

abbrev pub is_string : Native → String → Bool
is_string (text t) s = t === s
is_string other s = false

pub record InvokeArgs : Type 0 where
  pub contract_address : ScAddress
  pub function_name : String
  pub args : List ScVal

pub data AuthorizedFunction : Type 0 where
  contract_fn : InvokeArgs → AuthorizedFunction
  other_fn : String → AuthorizedFunction

pub record AddressCredentials : Type 0 where
  pub address : ScAddress
  pub expiration_ledger : ℕ
  pub signature : ScVal

pub data Credentials : Type 0 where
  by_address : AddressCredentials → Credentials
  other_credentials : String → Credentials

-- An authorization entry; of the sub-invocations the source reads only how many there are.
pub record AuthEntry : Type 0 where
  pub credentials : Credentials
  pub function : AuthorizedFunction
  pub sub_invocations : ℕ

pub data HostFunction : Type 0 where
  invoke_contract : InvokeArgs → HostFunction
  other_function : String → HostFunction

pub data Operation : Type 0 where
  invoke_host_function : Option String → HostFunction → List AuthEntry → Operation
  other_operation : Option String → String → Operation

pub record Transaction : Type 0 where
  pub signatures : ℕ
  pub operations : List Operation
  pub source : String
  pub fee : String

pub record DiagnosticEvent : Type 0 where
  pub type_name : String
  pub in_successful_call : Bool
  pub contract_id : Option (List ℕ)
  pub topics : List ScVal
  pub payload : ScVal

-- What `authorizeEntry` did: it handed its signer a payload, called no signer, or threw.
pub data Preimage : Type 0 where
  handed : List ℕ → Preimage
  not_called : Preimage
  failed : String → Preimage

-- The SDK's functions; `none` where one throws.
pub record Sdk : Type 0 where
  -- `Address.fromScAddress(a).toString()`
  pub address_text : ScAddress → Option String
  -- `Address.fromScVal(v).toString()`
  pub address_of_val : ScVal → Option String
  -- `scValToNative`
  pub native : ScVal → Option Native
  -- `StrKey.encodeContract`
  pub encode_contract : List ℕ → String
  -- `xdr.DiagnosticEvent.fromXDR(raw, "base64")`
  pub parse_event : String → Option DiagnosticEvent
  -- `new Transaction(xdr, passphrase)`
  pub parse_transaction : String → String → Option Transaction
  -- the payload that `authorizeEntry(entry, signer, expiration, passphrase)` hands its signer
  pub authorize_entry : AuthEntry → ℕ → String → Preimage
  -- `hash`, SHA-256
  pub hash : List ℕ → List ℕ
  -- `Networks.PUBLIC` and `Networks.TESTNET`
  pub public_passphrase : String
  pub testnet_passphrase : String
  -- `nativeToScVal(ids, { type: "u32" }).toXDR("raw")`
  pub rule_ids_raw : List ℕ → List ℕ

-- A call of the SDK, which throws where it has no value.
abbrev pub sdk_call : {R A : Type 0} → Option A → Flow R A
sdk_call o = or_throw o "stellar-sdk"
