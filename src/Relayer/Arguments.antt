-- ===== src/Relayer/Arguments.antt =====
-- packages/relayer-plugin-x402-facilitator/src/stellar/utils.ts: the arguments of a call as the relayer's
-- API takes them.
use agent_allowance.Common.{ℕ, ℤ, String, Bool, List, [], ◌∷◌, Flow, next, ◌>>=◌}
use agent_allowance.Xdr.{Native, ScVal, ScVals, ScEntries, Sdk, sdk_call}

-- The JSON values of the relayer's API. A number stands for its decimal text where the API takes a
-- text, and bytes for their hexadecimal text.
mutual
  pub data JsonArg : Type 0 where
    json_address json_string json_symbol : String → JsonArg
    json_i128 : ℤ → ℕ → JsonArg
    json_u128 : ℕ → ℕ → JsonArg
    json_i64 json_i32 : ℤ → JsonArg
    json_u64 json_u32 : ℕ → JsonArg
    json_bool : Bool → JsonArg
    json_bytes : List ℕ → JsonArg
    json_vec : JsonArgs → JsonArg
    json_map : JsonEntries → JsonArg
    json_native : Native → JsonArg

  pub data JsonArgs : Type 0 where
    no_args : JsonArgs
    more_args : JsonArg → JsonArgs → JsonArgs

  pub data JsonEntries : Type 0 where
    no_entries : JsonEntries
    more_entries : JsonArg → JsonArg → JsonEntries → JsonEntries

module _ (sdk : Sdk) where
  -- `scValToJsonArg`, which throws where the SDK does
  unfoldable mutual
    pub sc_val_to_json_arg : {R : Type 0} → ScVal → Flow R JsonArg
    sc_val_to_json_arg (ScVal.address a) = do
      address ← sdk_call (sdk.address_of_val (ScVal.address a))
      next (json_address address)
    sc_val_to_json_arg (ScVal.i128 hi lo) = next (json_i128 hi lo)
    sc_val_to_json_arg (ScVal.u128 hi lo) = next (json_u128 hi lo)
    sc_val_to_json_arg (ScVal.i64 z) = next (json_i64 z)
    sc_val_to_json_arg (ScVal.u64 n) = next (json_u64 n)
    sc_val_to_json_arg (ScVal.i32 z) = next (json_i32 z)
    sc_val_to_json_arg (ScVal.u32 n) = next (json_u32 n)
    sc_val_to_json_arg (ScVal.bool b) = next (json_bool b)
    sc_val_to_json_arg (ScVal.string s) = next (json_string s)
    sc_val_to_json_arg (ScVal.symbol s) = next (json_symbol s)
    sc_val_to_json_arg (ScVal.bytes bs) = next (json_bytes bs)
    sc_val_to_json_arg (ScVal.vec vs) = do args ← json_vals vs; next (json_vec args)
    sc_val_to_json_arg (ScVal.map es) = do args ← json_members es; next (json_map args)
    sc_val_to_json_arg ScVal.void = do
      native ← sdk_call (sdk.native ScVal.void)
      next (json_native native)
    sc_val_to_json_arg (ScVal.other_value type) = do
      native ← sdk_call (sdk.native (ScVal.other_value type))
      next (json_native native)

    pub json_vals : {R : Type 0} → ScVals → Flow R JsonArgs
    json_vals ScVals.nil = next no_args
    json_vals (ScVals.cons v vs) = do
      arg ← sc_val_to_json_arg v
      args ← json_vals vs
      next (more_args arg args)

    pub json_members : {R : Type 0} → ScEntries → Flow R JsonEntries
    json_members ScEntries.end = next no_entries
    json_members (ScEntries.entry k v es) = do
      key ← sc_val_to_json_arg k
      val ← sc_val_to_json_arg v
      args ← json_members es
      next (more_entries key val args)

  abbrev pub json_args : {R : Type 0} → List ScVal → Flow R (List JsonArg)
  json_args [] = next []
  json_args (v ∷ vs) = do arg ← sc_val_to_json_arg v; args ← json_args vs; next (arg ∷ args)
