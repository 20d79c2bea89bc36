-- ===== src/Relayer/Profile.antt =====
-- packages/relayer-plugin-x402-facilitator/src/stellar/policy-hashes.ts, and the choice of a policy
-- manifest in src/stellar/verify.ts.
pub mod Chosen
use agent_allowance.Common.{
  ℕ, pos, String, Bool, false, not, ◌||◌, ◌&&◌, Option, none, some, List, [], ◌∷◌, ◌++◌, ◌===◌,
  ◌==◌, map, is_text, truthy, or_else, any, find, lookup, dedup_from, is_some, ◌+◌, length,
  get_elem?, eqb_ℤ, if◌then◌else◌, Flow, next, thrown, or_throw, ◌>>=◌,
}
use agent_allowance.Xdr.{Native, text, bigint, number, nothing}
use agent_allowance.Policy.Manifest.{Adapter, Manifest}
use agent_allowance.Policy.Events.{same_lower_case}
use agent_allowance.Relayer.Reasons.{RelayReason}
use agent_allowance.Relayer.Request.{LedgerEntry, Answer, answered, refused, rejected, Relayer}

-- The distinct contracts whose code is read, and the account where its code is pinned.
abbrev pub pinned_contracts : Manifest → String → List String
pinned_contracts m payer = dedup_from [] (
    map (λ (a : Adapter). a.contract_id) m.adapters
    ++ elim m.recipient_policy [ none ↦ [] | some r ↦ r.contract_id ∷ [] ]
    ++ (if truthy m.smart_account_wasm_hash && not (payer === "") then payer ∷ [] else []))

-- The value of the last pair with this key, as a `Map` built from the pairs holds it.
abbrev last_lookup : String → List (String × String) → Option String
last_lookup k [] = none
last_lookup k ((j, c) ∷ rest) =
    let later = last_lookup k rest in
    if is_some later then later else if j === k then some c else none

-- `entry.key ? contractsByKey.get(entry.key) : entries.length === contracts.length ? ...`
abbrev contract_of : List (String × String) → List String → ℕ → ℕ → Option String → Option String
contract_of keyed contracts count i key =
    if truthy key
    then last_lookup (or_else key "") keyed
    else if count == length contracts
    then get_elem? contracts i
    else none

-- `hash?.toLowerCase() === expected.toLowerCase()`
abbrev pub pays : Option String → String → Bool
pays none h = false
pays (some observed) h = same_lower_case observed h

module _ (relayer : Relayer) where
  keys_of : List String → Flow RelayReason (List (String × String))
  keys_of [] = next []
  keys_of (c ∷ cs) = do
    key ← or_throw (relayer.ledger_key c) "ledger key"
    rest ← keys_of cs
    next ((key, c) ∷ rest)

  -- The hashes so far and one more, the latest in front; an entry that does not decode is skipped.
  abbrev add_hash : Option String → Option String → List (String × String) → List (String × String)
  add_hash (some c) (some x) hashes = elim (relayer.wasm_hash x) [
    | some h ↦ if c === "" || x === "" then hashes else (c, h) ∷ hashes
    | none ↦ hashes
  ]
  add_hash c x hashes = hashes

  collect :
      List (String × String)
      → List String
      → ℕ
      → ℕ
      → List (String × String)
      → List LedgerEntry
      → List (String × String)
  collect keyed contracts count i hashes [] = hashes
  collect keyed contracts count i hashes (e ∷ es) =
      collect keyed contracts count (i + 1)
        (add_hash (contract_of keyed contracts count i e.key) e.entry_xdr hashes) es

  abbrev hashes_in :
      List (String × String)
      → List String
      → Answer (List LedgerEntry)
      → Flow RelayReason (List (String × String))
  hashes_in keyed contracts (answered es) = next (collect keyed contracts (length es) 0 [] es)
  hashes_in keyed contracts refused = next []
  hashes_in keyed contracts rejected = thrown "rpc"

  -- `resolvePolicyWasmHashes`
  unfoldable pub resolve_hashes : Manifest → String → Flow RelayReason (List (String × String))
  unfolding keys_of collect
  resolve_hashes m payer = do
    keyed ← keys_of (pinned_contracts m payer)
    hashes_in keyed (pinned_contracts m payer)
        (relayer.ledger_entries (map (λ (p : String × String). p.0) keyed))

  -- The first profile pinned by code alone whose hash is the payer's, with the hashes.
  unfoldable pub find_profile :
      String → List Manifest → Flow RelayReason (Option (Manifest × List (String × String)))
  find_profile payer [] = next none
  find_profile payer (m ∷ ms) =
      let later = find_profile payer ms in
      if truthy m.smart_account || not (truthy m.smart_account_wasm_hash)
      then later
      else (resolve_hashes m payer >>= λ hashes.
          if pays (lookup payer hashes) (or_else m.smart_account_wasm_hash "")
          then next (some (m, hashes))
          else later)

-- The payer as the key of a profile's hashes; no account is read for a value that is falsy, and for
-- any other value that is no text the ledger key throws.
abbrev payer_key : Native → Flow RelayReason String
payer_key (text s) = next s
payer_key nothing = next ""
payer_key (bigint z) = if eqb_ℤ z (pos 0) then next "" else thrown "ledger key"
payer_key (number z) = if eqb_ℤ z (pos 0) then next "" else thrown "ledger key"
payer_key other = thrown "ledger key"

abbrev pub is_pinned : Manifest → Bool
is_pinned m = not (truthy m.smart_account) && truthy m.smart_account_wasm_hash

abbrev with_hashes :
    Option (Manifest × List (String × String)) → Option (Manifest × Option (List (String × String)))
with_hashes none = none
with_hashes (some (m, hashes)) = some (m, some hashes)

abbrev by_account : Native → Manifest → Bool
by_account (text s) m = is_text m.smart_account s
by_account other m = false

-- `policyManifest` and `observedPolicyWasmHashes`: the profile of this account, or the first one
-- that is pinned by the account's code.
unfoldable pub choose_profile :
    Relayer
    → Native
    → List Manifest
    → Flow RelayReason (Option (Manifest × Option (List (String × String))))
choose_profile relayer sender ms = elim (find (by_account sender) ms) [
  | some m ↦ next (some (m, none))
  | none ↦
      if any is_pinned ms
      then (do
        payer ← payer_key sender
        found ← find_profile relayer payer ms
        next (with_hashes found))
      else next none
]
