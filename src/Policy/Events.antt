-- ===== src/Policy/Events.antt =====
-- packages/facilitator-policy/src/events.ts: the events of the simulated payment.
pub mod Parsed
use agent_allowance.Common.{
  ℕ, ◌+◌, ◌^◌, ℤ, pos_part, neg_part, ◌-◌, String, Bool, true, false, not, ◌&&◌, Option, none, some,
  List, [], ◌∷◌, ◌===◌, ◌==◌, is_text, is_some, leb, lookup, if◌then◌else◌, Flow, next, thrown,
  stop_if, need, ◌>>=◌, ◌>>◌,
}
use agent_allowance.Shared.Amounts.{codes}
use agent_allowance.Xdr.{
  ScVal, u32, symbol, address, entries, Native, bigint, number, object, nothing, Members, member,
  DiagnosticEvent, Sdk, sdk_call,
}

pub record ExpectedTransfer : Type 0 where
  pub token : String
  pub sender : String
  pub recipient : String
  pub amount : ℤ
  pub context_rule_id : ℕ

pub data EventReason : Type 0 where
  event_missing_contract_id event_not_transfer transfer_event_missing : EventReason
  transfer_event_duplicate transfer_event_mismatch policy_event_unapproved : EventReason
  policy_event_malformed policy_event_context_mismatch policy_event_duplicate : EventReason
  manifest_mismatch : EventReason

-- A simulation event as it arrives: base64 text, or decoded already.
pub data RawEvent : Type 0 where
  encoded : String → RawEvent
  decoded : DiagnosticEvent → RawEvent

pub record ParsedEvent : Type 0 where
  pub contract_id : String
  pub event_name : Option String
  pub topics : List ScVal
  pub payload : ScVal

pub record TransferEvent : Type 0 where
  pub token : String
  pub sender : String
  pub recipient : String
  pub amount : ℤ

pub record Approved : Type 0 where
  pub kind : String
  pub contract_id : String
  pub event_name : Option String

abbrev pub first_symbol : List ScVal → Option String
first_symbol (symbol s ∷ rest) = some s
first_symbol other = none

abbrev pub is_u32 : ScVal → ℕ → Bool
is_u32 (u32 n) id = n == id
is_u32 other id = false

-- The texts are lower-cased over the ASCII letters; the hashes that are compared are hexadecimal.
abbrev lower : ℕ → ℕ
lower c = if leb b'A' c && leb c b'Z' then c + 32 else c

same_codes : List ℕ → List ℕ → Bool
same_codes [] [] = true
same_codes (a ∷ as_) (b ∷ bs) = lower a == lower b && same_codes as_ bs
same_codes other others = false

-- `a.toLowerCase() === b.toLowerCase()`
unfoldable pub same_lower_case : String → String → Bool
unfolding same_codes
same_lower_case a b = same_codes (codes a) (codes b)

-- `!observed || observed.toLowerCase() !== expected.toLowerCase()`, negated.
abbrev pub observed_is : Option String → String → Bool
observed_is none expected = false
observed_is (some h) expected = not (h === "") && same_lower_case h expected

-- `mapFields`: the fields of a map whose keys are symbols, each once.
fields_from : List (String × ScVal) → List (ScVal × ScVal) → Option (List (String × ScVal))
fields_from seen [] = some seen
fields_from seen ((symbol k, v) ∷ rest) =
    let more = fields_from ((k, v) ∷ seen) rest in if is_some (lookup k seen) then none else more
fields_from seen ((other, v) ∷ rest) = none

unfoldable pub map_fields : ScVal → Option (List (String × ScVal))
unfolding fields_from
map_fields (ScVal.map es) = fields_from [] (entries es)
map_fields other = none

-- A property of a value in `context[1]`: the latest member of an object; reading one of null or
-- undefined throws, and of any other value yields undefined.
abbrev last_member : Members → String → Native → Native
last_member Members.end k found = found
last_member (member j v ms) k found = last_member ms k (if j === k then v else found)

abbrev pub property : {R : Type 0} → Native → String → Flow R Native
property nothing k = thrown "TypeError"
property (object ms) k = next (last_member ms k nothing)
property other k = next nothing

-- `BigInt` of a native number that is a safe integer, or a bigint.
abbrev pub as_amount : Native → Option ℤ
as_amount (bigint z) = some z
as_amount (number z) =
    if leb (pos_part z) (2 ^ 53 - 1) && leb (neg_part z) (2 ^ 53 - 1) then some z else none
as_amount other = none

module _ (sdk : Sdk) where
  abbrev pub decode : RawEvent → Option DiagnosticEvent
  decode (encoded raw) = sdk.parse_event raw
  decode (decoded event) = some event

  -- One round of the loop of `parseContractEvents`; `none` is `continue`.
  unfoldable pub parse_event : DiagnosticEvent → Flow EventReason (Option ParsedEvent)
  parse_event event =
      if event.type_name === "contract"
      then (do
        stop_if (not event.in_successful_call) event_not_transfer
        id ← need event.contract_id event_missing_contract_id
        next (
            some (record {
              contract_id = sdk.encode_contract id;
              event_name = first_symbol event.topics;
              topics = event.topics;
              payload = event.payload;
            })))
      else next none

  abbrev append_to : Option ParsedEvent → List ParsedEvent → List ParsedEvent
  append_to none es = es
  append_to (some e) es = e ∷ es

  unfoldable pub parse_contract_events : List RawEvent → Flow EventReason (List ParsedEvent)
  parse_contract_events [] = next []
  parse_contract_events (raw ∷ raws) = do
    event ← need (decode raw) event_not_transfer
    parsed ← parse_event event
    rest ← parse_contract_events raws
    next (append_to parsed rest)

  abbrev transfer_topics : List ScVal → Option (ScVal × ScVal)
  transfer_topics (name ∷ address a ∷ address b ∷ rest) = some (address a, address b)
  transfer_topics other = none

  abbrev transfer_amount :
      ParsedEvent → ScVal → ScVal → Option ℤ → Flow EventReason (Option TransferEvent)
  transfer_amount event sender_val recipient_val none = next none
  transfer_amount event sender_val recipient_val (some amount) = do
    sender ← sdk_call (sdk.address_of_val sender_val)
    recipient ← sdk_call (sdk.address_of_val recipient_val)
    next (
        some (record {
          token = event.contract_id;
          sender = sender;
          recipient = recipient;
          amount = amount;
        }))

  abbrev transfer_of :
      ParsedEvent → Option (ScVal × ScVal) → Flow EventReason (Option TransferEvent)
  transfer_of event none = next none
  transfer_of event (some (sender_val, recipient_val)) = do
    value ← sdk_call (sdk.native event.payload)
    transfer_amount event sender_val recipient_val (as_amount value)

  -- `parseTransfer`
  unfoldable pub parse_transfer : ParsedEvent → Flow EventReason (Option TransferEvent)
  parse_transfer event =
      if is_text event.event_name "transfer"
      then transfer_of event (transfer_topics event.topics)
      else next none
