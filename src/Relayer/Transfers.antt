-- ===== src/Relayer/Transfers.antt =====
-- packages/relayer-plugin-x402-facilitator/src/stellar/utils.ts: `parseTransferEventsFromSimulation`
-- and `validateSimulationEvents`, for a payment without a policy manifest.
pub mod Single
use agent_allowance.Common.{
  ℕ, ℤ, String, Bool, true, false, not, Option, none, some, List, [], ◌∷◌, ◌===◌, select, Flow,
  next, stop, stop_if, if◌then◌else◌, ◌>>=◌, ◌>>◌,
}
use agent_allowance.Xdr.{
  ScVal, symbol, address, i128, Native, bigint, number, is_bigint, DiagnosticEvent, Sdk,
}
use agent_allowance.Policy.Events.{RawEvent, encoded, decoded}
use agent_allowance.Relayer.Reasons.{RelayReason, event_missing_contract_id, event_not_transfer}

-- A transfer; its amount is the value that the source casts to a bigint.
pub record TransferEvent : Type 0 where
  pub contract_id : String
  pub sender : String
  pub recipient : String
  pub amount : Native

-- What one event is taken for. An event whose reading throws is skipped.
pub data Reading : Type 0 where
  skipped missing_contract_id non_transfer : Reading
  transferred : TransferEvent → Reading

pub record ParsedTransfers : Type 0 where
  pub transfers : List TransferEvent
  pub non_transfer_detected : Bool
  pub missing_contract_id_detected : Bool

-- An event that throws at a value it cannot convert.
abbrev or_skip : {A : Type 0} → Option A → (A → Reading) → Reading
or_skip none f = skipped
or_skip (some a) f = f a

-- A native value as an amount: a bigint, or a number through `BigInt`.
abbrev amount_of : Native → (Native → Reading) → Reading
amount_of (bigint z) f = f (bigint z)
amount_of (number z) f = f (bigint z)
amount_of other f = non_transfer

abbrev pub add_reading : Reading → ParsedTransfers → ParsedTransfers
add_reading skipped parsed = parsed
add_reading missing_contract_id parsed = record parsed { missing_contract_id_detected = true }
add_reading non_transfer parsed = record parsed { non_transfer_detected = true }
add_reading (transferred e) parsed = record parsed { transfers = e ∷ parsed.transfers }

-- `tokenTransferEvents[0]`, where there is exactly one.
abbrev pub the_single : List TransferEvent → Flow (Option RelayReason) TransferEvent
the_single (e ∷ []) = next e
the_single other = stop none

abbrev pub no_more : List TransferEvent → Flow (Option RelayReason) (Unit {0})
no_more [] = next tt
no_more (e ∷ es) = stop none

module _ (sdk : Sdk) where
  abbrev read_amount : ScVal → (Native → Reading) → Reading
  read_amount (i128 hi lo) f = or_skip (sdk.native (i128 hi lo)) f
  read_amount other f = or_skip (sdk.native other) (λ v. amount_of v f)

  abbrev read_address : ScVal → (String → Reading) → Reading
  read_address (address a) f = or_skip (sdk.address_of_val (address a)) f
  read_address other f = non_transfer

  abbrev read_topics : String → List ScVal → ScVal → Reading
  read_topics id (symbol name ∷ sender_val ∷ recipient_val ∷ rest) payload =
      if name === "transfer"
      then read_address sender_val (λ sender. read_address recipient_val (λ recipient.
        read_amount payload (λ amount.
          transferred (record {
            contract_id = id;
            sender = sender;
            recipient = recipient;
            amount = amount;
          }))))
      else non_transfer
  read_topics id other payload = non_transfer

  abbrev read_contract : DiagnosticEvent → Option (List ℕ) → Reading
  read_contract event none = missing_contract_id
  read_contract event (some id) = read_topics (sdk.encode_contract id) event.topics event.payload

  abbrev read_decoded : DiagnosticEvent → Reading
  read_decoded event =
      if event.type_name === "contract" then read_contract event event.contract_id else skipped

  unfoldable pub read_event : RawEvent → Reading
  read_event (encoded raw) = or_skip (sdk.parse_event raw) read_decoded
  read_event (decoded event) = read_decoded event

  -- `parseTransferEventsFromSimulation`
  unfoldable pub parse_transfer_events : List RawEvent → ParsedTransfers
  parse_transfer_events [] = record {
    transfers = [];
    non_transfer_detected = false;
    missing_contract_id_detected = false;
  }
  parse_transfer_events (raw ∷ raws) = add_reading (read_event raw) (parse_transfer_events raws)

  -- `validateSimulationEvents`; a refusal carries its `errorCode`, which may be missing.
  unfoldable pub validate_simulation_events :
      List RawEvent → String → String → String → ℤ → Flow (Option RelayReason) (List TransferEvent)
  validate_simulation_events events contract sender recipient amount = do
    let parsed = parse_transfer_events events
    stop_if parsed.missing_contract_id_detected (some event_missing_contract_id)
    stop_if parsed.non_transfer_detected (some event_not_transfer)
    event ← the_single (select (λ e. e.contract_id === contract) parsed.transfers)
    stop_if (not (event.sender === sender)) none
    stop_if (not (event.recipient === recipient)) none
    stop_if (not (is_bigint event.amount amount)) none
    no_more (select (λ e. not (e.contract_id === contract)) parsed.transfers)
    next parsed.transfers
