-- ===== src/DemoApi/Unlock.antt =====
-- What unlocks the protected resource, and what a retry of a settled payment is answered.
use agent_allowance.Common.{String, ◌≡◌, ◌≢◌, true, arith, eq_iff, ===_refl, Flow, next}
use agent_allowance.Shared.{SettlementReceipt}
use agent_allowance.Payer.Receipt.{SettleAnswer, Exchange, settle_receipt, receipt_matches}
use agent_allowance.DemoApi.Table.{Store, settled, claim, settle}
use agent_allowance.DemoApi.Table.Laws.{Held}
use agent_allowance.DemoApi.{Flight, replied, unlocked, on_settled, on_receipt, payment_status}

settle-claim :
    (db : Store) (id payload_hash : String) (receipt : SettlementReceipt)
    → Held (db id) payload_hash
    → payload_hash ≢ ""
    → let db' = settle db id payload_hash receipt in
      (claim db' id payload_hash ≡ (settled receipt, db'))
      × (payment_status db' id ≡ unlocked receipt)
unfolding settle claim payment_status
settle-claim db id payload_hash receipt held ne = (
  ground (arith, ===_refl id, eq_iff payload_hash "", ===_refl payload_hash),
  ground (arith, ===_refl id, eq_iff payload_hash "", ===_refl payload_hash),
)

on_receipt-unlocked :
    (db : Store) (f : Flight) (payer : String) (o : Flow ⊥ SettlementReceipt)
    (r : SettlementReceipt) (db' : Store)
    → on_receipt db f payer o ≡ (replied (unlocked r), db')
    → (db' ≡ settle db f.id f.payload_hash r) × (receipt_matches r f.requirements payer ≡ true)
on_receipt-unlocked db f payer (next receipt) r db' h = ground arith
on_receipt-unlocked db f payer (Flow.stop e) r db' h = absurd e
on_receipt-unlocked db f payer (Flow.thrown m) r db' h = cc

-- When the settlement of a request that holds its claim unlocks the resource, the receipt passes
-- the receipt test for the challenge's requirements and the verified payer; from then on a claim
-- with the same hash is answered with that receipt, the table unchanged, and the payment's status is
-- that receipt.
pub on_settled-unlocked :
    (db : Store) (f : Flight) (payer : String) (answer : Exchange SettleAnswer)
    (r : SettlementReceipt) (db' : Store)
    → Held (db f.id) f.payload_hash
    → f.payload_hash ≢ ""
    → on_settled db f payer answer ≡ (replied (unlocked r), db')
    → (receipt_matches r f.requirements payer ≡ true)
      × (claim db' f.id f.payload_hash ≡ (settled r, db'))
      × (payment_status db' f.id ≡ unlocked r)
unfolding on_settled
on_settled-unlocked db f payer answer r db' held ne h =
    let (same, fits) =
      on_receipt-unlocked db f payer (settle_receipt answer f.requirements) r db' h in
    let (retry, status) = settle-claim db f.id f.payload_hash r held ne in
    (fits, rw same retry, rw same status)
