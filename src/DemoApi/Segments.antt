-- ===== src/DemoApi/Segments.antt =====
-- What each segment of the `/premium` handler does to the table and to the request.
use agent_allowance.Common.{
  ℕ, String, ◌≡◌, ◌≢◌, refl, Option, none, some, ltb, Bool-cases, inl, inr, next, Flow, arith,
}
use agent_allowance.Shared.{StellarPaymentPayload, SettlementReceipt}
use agent_allowance.Shared.Challenge.{decode_payment_signature}
use agent_allowance.Payer.Receipt.{
  VerifyAnswer, SettleAnswer, Exchange, body, broken, receipt_matches,
}
use agent_allowance.DemoApi.Table.{Row, Store, acquired, claim, get}
use agent_allowance.DemoApi.Table.Laws.{Claimed, release_others, settle_others, settle-Claimed}
use agent_allowance.DemoApi.{
  Flight, verifying, settling, Progress, replied, waiting, start, start_found, start_decoded,
  after_claim, on_verified, after_verify, verified_payer, on_settled, on_receipt, same_requirements,
}

-- A start is answered with the table unchanged, or takes its claim and waits.
abbrev pub Started : Store → Progress × Store → Type 0
Started db (replied r, db') = db' ≡ db
Started db (waiting f, db') =
    (f.phase ≡ verifying)
    × ((claim db f.id f.payload_hash).0 ≡ acquired)
    × (db' ≡ (claim db f.id f.payload_hash).1)

after_claim-Started :
    (db : Store) (f : Flight)
    → f.phase ≡ verifying
    → Started db (after_claim f (claim db f.id f.payload_hash))
unfolding claim
after_claim-Started db f e = ground arith

start_found-Started :
    (parse : String → Option StellarPaymentPayload) (stable_hash : String → String) (db : Store)
    (header : String) (payload : StellarPaymentPayload) (id : String) (now : ℕ) (row : Option Row)
    → Started db (start_found parse stable_hash db header payload id now row)
start_found-Started parse stable_hash db header payload id now none = refl
start_found-Started parse stable_hash db header payload id now (some row) =
    elim (Bool-cases (ltb row.expires_at now)) [
      | inl late ↦ rw late refl
      | inr early ↦
          rw early (elim (Bool-cases (same_requirements payload.accepted row.requirements)) [
            | inl same ↦ rw same (after_claim-Started db _ refl)
            | inr other ↦ rw other refl
          ])
    ]

pub start-Started :
    (parse : String → Option StellarPaymentPayload) (stable_hash : String → String) (db : Store)
    (header : String) (now : ℕ)
    → Started db (start parse stable_hash db header now)
unfolding start
start-Started parse stable_hash db header now = decoded (decode_payment_signature parse header)
  where
    decoded :
        (o : Option StellarPaymentPayload)
        → Started db (start_decoded parse stable_hash db header now o)
    decoded none = refl
    decoded (some payload) =
        start_found-Started parse stable_hash db header payload _ now (get db _)

-- A request ends having written at most its own row, or goes on to settle with the table unchanged.
abbrev pub Judged : Store → Flight → Progress × Store → Type 0
Judged db f (replied r, db') = (k : String) → k ≢ f.id → db' k ≡ db k
Judged db f (waiting g, db') =
    ((payer : String) × (g ≡ record f { phase = settling payer })) × (db' ≡ db)

pub on_verified-Judged :
    (address_type : String → Option String) (db : Store) (f : Flight)
    (answer : Exchange VerifyAnswer)
    → Judged db f (on_verified address_type db f answer)
unfolding on_verified
on_verified-Judged address_type db f (broken m) = release_others db f.id f.payload_hash
on_verified-Judged address_type db f (body answer) = after (verified_payer address_type answer)
  where
    after : (payer : Option String) → Judged db f (after_verify db f payer)
    after none = release_others db f.id f.payload_hash
    after (some payer) = ((payer, refl), refl)

-- The settlement ends the request, writes at most its own row, and keeps that row claimed.
abbrev pub Ended : Store → Flight → Progress × Store → Type 0
Ended db f (replied r, db') =
    ((k : String) → k ≢ f.id → db' k ≡ db k) × (Claimed (db f.id) → Claimed (db' f.id))
Ended db f (waiting g, db') = ⊥

on_receipt-Ended :
    (db : Store) (f : Flight) (payer : String) (r : Flow ⊥ SettlementReceipt)
    → Ended db f (on_receipt db f payer r)
on_receipt-Ended db f payer (next receipt) =
    elim (Bool-cases (receipt_matches receipt f.requirements payer)) [
      | inl fits ↦ rw fits (
        settle_others db f.id f.payload_hash receipt,
        settle-Claimed db f.id f.payload_hash receipt,
      )
      | inr unfit ↦ rw unfit ((λ k h. refl), λ c. c)
    ]
on_receipt-Ended db f payer (Flow.stop r) = absurd r
on_receipt-Ended db f payer (Flow.thrown m) = ((λ k h. refl), λ c. c)

pub on_settled-Ended :
    (db : Store) (f : Flight) (payer : String) (answer : Exchange SettleAnswer)
    → Ended db f (on_settled db f payer answer)
unfolding on_settled
on_settled-Ended db f payer answer = on_receipt-Ended db f payer _
