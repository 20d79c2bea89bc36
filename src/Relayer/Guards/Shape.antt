-- ===== src/Relayer/Guards/Shape.antt =====
-- A value that passes the guards has the type that they claim.
use agent_allowance.Common.{ℤ, pos, String, Bool, true, false, ◌≡◌, refl, some, arith}
use agent_allowance.Shared.{PaymentRequirements}
use agent_allowance.Relayer.Guards.{
  Json, json_undefined, json_null, json_array, json_bool, json_number, json_text, json_object,
  field, is_string, is_number, is_boolean, is_valid_payment_requirements_object,
  validate_base_request_params, text_or, number_or, flag_or, read_requirements, read_request,
}

-- The value is an object with the fields of these requirements, each of its type.
pub record IsRequirements (value : Json) (r : PaymentRequirements) : Type 0 where
  pub scheme : field value "scheme" ≡ json_text r.scheme
  pub network : field value "network" ≡ json_text r.network
  pub amount : field value "amount" ≡ json_text r.amount
  pub pay_to : field value "payTo" ≡ json_text r.pay_to
  pub asset : field value "asset" ≡ json_text r.asset
  pub timeout : field value "maxTimeoutSeconds" ≡ json_number r.max_timeout_seconds
  pub sponsored :
      field (field value "extra") "areFeesSponsored" ≡ json_bool r.extra.are_fees_sponsored

text_or-eq : (j : Json) (d : String) → is_string j ≡ true → j ≡ json_text (text_or j d)
text_or-eq (json_text s) d h = refl
text_or-eq json_undefined d h = cc
text_or-eq json_null d h = cc
text_or-eq json_array d h = cc
text_or-eq (json_bool b) d h = cc
text_or-eq (json_number z) d h = cc
text_or-eq (json_object members) d h = cc

number_or-eq : (j : Json) (d : ℤ) → is_number j ≡ true → j ≡ json_number (number_or j d)
number_or-eq (json_number z) d h = refl
number_or-eq json_undefined d h = cc
number_or-eq json_null d h = cc
number_or-eq json_array d h = cc
number_or-eq (json_bool b) d h = cc
number_or-eq (json_text s) d h = cc
number_or-eq (json_object members) d h = cc

flag_or-eq : (j : Json) (d : Bool) → is_boolean j ≡ true → j ≡ json_bool (flag_or j d)
flag_or-eq (json_bool b) d h = refl
flag_or-eq json_undefined d h = cc
flag_or-eq json_null d h = cc
flag_or-eq json_array d h = cc
flag_or-eq (json_number z) d h = cc
flag_or-eq (json_text s) d h = cc
flag_or-eq (json_object members) d h = cc

read_requirements-IsRequirements :
    (value : Json)
    → is_valid_payment_requirements_object value ≡ true
    → IsRequirements value (read_requirements value)
unfolding is_valid_payment_requirements_object read_requirements
read_requirements-IsRequirements value h = record {
  scheme = text_or-eq (field value "scheme") "" (ground arith);
  network = text_or-eq (field value "network") "" (ground arith);
  amount = text_or-eq (field value "amount") "" (ground arith);
  pay_to = text_or-eq (field value "payTo") "" (ground arith);
  asset = text_or-eq (field value "asset") "" (ground arith);
  timeout = number_or-eq (field value "maxTimeoutSeconds") (pos 0) (ground arith);
  sponsored = flag_or-eq (field (field value "extra") "areFeesSponsored") false (ground arith);
}

-- Parameters that pass the guard hold the requirements and the accepted requirements that are read of
-- them, each field of its type, and their payment payload has a version that is a number.
pub validate_base_request_params_sound :
    (params : Json)
    → validate_base_request_params params ≡ true
    → IsRequirements (field params "paymentRequirements") (read_request params).requirements
      × ((accepted : PaymentRequirements) × ((read_request params).accepted ≡ some accepted)
          × IsRequirements (field (field params "paymentPayload") "accepted") accepted)
      × ((version : ℤ) × (field (field params "paymentPayload") "x402Version"
            ≡ json_number version))
unfolding validate_base_request_params read_request
validate_base_request_params_sound params h = (
  read_requirements-IsRequirements (field params "paymentRequirements") (grind arith),
  (
    read_requirements (field (field params "paymentPayload") "accepted"),
    refl,
    read_requirements-IsRequirements (field (field params "paymentPayload") "accepted")
        (grind arith),
  ),
  (
    number_or (field (field params "paymentPayload") "x402Version") (pos 0),
    number_or-eq (field (field params "paymentPayload") "x402Version") (pos 0) (grind arith),
  ),
)
