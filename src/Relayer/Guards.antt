-- ===== src/Relayer/Guards.antt =====
-- packages/relayer-plugin-x402-facilitator/src/stellar/utils.ts: the guards of a request's parameters.
pub mod Shape
use agent_allowance.Common.{
  ℕ, ℤ, pos, negsuc, String, Bool, true, false, not, ◌||◌, ◌&&◌, Option, none, some, List, [], ◌∷◌,
  ◌===◌, if◌then◌else◌,
}
use agent_allowance.Shared.{PaymentRequirements, Extra}
use agent_allowance.Relayer.Request.{VerifyRequest}

-- A JSON value, or undefined. Its numbers are integers, the keys of an object are distinct, and no code
-- here reads what an array holds.
mutual
  pub data Json : Type 0 where
    json_undefined json_null json_array : Json
    json_bool : Bool → Json
    json_number : ℤ → Json
    json_text : String → Json
    json_object : JsonFields → Json

  pub data JsonFields : Type 0 where
    no_fields : JsonFields
    json_field : String → Json → JsonFields → JsonFields

abbrev pub field_of : JsonFields → String → Json
field_of no_fields key = json_undefined
field_of (json_field name value members) key =
    let rest = field_of members key in if name === key then value else rest

-- `value[key]` of an object or an array
abbrev pub field : Json → String → Json
field (json_object members) key = field_of members key
field other key = json_undefined

abbrev has_key : JsonFields → String → Bool
has_key no_fields key = false
has_key (json_field name value members) key = name === key || has_key members key

-- `key in value`
abbrev has : Json → String → Bool
has (json_object members) key = has_key members key
has other key = false

-- `typeof value === "object" && value !== null`, and the other types.
abbrev pub is_object : Json → Bool
is_object (json_object members) = true
is_object json_array = true
is_object other = false

abbrev pub is_string : Json → Bool
is_string (json_text s) = true
is_string other = false

abbrev pub is_number : Json → Bool
is_number (json_number z) = true
is_number other = false

abbrev pub is_boolean : Json → Bool
is_boolean (json_bool b) = true
is_boolean other = false

unfoldable pub is_valid_payment_requirements_object : Json → Bool
is_valid_payment_requirements_object value =
    is_string (field value "scheme")
    && is_string (field value "network")
    && is_string (field value "amount")
    && is_string (field value "payTo")
    && is_string (field value "asset")
    && is_number (field value "maxTimeoutSeconds")
    && is_object (field value "extra")
    && is_boolean (field (field value "extra") "areFeesSponsored")

-- `validateBaseRequestParams`, which `validateVerifyRequest` and `validateSettleRequest` call.
unfoldable pub validate_base_request_params : Json → Bool
validate_base_request_params params =
    is_object params
    && has params "paymentPayload"
    && has params "paymentRequirements"
    && is_object (field params "paymentPayload")
    && is_object (field params "paymentRequirements")
    && is_valid_payment_requirements_object (field params "paymentRequirements")
    && is_number (field (field params "paymentPayload") "x402Version")
    && is_object (field (field params "paymentPayload") "accepted")
    && is_object (field (field params "paymentPayload") "payload")
    && is_valid_payment_requirements_object (field (field params "paymentPayload") "accepted")

-- What the typed code reads of a value that has passed: a transaction that is no text is read as the
-- empty text, and a version below zero as zero.
abbrev pub text_or : Json → String → String
text_or (json_text s) other = s
text_or value other = other

abbrev pub number_or : Json → ℤ → ℤ
number_or (json_number z) other = z
number_or value other = other

abbrev pub flag_or : Json → Bool → Bool
flag_or (json_bool b) other = b
flag_or value other = other

abbrev pub optional_text : Json → Option String
optional_text (json_text s) = some s
optional_text other = none

abbrev pub version_of : ℤ → ℕ
version_of (pos n) = n
version_of (negsuc n) = 0

unfoldable pub read_requirements : Json → PaymentRequirements
read_requirements value = record {
  scheme = text_or (field value "scheme") "";
  network = text_or (field value "network") "";
  amount = text_or (field value "amount") "";
  pay_to = text_or (field value "payTo") "";
  max_timeout_seconds = number_or (field value "maxTimeoutSeconds") (pos 0);
  asset = text_or (field value "asset") "";
  extra = record {
    are_fees_sponsored = flag_or (field (field value "extra") "areFeesSponsored") false;
    challenge_id = optional_text (field (field value "extra") "challengeId");
  };
}

unfoldable pub read_request : Json → VerifyRequest
read_request params = record {
  x402_version =
      version_of (number_or (field (field params "paymentPayload") "x402Version") (pos 0));
  accepted = some (read_requirements (field (field params "paymentPayload") "accepted"));
  transaction = text_or (field (field (field params "paymentPayload") "payload") "transaction") "";
  requirements = read_requirements (field params "paymentRequirements");
}
