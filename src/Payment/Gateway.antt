-- ===== src/Payment/Gateway.antt =====
-- What the payment services take from outside: a provider's adapter (the port of
-- app/providers/base.py), the credential cipher, the answer of the rate limiter, and the hash, token and
-- text functions of the libraries.
use Prim.Native.Char.{Char}
use chamacore.Prelude.{ℕ, ◌/◌, ◌^◌, Bool, true, false, String, Option, none, some}
use chamacore.Data.{
  PaymentProviderCode, PaymentEnvironment, PaymentConnectionStatus, ProviderTransactionStatus,
  PaymentConnection, ClientReference,
}
use chamacore.Session.{Result}

pub record ConnectionContext : Type 0 where
  pub connection_id : ℕ
  pub chama_id : ℕ
  pub provider_code : PaymentProviderCode
  pub environment : PaymentEnvironment
  pub status : PaymentConnectionStatus
  pub credential_version : ℕ

-- The query parameters behind the base URL, the provider and the environment.
pub record CallbackUrl : Type 0 where
  pub provider_code : PaymentProviderCode
  pub environment : PaymentEnvironment
  pub connection_id : ℕ
  pub token : String

-- `charge_reference` is `CHAMACORE-` and the digits of the number.
pub record PaymentAttemptRequest : Type 0 where
  pub amount : ℕ
  pub currency : String
  pub customer_phone : String
  pub client_reference : ClientReference
  pub charge_reference : ℕ
  pub callback_url : CallbackUrl

pub record PaymentAttemptResult : Type 0 where
  pub accepted : Bool
  pub provider_request_id : Option String
  pub provider_transaction_id : Option String
  pub normalized_status : ProviderTransactionStatus
  pub retryable : Bool
  pub error_code : Option String
  pub error_message_safe : Option String

pub record StatusQueryResult : Type 0 where
  pub found : Bool
  pub provider_request_id : Option String
  pub provider_transaction_id : Option String
  pub normalized_status : ProviderTransactionStatus
  pub raw_status : Option String
  pub error_code : Option String
  pub error_message_safe : Option String

-- `payer_phone` is not read by the webhook service.
pub record ParsedCallback : Type 0 where
  pub provider_event_id : Option String
  pub provider_request_id : Option String
  pub provider_transaction_id : Option String
  pub amount : Option ℕ
  pub currency : Option String
  pub normalized_status : Option ProviderTransactionStatus
  pub raw_status : Option String
  pub error_code : Option String
  pub error_message_safe : Option String

-- How a call of the adapter ends: with a `ProviderTimeoutError`, another `ProviderIntegrationError`
-- (each with its code and message), or an answer.
pub data ChargeReply : Type 0 where
  timed_out failed : String → String → ChargeReply
  answered : PaymentAttemptResult → ChargeReply

pub data QueryReply : Type 0 where
  unavailable : QueryReply
  answered : StatusQueryResult → QueryReply

-- `canonical_payload_hash` hashes these fields as JSON.
pub record CanonicalPayload : Type 0 where
  pub membership_id : ℕ
  pub amount : ℕ
  pub currency : String
  pub purpose : String
  pub contribution_id : Option ℕ
  pub phone_number : String

-- `admitted` is what the rate limiter answers for a connection, `unseal` and `shape` open its
-- credentials and check them, `hash` digests a canonical payload, `token` derives a callback token.
pub record Gateway : Type 0 where
  pub admitted : ℕ → Bool
  pub unseal : PaymentConnection → ℕ → Option String
  pub shape : PaymentConnection → String → Result String
  pub create_payment_attempt : String → PaymentAttemptRequest → ConnectionContext → ChargeReply
  pub query_payment_status : String → String → ClientReference → ConnectionContext → QueryReply
  pub token : ℕ → PaymentProviderCode → PaymentEnvironment → String
  pub hash : CanonicalPayload → String
  pub upper : String → String
  pub is_decimal : Char → Bool

-- `ParsedCallback.is_parseable`
abbrev pub is_parseable : ParsedCallback → Bool
is_parseable parsed = elim parsed.provider_event_id [
  | none ↦ false
  | some _ ↦ elim parsed.normalized_status [ none ↦ false | some _ ↦ true ]
]

-- `build_default_registry` registers Daraja for both environments, and not Jenga; its adapter has the
-- capability to initiate payments.
abbrev pub supports : PaymentProviderCode → PaymentEnvironment → Bool
supports PaymentProviderCode.jenga environment = false
supports PaymentProviderCode.daraja environment = true

-- `phone_number or ""`
abbrev or_empty : Option String → String
or_empty none = ""
or_empty (some t) = t

unfoldable pub canonical_payload_hash :
    Gateway → ℕ → ℕ → String → String → Option ℕ → Option String → String
canonical_payload_hash g membership_id amount currency purpose contribution_id phone_number =
    g.hash (record {
      membership_id = membership_id;
      amount = amount;
      currency = g.upper currency;
      purpose = purpose;
      contribution_id = contribution_id;
      phone_number = or_empty phone_number;
    })

-- The first 16 of the 32 hexadecimal digits of a uuid.
abbrev pub reference_prefix : ℕ → ℕ
reference_prefix id = id / 2 ^ 64

unfoldable pub callback_url : Gateway → PaymentConnection → CallbackUrl
callback_url g connection = record {
  provider_code = connection.provider_code;
  environment = connection.environment;
  connection_id = connection.id;
  token = g.token connection.id connection.provider_code connection.environment;
}
