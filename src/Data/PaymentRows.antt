-- ===== src/Data/PaymentRows.antt =====
-- The rows of app/models for registration fees, members and payments. Times are seconds of UTC.
use chamacore.Prelude.{ℕ, Bool, String, Option}
use chamacore.Data.PaymentEnums.{
  RegistrationFeeStatus, RegistrationFeePaymentStatus, PaymentProviderCode, PaymentEnvironment,
  PaymentConnectionStatus, PaymentIntentStatus, PaymentAttemptStatus, ProviderTransactionStatus,
  PaymentEventStatus, PaymentTransferSource,
}

pub record RegistrationFee : Type 0 where
  pub id : ℕ
  pub membership_id : ℕ
  pub amount : ℕ
  pub status : RegistrationFeeStatus

pub record RegistrationFeePayment : Type 0 where
  pub id : ℕ
  pub chama_id : ℕ
  pub fee_id : ℕ
  pub membership_id : ℕ
  pub amount : ℕ
  pub status : RegistrationFeePaymentStatus
  pub recorded_by_user_id : ℕ
  pub paid_at : ℕ

-- Only what the prompt of a payment needs.
pub record Member : Type 0 where
  pub id : ℕ
  pub phone_number : String

-- `encrypted_credentials` is opened by a library.
pub record PaymentConnection : Type 0 where
  pub id : ℕ
  pub chama_id : ℕ
  pub provider_code : PaymentProviderCode
  pub environment : PaymentEnvironment
  pub status : PaymentConnectionStatus
  pub encrypted_credentials : String
  pub credential_version : ℕ

pub record PaymentIntent : Type 0 where
  pub id : ℕ
  pub chama_id : ℕ
  pub membership_id : ℕ
  pub contribution_id : Option ℕ
  pub requested_phone : Option String
  pub amount : ℕ
  pub currency : String
  pub purpose : String
  pub status : PaymentIntentStatus
  pub idempotency_key : String
  pub idempotency_payload_hash : String
  pub created_by_user_id : ℕ
  pub last_transition_source : PaymentTransferSource
  pub last_transition_by_user_id : Option ℕ

-- `PAY-{prefix}-{number}`, or `PAY-{prefix}-{number}-{counter}` for a counter that is not 0: the prefix
-- holds the first 16 hexadecimal digits of the intent's id.
pub record ClientReference : Type 0 where
  pub prefix : ℕ
  pub number : ℕ
  pub counter : ℕ

pub record PaymentAttempt : Type 0 where
  pub id : ℕ
  pub payment_intent_id : ℕ
  pub connection_id : ℕ
  pub attempt_number : ℕ
  pub provider_request_id : Option String
  pub provider_transaction_id : Option String
  pub client_reference : ClientReference
  pub retryable : Bool
  pub status : PaymentAttemptStatus
  pub failure_code : Option String
  pub failure_message_safe : Option String
  pub completed_at : Option ℕ
  pub last_transition_source : PaymentTransferSource

pub record ProviderTransaction : Type 0 where
  pub payment_attempt_id : ℕ
  pub connection_id : ℕ
  pub provider_request_id : Option String
  pub provider_transaction_id : Option String
  pub normalized_status : ProviderTransactionStatus
  pub raw_status : Option String
  pub last_queried_at : Option ℕ

-- `raw_payload` is not read by the services.
pub record PaymentEvent : Type 0 where
  pub id : ℕ
  pub connection_id : ℕ
  pub provider_code : PaymentProviderCode
  pub environment : PaymentEnvironment
  pub provider_event_id : Option String
  pub payload_hash : String
  pub status : PaymentEventStatus
  pub received_at : ℕ
  pub processed_at : Option ℕ
