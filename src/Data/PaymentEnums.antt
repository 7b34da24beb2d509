-- ===== src/Data/PaymentEnums.antt =====
-- The enumerations of app/models/enums.py for registration fees and payments, and `==` on them through
-- the position of a value.
use chamacore.Prelude.{ℕ, ◌≡◌, ◌↔◌, Bool, true, arith, ◌==◌}

pub data RegistrationFeeStatus : Type 0 where
  owed waived paid : RegistrationFeeStatus

pub data RegistrationFeePaymentStatus : Type 0 where
  confirmed reversed : RegistrationFeePaymentStatus

pub data PaymentProviderCode : Type 0 where
  jenga daraja : PaymentProviderCode

pub data PaymentEnvironment : Type 0 where
  sandbox production : PaymentEnvironment

pub data PaymentConnectionStatus : Type 0 where
  pending_validation active disabled invalid : PaymentConnectionStatus

pub data PaymentIntentStatus : Type 0 where
  pending processing succeeded failed : PaymentIntentStatus

pub data PaymentAttemptStatus : Type 0 where
  initiated succeeded failed timeout unknown : PaymentAttemptStatus

pub data ProviderTransactionStatus : Type 0 where
  pending succeeded failed unknown : ProviderTransactionStatus

pub data PaymentEventStatus : Type 0 where
  received processed deduplicated rejected unprocessable disagreement : PaymentEventStatus

pub data PaymentTransferSource : Type 0 where
  client provider_callback status_query system : PaymentTransferSource

abbrev fee_status_index : RegistrationFeeStatus → ℕ
fee_status_index RegistrationFeeStatus.owed = 0
fee_status_index RegistrationFeeStatus.waived = 1
fee_status_index RegistrationFeeStatus.paid = 2

unfoldable pub same_fee_status : RegistrationFeeStatus → RegistrationFeeStatus → Bool
same_fee_status a b = fee_status_index a == fee_status_index b

abbrev provider_index : PaymentProviderCode → ℕ
provider_index PaymentProviderCode.jenga = 0
provider_index PaymentProviderCode.daraja = 1

unfoldable pub same_provider : PaymentProviderCode → PaymentProviderCode → Bool
same_provider a b = provider_index a == provider_index b

abbrev environment_index : PaymentEnvironment → ℕ
environment_index PaymentEnvironment.sandbox = 0
environment_index PaymentEnvironment.production = 1

unfoldable pub same_environment : PaymentEnvironment → PaymentEnvironment → Bool
same_environment a b = environment_index a == environment_index b

abbrev intent_status_index : PaymentIntentStatus → ℕ
intent_status_index PaymentIntentStatus.pending = 0
intent_status_index PaymentIntentStatus.processing = 1
intent_status_index PaymentIntentStatus.succeeded = 2
intent_status_index PaymentIntentStatus.failed = 3

unfoldable pub same_intent_status : PaymentIntentStatus → PaymentIntentStatus → Bool
same_intent_status a b = intent_status_index a == intent_status_index b

pub same_intent_status_iff : (a b : PaymentIntentStatus) → (same_intent_status a b ≡ true) ↔ (a ≡ b)
unfolding same_intent_status
same_intent_status_iff a b = ground arith

abbrev attempt_status_index : PaymentAttemptStatus → ℕ
attempt_status_index PaymentAttemptStatus.initiated = 0
attempt_status_index PaymentAttemptStatus.succeeded = 1
attempt_status_index PaymentAttemptStatus.failed = 2
attempt_status_index PaymentAttemptStatus.timeout = 3
attempt_status_index PaymentAttemptStatus.unknown = 4

unfoldable pub same_attempt_status : PaymentAttemptStatus → PaymentAttemptStatus → Bool
same_attempt_status a b = attempt_status_index a == attempt_status_index b

abbrev event_status_index : PaymentEventStatus → ℕ
event_status_index PaymentEventStatus.received = 0
event_status_index PaymentEventStatus.processed = 1
event_status_index PaymentEventStatus.deduplicated = 2
event_status_index PaymentEventStatus.rejected = 3
event_status_index PaymentEventStatus.unprocessable = 4
event_status_index PaymentEventStatus.disagreement = 5

unfoldable pub same_event_status : PaymentEventStatus → PaymentEventStatus → Bool
same_event_status a b = event_status_index a == event_status_index b

pub same_event_status_iff : (a b : PaymentEventStatus) → (same_event_status a b ≡ true) ↔ (a ≡ b)
unfolding same_event_status
same_event_status_iff a b = ground arith
