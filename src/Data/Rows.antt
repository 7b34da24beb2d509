-- ===== src/Data/Rows.antt =====
-- The rows of app/models that the services read or write, and the database as its tables.
use chamacore.Prelude.{ℕ, Bool, String, Option, List}
use chamacore.Data.Enums.{
  ChamaStatus, MembershipStatus, LoanStatus, LoanRepaymentStatus, PayoutStatus, ContributionStatus,
  ShareStatus, RoleName, LedgerAccountType, SourceType,
}
use chamacore.Data.PaymentRows.{
  RegistrationFee, RegistrationFeePayment, Member, PaymentConnection, PaymentIntent, PaymentAttempt,
  ProviderTransaction, PaymentEvent,
}

-- A naive local `datetime`, as `datetime.now()` gives it.
pub record DateTime : Type 0 where
  pub year : ℕ
  pub month : ℕ
  pub day : ℕ
  pub time : ℕ

pub record User : Type 0 where
  pub id : ℕ
  pub member_id : Option ℕ

pub record Chama : Type 0 where
  pub id : ℕ
  pub status : ChamaStatus

-- `joined_at` in seconds of UTC.
pub record Membership : Type 0 where
  pub id : ℕ
  pub chama_id : ℕ
  pub member_id : ℕ
  pub status : MembershipStatus
  pub joined_at : ℕ
  pub roles : List RoleName

pub record LedgerAccount : Type 0 where
  pub id : ℕ
  pub chama_id : ℕ
  pub code : String
  pub name : String
  pub account_type : LedgerAccountType
  pub description : Option String

-- An entry stands in its transaction, whose `chama_id` and `transaction_id` it repeats.
pub record LedgerEntry : Type 0 where
  pub account_id : ℕ
  pub debit : ℕ
  pub credit : ℕ

-- The descriptions that the services write, with the id or period that they interpolate, and one
-- that a client gives.
pub data Description : Type 0 where
  contribution_confirmation contribution_reversal : String → Description
  loan_disbursement loan_repayment loan_repayment_reversal : ℕ → Description
  payout_completion payout_reversal : ℕ → Description
  registration_fee_payment registration_fee_reversal : ℕ → Description
  given : String → Description

pub record LedgerTransaction : Type 0 where
  pub id : ℕ
  pub chama_id : ℕ
  pub source_type : SourceType
  pub source_id : ℕ
  pub description : Option Description
  pub posted_by_user_id : ℕ
  pub reverses_transaction_id : Option ℕ
  pub entries : List LedgerEntry

-- `interest_rate` in ten-thousandths (`Numeric(6, 4)`).
pub record Loan : Type 0 where
  pub id : ℕ
  pub chama_id : ℕ
  pub membership_id : ℕ
  pub principal : ℕ
  pub interest_rate : ℕ
  pub term_months : ℕ
  pub status : LoanStatus
  pub approval_date : Option DateTime
  pub disbursement_date : Option DateTime
  pub maturity_date : Option DateTime
  pub approved_by_user_id : Option ℕ
  pub disbursed_by_user_id : Option ℕ
  pub recorded_by_user_id : ℕ
  pub note : Option String

pub record LoanRepayment : Type 0 where
  pub id : ℕ
  pub chama_id : ℕ
  pub loan_id : ℕ
  pub amount : ℕ
  pub principal_portion : ℕ
  pub interest_portion : ℕ
  pub status : LoanRepaymentStatus
  pub recorded_by_user_id : ℕ
  pub note : Option String

pub record Payout : Type 0 where
  pub id : ℕ
  pub chama_id : ℕ
  pub membership_id : ℕ
  pub amount : ℕ
  pub status : PayoutStatus
  pub requested_by_user_id : ℕ
  pub approved_by_user_id : Option ℕ
  pub processed_by_user_id : Option ℕ
  pub completed_by_user_id : Option ℕ
  pub failure_reason : Option String
  pub note : Option String
  pub approved_at : Option DateTime
  pub processed_at : Option DateTime
  pub completed_at : Option DateTime

pub record Contribution : Type 0 where
  pub id : ℕ
  pub membership_id : ℕ
  pub amount : ℕ
  pub period : String
  pub status : ContributionStatus
  pub recorded_by_user_id : ℕ
  pub payment_date : Option DateTime
  pub note : Option String
  pub confirmed_at : Option DateTime

-- `units` in ten-thousandths (`Numeric(18, 4)`).
pub record Share : Type 0 where
  pub membership_id : ℕ
  pub contribution_id : ℕ
  pub units : ℕ
  pub status : ShareStatus

-- `action` and `resource_type` as the strings of the source; the payload is left out.
pub record AuditEvent : Type 0 where
  pub chama_id : Option ℕ
  pub actor_user_id : Option ℕ
  pub action : String
  pub resource_type : String
  pub resource_id : Option ℕ
  pub success : Bool

-- The tables, each newest row first.
pub record Db : Type 0 where
  pub chamas : List Chama
  pub memberships : List Membership
  pub accounts : List LedgerAccount
  pub transactions : List LedgerTransaction
  pub loans : List Loan
  pub repayments : List LoanRepayment
  pub payouts : List Payout
  pub contributions : List Contribution
  pub shares : List Share
  pub audit : List AuditEvent
  pub fees : List RegistrationFee
  pub fee_payments : List RegistrationFeePayment
  pub members : List Member
  pub connections : List PaymentConnection
  pub intents : List PaymentIntent
  pub attempts : List PaymentAttempt
  pub provider_transactions : List ProviderTransaction
  pub events : List PaymentEvent

-- What a request takes from outside: the clock (local, and in seconds of UTC), the settings that the
-- services read (the unit price in cents), the uuids that it draws for the row that it creates and
-- for a ledger transaction, and the rows that other sessions commit between this one's lookup and
-- its insert: ledger transactions for a source, intents for a key, events for a provider's event.
pub record Env : Type 0 where
  pub now : DateTime
  pub now_utc : ℕ
  pub share_unit_price : ℕ
  pub system_user_id : ℕ
  pub row_id : ℕ
  pub transaction_id : ℕ
  pub concurrent : List LedgerTransaction
  pub payment_attempt_max_retries : ℕ
  pub concurrent_intents : List PaymentIntent
  pub concurrent_events : List PaymentEvent
