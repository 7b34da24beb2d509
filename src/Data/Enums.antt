-- ===== src/Data/Enums.antt =====
-- app/models/enums.py, and the constants that name ledger sources and accounts.
use chamacore.Prelude.{ℕ, ◌≡◌, ◌↔◌, Bool, true, arith, String, ◌==◌}

pub data ChamaStatus : Type 0 where
  pending active suspended dissolved inactive : ChamaStatus

pub data MembershipStatus : Type 0 where
  active inactive : MembershipStatus

pub data LoanStatus : Type 0 where
  draft submitted approved disbursed partially_repaid repaid rejected cancelled : LoanStatus

pub data LoanRepaymentStatus : Type 0 where
  confirmed reversed : LoanRepaymentStatus

pub data PayoutStatus : Type 0 where
  requested approved processing completed rejected failed reversed : PayoutStatus

pub data ContributionStatus : Type 0 where
  pending confirmed reversed : ContributionStatus

pub data ShareStatus : Type 0 where
  active reversed : ShareStatus

pub data RoleName : Type 0 where
  chairperson treasurer secretary member platform_admin : RoleName

pub data LedgerAccountType : Type 0 where
  asset liability equity revenue expense : LedgerAccountType

-- The `*_SOURCE_TYPE` strings of app/services/ledger.py.
pub data SourceType : Type 0 where
  ledger_reversal contribution_confirmation loan_disbursement loan_repayment : SourceType
  payout_completion registration_fee_payment : SourceType

-- The account codes of app/services/ledger.py.
abbrev pub cash_code : String
cash_code = "1000"

abbrev pub share_capital_code : String
share_capital_code = "3000"

abbrev pub registration_fees_code : String
registration_fees_code = "4000"

abbrev pub loans_receivable_code : String
loans_receivable_code = "1100"

abbrev pub interest_income_code : String
interest_income_code = "5000"

-- `==` on these enumerations, through the position of a value.
abbrev pub role_index : RoleName → ℕ
role_index chairperson = 0
role_index treasurer = 1
role_index secretary = 2
role_index member = 3
role_index platform_admin = 4

abbrev source_index : SourceType → ℕ
source_index ledger_reversal = 0
source_index contribution_confirmation = 1
source_index loan_disbursement = 2
source_index loan_repayment = 3
source_index payout_completion = 4
source_index registration_fee_payment = 5

abbrev loan_index : LoanStatus → ℕ
loan_index draft = 0
loan_index submitted = 1
loan_index approved = 2
loan_index disbursed = 3
loan_index partially_repaid = 4
loan_index repaid = 5
loan_index rejected = 6
loan_index cancelled = 7

abbrev payout_index : PayoutStatus → ℕ
payout_index requested = 0
payout_index approved = 1
payout_index processing = 2
payout_index completed = 3
payout_index rejected = 4
payout_index failed = 5
payout_index reversed = 6

unfoldable pub same_role : RoleName → RoleName → Bool
same_role a b = role_index a == role_index b

unfoldable pub same_source : SourceType → SourceType → Bool
same_source a b = source_index a == source_index b

unfoldable pub same_loan_status : LoanStatus → LoanStatus → Bool
same_loan_status a b = loan_index a == loan_index b

unfoldable pub same_payout_status : PayoutStatus → PayoutStatus → Bool
same_payout_status a b = payout_index a == payout_index b

pub same_source_iff : (a b : SourceType) → (same_source a b ≡ true) ↔ (a ≡ b)
unfolding same_source
same_source_iff a b = ground arith

pub same_loan_status_iff : (a b : LoanStatus) → (same_loan_status a b ≡ true) ↔ (a ≡ b)
unfolding same_loan_status
same_loan_status_iff a b = ground arith

pub same_payout_status_iff : (a b : PayoutStatus) → (same_payout_status a b ≡ true) ↔ (a ≡ b)
unfolding same_payout_status
same_payout_status_iff a b = ground arith
