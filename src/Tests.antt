-- ===== src/Tests.antt =====
-- A Chama with its chart of accounts, some cash, and a loan in several states.
mod Postings
mod Loans
mod Payouts
mod Histories
mod Chart
mod Payments
mod Fees
mod Helpers
use chamacore.Prelude.{ℕ, ◌+◌, String, none, some, List, [], ◌∷◌, refl, inl, inr, arith}
use chamacore.Data.{
  Db, Env, DateTime, User, Chama, ChamaStatus, Membership, MembershipStatus, RoleName,
  LedgerAccount, LedgerAccountType, LedgerTransaction, LedgerEntry, SourceType, Description, Loan,
  LoanStatus, LoanRepayment, LoanRepaymentStatus, cash_code, loans_receivable_code,
  share_capital_code, interest_income_code, same_source,
}
use chamacore.Ledger.Book.{IsSoundDb}

abbrev pub january : DateTime
january = record { year = 2026; month = 1; day = 31; time = 0 }

-- Another id for each request.
abbrev pub env_with : ℕ → Env
env_with n = record {
  now = january;
  now_utc = 9000000;
  share_unit_price = 10000;
  system_user_id = 9;
  row_id = n;
  transaction_id = n + 1;
  concurrent = [];
  payment_attempt_max_retries = 2;
  concurrent_intents = [];
  concurrent_events = [];
}

abbrev pub chair : User
chair = record { id = 1; member_id = some 11 }

abbrev pub chair_membership : Membership
chair_membership = record {
  id = 21;
  chama_id = 1;
  member_id = 11;
  status = MembershipStatus.active;
  joined_at = 0;
  roles = RoleName.chairperson ∷ [];
}

abbrev pub account : ℕ → String → LedgerAccountType → LedgerAccount
account id code kind = record {
  id = id;
  chama_id = 1;
  code = code;
  name = code;
  account_type = kind;
  description = none;
}

-- A contribution of 5,000.00.
abbrev pub deposit : LedgerTransaction
deposit = record {
  id = 400;
  chama_id = 1;
  source_type = SourceType.contribution_confirmation;
  source_id = 90;
  description = some (Description.contribution_confirmation "2026-01");
  posted_by_user_id = 1;
  reverses_transaction_id = none;
  entries =
      record { account_id = 1; debit = 500000; credit = 0 }
      ∷ record { account_id = 3; debit = 0; credit = 500000 }
      ∷ [];
}

-- A loan of 1,000.00 to another member, at 5%.
abbrev pub loan_in : LoanStatus → Loan
loan_in status = record {
  id = 70;
  chama_id = 1;
  membership_id = 22;
  principal = 100000;
  interest_rate = 500;
  term_months = 1;
  status = status;
  approval_date = some january;
  disbursement_date = none;
  maturity_date = none;
  approved_by_user_id = some 1;
  disbursed_by_user_id = none;
  recorded_by_user_id = 2;
  note = none;
}

-- A repayment of 150.00: the interest of 50.00, and 100.00 of the principal.
abbrev pub repayment : LoanRepayment
repayment = record {
  id = 80;
  chama_id = 1;
  loan_id = 70;
  amount = 15000;
  principal_portion = 10000;
  interest_portion = 5000;
  status = LoanRepaymentStatus.confirmed;
  recorded_by_user_id = 1;
  note = none;
}

abbrev pub books : List Loan → List LoanRepayment → Db
books loans repayments = record {
  chamas = record { id = 1; status = ChamaStatus.active } ∷ [];
  memberships = chair_membership ∷ [];
  accounts =
      account 1 cash_code LedgerAccountType.asset
      ∷ account 2 loans_receivable_code LedgerAccountType.asset
      ∷ account 3 share_capital_code LedgerAccountType.equity
      ∷ account 4 interest_income_code LedgerAccountType.revenue
      ∷ [];
  transactions = deposit ∷ [];
  loans = loans;
  repayments = repayments;
  payouts = [];
  contributions = [];
  shares = [];
  audit = [];
  fees = [];
  fee_payments = [];
  members = [];
  connections = [];
  intents = [];
  attempts = [];
  provider_transactions = [];
  events = [];
}

-- The Chama before the loan is disbursed.
abbrev pub before_disbursement : Db
before_disbursement = books (loan_in LoanStatus.approved ∷ []) []

pub books-IsSoundDb :
    (loans : List Loan) (repayments : List LoanRepayment) → IsSoundDb (books loans repayments)
unfolding same_source
books-IsSoundDb loans repayments = (
  record {
    sides = (inl (omega arith, refl), (inr (refl, omega arith), tt));
    known = (refl, (refl, tt));
    moves = omega arith;
    balanced = refl;
    new_source = refl;
    new_reversal = refl;
    kind = refl;
    target = tt;
  },
  tt,
)
