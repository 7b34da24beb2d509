-- ===== src/Loan.antt =====
-- app/services/loan.py: the loan lifecycle (ADR-020). `Terms` computes interest and maturity,
-- `Balance` what is outstanding, `Repayment` records and reverses repayments; this file has the
-- lifecycle from application to disbursement.
pub mod Terms
pub mod Balance
pub mod Store
pub mod Repayment
pub mod Books
pub mod Rules
pub mod Allocation
pub mod Dates
pub mod Reads
pub mod Disbursement
pub mod Stale
use chamacore.Prelude.{
  Bool, true, false, if◌then◌else◌, ℕ, ◌+◌, ◌*◌, String, Option, none, some, [], ◌∷◌, is_some, ltb,
  ◌==◌, not,
}
use chamacore.Prelude.Int.{pos, ltb_ℤ}
use chamacore.Data.{
  Db, Env, User, Loan, Membership, LoanStatus, LedgerTransaction, Description, SourceType, RoleName,
  cash_code, loans_receivable_code,
}
use chamacore.Data.LoanStatus.{draft, submitted, approved, disbursed, rejected, cancelled}
use chamacore.Money.{cents, no_amount}
use chamacore.Session.{
  Action, state_error, raise_if, gets, query, lift, pure, modify, flush, commit, ◌>>=◌, ◌>>◌,
}
use chamacore.Access.{get_chama_or_404, authorize_chama_write, require_role}
use chamacore.Audit.{record_event}
use chamacore.Finance.{get_account_id, available_chama_cash, lock_cash_account, member_share_value}
use chamacore.Ledger.{post_transaction}
use chamacore.Ledger.Store.{get_by_source}
use Terms.{add_months}
use Store.{get_chama_loan, update_loan, add_loan, transition, as_chairperson}

-- LOAN_INTEREST_RATE, in ten-thousandths, and MIN_TENURE_DAYS.
abbrev pub loan_interest_rate : ℕ
loan_interest_rate = 500

abbrev pub min_tenure_days : ℕ
min_tenure_days = 30

pub check_principal_limit : Env → ℕ → ℕ → ℕ → Action (Unit {0})
check_principal_limit env membership_id chama_id principal = do
  share_value ← gets (member_share_value env.share_unit_price membership_id)
  raise_if (ltb (share_value * 3) principal)
      (state_error "Loan principal cannot exceed three times the member's share value")
  cash ← query (available_chama_cash chama_id)
  raise_if (ltb_ℤ cash (pos principal))
      (state_error "Loan principal cannot exceed the Chama's available cash")

new_loan : Env → User → ℕ → ℕ → ℕ → ℕ → Option String → Loan
new_loan env actor chama_id membership_id principal term_months note = record {
  id = env.row_id;
  chama_id = chama_id;
  membership_id = membership_id;
  principal = principal;
  interest_rate = loan_interest_rate;
  term_months = term_months;
  status = draft;
  approval_date = none;
  disbursement_date = none;
  maturity_date = none;
  approved_by_user_id = none;
  disbursed_by_user_id = none;
  recorded_by_user_id = actor.id;
  note = note;
}

-- `LoanService.apply`; a member who joined less than 30 days ago is refused.
pub apply : Env → User → ℕ → ℕ → ℕ → Option String → Action Loan
unfolding check_principal_limit new_loan
apply env actor chama_id principal term_months note = do
  query (get_chama_or_404 chama_id)
  membership ← query (authorize_chama_write actor chama_id)
  raise_if (ltb env.now_utc (membership.joined_at + min_tenure_days * 86400))
      (state_error "A member must have been an active member for at least one month to apply")
  check_principal_limit env membership.id chama_id principal
  let loan = new_loan env actor chama_id membership.id principal term_months note
  modify (add_loan loan)
  flush
  record_event actor chama_id "loan.apply" "loan" loan.id
  commit
  pure loan

pub submit : User → ℕ → ℕ → Action Loan
submit actor chama_id loan_id = do
  query (get_chama_or_404 chama_id)
  membership ← query (authorize_chama_write actor chama_id)
  loan ← get_chama_loan chama_id loan_id
  raise_if (not (loan.membership_id == membership.id))
      (state_error "Only the applicant can submit their loan application")
  transition loan (draft ∷ []) submitted
  record_event actor chama_id "loan.submit" "loan" loan.id
  commit
  get_chama_loan chama_id loan_id

pub forbid_self_action : Loan → ℕ → Action (Unit {0})
forbid_self_action loan actor_membership_id =
    raise_if (loan.membership_id == actor_membership_id)
      (state_error "A member cannot decide on their own loan application")

pub approve : Env → User → ℕ → ℕ → Action Loan
unfolding forbid_self_action
approve env actor chama_id loan_id = do
  actor_membership ← as_chairperson actor chama_id
  loan ← get_chama_loan chama_id loan_id
  forbid_self_action loan actor_membership.id
  transition loan (submitted ∷ []) approved
  modify (
      update_loan loan.id
        λ l. record l { approval_date = some env.now; approved_by_user_id = some actor.id })
  record_event actor chama_id "loan.approve" "loan" loan.id
  commit
  get_chama_loan chama_id loan_id

pub reject : User → ℕ → ℕ → Action Loan
unfolding forbid_self_action
reject actor chama_id loan_id = do
  actor_membership ← as_chairperson actor chama_id
  loan ← get_chama_loan chama_id loan_id
  forbid_self_action loan actor_membership.id
  transition loan (submitted ∷ []) rejected
  record_event actor chama_id "loan.reject" "loan" loan.id
  commit
  get_chama_loan chama_id loan_id

pub cancel : User → ℕ → ℕ → Action Loan
cancel actor chama_id loan_id = do
  as_chairperson actor chama_id
  loan ← get_chama_loan chama_id loan_id
  transition loan (approved ∷ []) cancelled
  record_event actor chama_id "loan.cancel" "loan" loan.id
  commit
  get_chama_loan chama_id loan_id

-- The retry of a disbursement: nothing happens.
unfoldable pub already_disbursed : Option LedgerTransaction → Loan → Action Loan
already_disbursed posting loan = do
  raise_if (not (is_some posting)) (state_error "Disbursed loan is missing its ledger transaction")
  pure loan

-- The ledger posting of a disbursement: debit Loans Receivable, credit Cash.
pub post_disbursement : Env → User → ℕ → Loan → Action LedgerTransaction
post_disbursement env actor chama_id loan = do
  receivable ← query (get_account_id chama_id loans_receivable_code)
  cash_account ← query (get_account_id chama_id cash_code)
  post_transaction env actor (record {
    chama_id = chama_id;
    source_type = SourceType.loan_disbursement;
    source_id = loan.id;
    description = some (Description.loan_disbursement loan.id);
    lines =
        record { account_id = receivable; debit = cents loan.principal; credit = no_amount }
        ∷ record { account_id = cash_account; debit = no_amount; credit = cents loan.principal }
        ∷ [];
    reverses_transaction_id = none;
    require_membership = true;
  })

pub pay_out : Env → User → ℕ → Loan → Action Loan
unfolding post_disbursement
pay_out env actor chama_id loan = do
  query (lock_cash_account chama_id)
  transition loan (approved ∷ []) disbursed
  cash ← query (available_chama_cash chama_id)
  raise_if (ltb_ℤ cash (pos loan.principal))
      (state_error "Insufficient available Chama cash to disburse this loan")
  modify (
      update_loan loan.id λ l. record l {
        disbursement_date = some env.now;
        maturity_date = some (add_months env.now loan.term_months);
        disbursed_by_user_id = some actor.id;
      })
  post_disbursement env actor chama_id loan
  record_event actor chama_id "loan.disburse" "loan" loan.id
  commit
  get_chama_loan chama_id loan.id

abbrev pub is_disbursed : LoanStatus → Bool
is_disbursed disbursed = true
is_disbursed _ = false

unfoldable pub disburse : Env → User → ℕ → ℕ → Action Loan
unfolding already_disbursed pay_out
disburse env actor chama_id loan_id = do
  as_chairperson actor chama_id
  loan ← get_chama_loan chama_id loan_id
  posting ← gets (get_by_source SourceType.loan_disbursement loan.id)
  if is_disbursed loan.status
      then already_disbursed posting loan
      else pay_out env actor chama_id loan
