-- ===== src/Loan/Balance.antt =====
-- What is outstanding on a loan: `outstanding_for`, `_status_from_outstanding` and
-- `_status_after_reversal` of app/services/loan.py, over app/repositories/loan_repayment.py.
use chamacore.Prelude.{ℕ, Bool, true, false, ◌&&◌, not, List, ◌==◌, if◌then◌else◌}
use chamacore.Prelude.Int.{ℤ, pos, sub_ℕ, ltb_ℤ, eq_ℤ}
use chamacore.Prelude.Table.{select, sum_of}
use chamacore.Data.{Db, Loan, LoanRepayment, LoanStatus, LoanRepaymentStatus}
use chamacore.Loan.Terms.{interest_for}

abbrev pub is_confirmed : LoanRepaymentStatus → Bool
is_confirmed LoanRepaymentStatus.confirmed = true
is_confirmed LoanRepaymentStatus.reversed = false

abbrev pub confirmed_for : ℕ → LoanRepayment → Bool
confirmed_for loan_id r = r.loan_id == loan_id && is_confirmed r.status

unfoldable pub confirmed_by_loan : ℕ → Db → List LoanRepayment
confirmed_by_loan loan_id db = select (confirmed_for loan_id) db.repayments

unfoldable pub paid_principal : ℕ → Db → ℕ
unfolding confirmed_by_loan
paid_principal loan_id db = sum_of (λ r. r.principal_portion) (confirmed_by_loan loan_id db)

unfoldable pub paid_interest : ℕ → Db → ℕ
unfolding confirmed_by_loan
paid_interest loan_id db = sum_of (λ r. r.interest_portion) (confirmed_by_loan loan_id db)

-- Principal and interest, in cents; `quantize` keeps what is in cents.
unfoldable pub outstanding_for : Loan → Db → ℤ × ℤ
unfolding paid_principal paid_interest
outstanding_for loan db = (
  sub_ℕ loan.principal (paid_principal loan.id db),
  sub_ℕ (interest_for loan) (paid_interest loan.id db),
)

unfoldable pub status_from_outstanding : Loan → ℤ → ℤ → LoanStatus
status_from_outstanding loan outstanding_principal outstanding_interest =
    if not (ltb_ℤ (pos 0) outstanding_principal) && not (ltb_ℤ (pos 0) outstanding_interest)
    then LoanStatus.repaid
    else if eq_ℤ outstanding_principal (pos loan.principal)
        && eq_ℤ outstanding_interest (pos (interest_for loan))
    then LoanStatus.disbursed
    else LoanStatus.partially_repaid

unfoldable pub status_after_reversal : Loan → Db → LoanStatus
unfolding status_from_outstanding outstanding_for
status_after_reversal loan db =
    let (principal, interest) = outstanding_for loan db in
    status_from_outstanding loan principal interest
