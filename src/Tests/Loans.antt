-- ===== src/Tests/Loans.antt =====
-- The loan theorems at a concrete loan.
use chamacore.Prelude.{◌+◌, ◌≡◌, refl, ◌⊎◌, none, some, [], ◌∷◌, true, arith}
use chamacore.Prelude.Int.{pos, ◌+ℤ◌, ◌-ℤ◌, ◌≤ℤ◌}
use chamacore.Access.{
  get_chama_or_404, authorize_chama_write, authorize_chama_access, has_role, require_role,
}
use chamacore.Audit.{record_event, add_event}
use chamacore.Data.{
  Db, Loan, LoanStatus, LedgerTransaction, SourceType, Description, AuditEvent, same_source,
  same_role, same_loan_status,
}
use chamacore.Finance.{get_account_id, available_chama_cash, lock_cash_account}
use chamacore.Money.{quantize}
use chamacore.Session.{Session, fresh, ok, modify, flush, commit, ◌>>=◌}
use chamacore.Ledger.{post_transaction}
use chamacore.Ledger.Lines.{
  validate_lines, validate_loop, validate_line, imbalance, normalize_lines, normalize_line,
  to_quantized, entry_of,
}
use chamacore.Ledger.Store.{
  account_balance, account_debits, account_credits, add_transaction, get_in_chama, get_by_source,
  land, violates_unique,
}
use chamacore.Loan.{disburse}
use chamacore.Loan.Allocation.{allocate_interest_first}
use chamacore.Loan.Balance.{
  status_after_reversal, status_from_outstanding, outstanding_for, paid_principal, paid_interest,
  confirmed_by_loan,
}
use chamacore.Loan.Dates.{IsDate, month_count, add_months-IsDate}
use chamacore.Loan.Disbursement.{Paid, disburse_pays}
use chamacore.Loan.Reads.{may_see, list_by_chama, list_by_chama-may_see}
use chamacore.Prelude.Table.{All}
use chamacore.Loan.Repayment.{allocate, settle_reversal}
use chamacore.Loan.Stale.{settle_reversal_stale}
use chamacore.Loan.Store.{
  find_loan, chama_loan, get_chama_loan, update_loan, transition, as_chairperson,
}
use chamacore.Loan.Terms.{add_months, days_in_month, interest_for}
use chamacore.Tests.{
  chair_membership, env_with, chair, books, deposit, loan_in, repayment, before_disbursement,
  january,
}

-- Due on 28 February.
abbrev paid : Loan
paid = record (loan_in LoanStatus.disbursed) {
  disbursement_date = some january;
  maturity_date = some (record { year = 2026; month = 2; day = 28; time = 0 });
  disbursed_by_user_id = some 1;
}

abbrev posting : LedgerTransaction
posting = record {
  id = 101;
  chama_id = 1;
  source_type = SourceType.loan_disbursement;
  source_id = 70;
  description = some (Description.loan_disbursement 70);
  posted_by_user_id = 1;
  reverses_transaction_id = none;
  entries =
      record { account_id = 2; debit = 100000; credit = 0 }
      ∷ record { account_id = 1; debit = 0; credit = 100000 }
      ∷ [];
}

abbrev posted : Db
posted = record before_disbursement { loans = paid ∷ []; transactions = posting ∷ deposit ∷ [] }

abbrev event : AuditEvent
event = record {
  chama_id = some 1;
  actor_user_id = some 1;
  action = "loan.disburse";
  resource_type = "loan";
  resource_id = some 70;
  success = true;
}

abbrev after : Session
after = fresh (record posted { audit = event ∷ [] }) (posted ∷ before_disbursement ∷ [])

disburses : disburse (env_with 100) chair 1 70 (fresh before_disbursement []) ≡ (ok paid, after)
unfolding disburse as_chairperson get_chama_loan chama_loan find_loan update_loan transition
    add_months days_in_month same_role same_loan_status record_event add_event get_account_id
    available_chama_cash lock_cash_account require_role account_balance account_debits
    account_credits post_transaction ◌>>=◌ get_chama_or_404 authorize_chama_write
    authorize_chama_access normalize_lines normalize_line to_quantized quantize validate_lines
    validate_loop validate_line get_in_chama imbalance ◌+ℤ◌ ◌-ℤ◌ same_source get_by_source land
    violates_unique add_transaction entry_of modify flush commit
disburses = refl

disburse_pays_example : Paid 1 1 2 (loan_in LoanStatus.approved) before_disbursement paid after
unfolding find_loan get_by_source get_account_id same_source
disburse_pays_example =
    disburse_pays (env_with 100) chair 1 1 2 (loan_in LoanStatus.approved) before_disbursement []
      refl refl refl refl refl (λ e. absurd (omega (arith, e))) paid after disburses

abbrev partly : Loan
partly = loan_in LoanStatus.partially_repaid

abbrev repaid_once : Db
repaid_once = books (partly ∷ []) (repayment ∷ [])

settle_reversal_stale_example :
    let (result, u) = settle_reversal chair 1 partly repayment (fresh repaid_once []) in
    (result ≡ ok partly)
    × (find_loan 70 u.saved ≡ some partly)
    × (paid_principal 70 u.saved + 10000 ≡ paid_principal 70 repaid_once)
    × (paid_interest 70 u.saved + 5000 ≡ paid_interest 70 repaid_once)
unfolding find_loan status_after_reversal status_from_outstanding outstanding_for paid_principal
    paid_interest confirmed_by_loan interest_for
settle_reversal_stale_example =
    settle_reversal_stale chair partly repayment repaid_once [] (refl, tt) refl refl refl refl

allocate_interest_first_example :
    let split = allocate 15000 (pos 5000) in
    (split.principal_portion +ℤ split.interest_portion ≡ pos 15000)
    × (pos 0 ≤ℤ split.principal_portion)
    × (pos 0 ≤ℤ split.interest_portion)
    × (split.principal_portion ≤ℤ pos 100000)
    × (split.interest_portion ≤ℤ pos 5000)
    × ((split.interest_portion ≡ pos 5000) ⊎ (split.principal_portion ≡ pos 0))
unfolding ◌+ℤ◌
allocate_interest_first_example =
    allocate_interest_first 15000 (pos 100000) (pos 5000) (omega arith) (omega arith) (omega arith)

january-IsDate : IsDate january
unfolding days_in_month
january-IsDate = record {
  month_low = omega arith;
  month_high = omega arith;
  day_low = omega arith;
  day_high = omega arith;
}

add_months-IsDate_example :
    let later = add_months january 13 in
    IsDate later
    × (month_count later ≡ month_count january + 13)
    × ((later.day ≡ 31) ⊎ (later.day ≡ days_in_month later.year later.month))
    × (later.time ≡ 0)
add_months-IsDate_example = add_months-IsDate january 13 january-IsDate

list_by_chama-may_see_example :
    All (λ l. may_see chair_membership 1 l ≡ true) (loan_in LoanStatus.approved ∷ [])
unfolding authorize_chama_access list_by_chama get_chama_or_404 has_role same_role
list_by_chama-may_see_example =
    list_by_chama-may_see chair 1 (some 10) 0 before_disbursement chair_membership
      (loan_in LoanStatus.approved ∷ []) refl refl
