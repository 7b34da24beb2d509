-- ===== src/Loan/Stale.antt =====
-- What the end of a reversal leaves: nothing is flushed between the repayment's new status and the
-- query that derives the loan's status from the confirmed repayments.
use chamacore.Prelude.{
  ℕ, ◌+◌, ◌≡◌, refl, sym, ap, some, List, [], ◌∷◌, true, Bool-cases, inl, inr, ==_refl, ◌==◌, arith,
  subst, Bool, false, ◌&&◌,
}
use chamacore.Prelude.Table.{find?, any, update, select, sum_of}
use chamacore.Data.{Db, User, Loan, LoanRepayment, LoanRepaymentStatus}
use chamacore.Session.{fresh, ok, modify, flush, commit, ◌>>=◌}
use chamacore.Audit.{record_event, add_event}
use chamacore.Loan.Balance.{
  status_after_reversal, paid_principal, paid_interest, confirmed_by_loan, confirmed_for,
}
use chamacore.Loan.Repayment.{settle_reversal, update_repayment, is_repayment}
use chamacore.Loan.Rules.{find_loan-update}
use chamacore.Loan.Store.{find_loan, is_loan, update_loan, set_status, get_chama_loan, chama_loan}

abbrev reversed_row : LoanRepayment → LoanRepayment
reversed_row r = record r { status = LoanRepaymentStatus.reversed }

and_false : (b : Bool) → (b && false) ≡ false
and_false true = refl
and_false false = refl

not_counted : (r : LoanRepayment) (loan_id : ℕ) → confirmed_for loan_id (reversed_row r) ≡ false
not_counted r loan_id = and_false (r.loan_id == loan_id)

-- The primary key of the table.
abbrev pub UniqueIds : List LoanRepayment → Type 0
UniqueIds [] = Unit
UniqueIds (r ∷ rs) = (any (is_repayment r.id) rs ≡ false) × UniqueIds rs

update-missing :
    (n : ℕ) (rs : List LoanRepayment)
    → any (is_repayment n) rs ≡ false
    → update (is_repayment n) reversed_row rs ≡ rs
update-missing n [] none_there = refl
update-missing n (x ∷ rs) none_there = elim (Bool-cases (x.id == n)) [
  | inl hit ↦ let c : true ≡ false = rw hit at none_there in cc
  | inr miss ↦ rw miss (ap (λ ys. x ∷ ys) (update-missing n rs (rw miss at none_there)))
]

-- A confirmed repayment that becomes reversed leaves a sum over the confirmed ones.
sum-reversed :
    (part : LoanRepayment → ℕ) (loan_id : ℕ) (rs : List LoanRepayment) (r : LoanRepayment)
    → UniqueIds rs
    → find? (is_repayment r.id) rs ≡ some r
    → confirmed_for loan_id r ≡ true
    → sum_of part (select (confirmed_for loan_id) (update (is_repayment r.id) reversed_row rs))
        + part r
      ≡ sum_of part (select (confirmed_for loan_id) rs)
sum-reversed part loan_id [] r unique found confirmed = cc
sum-reversed part loan_id (x ∷ rs) r unique found confirmed = elim (Bool-cases (x.id == r.id)) [
  | inl hit ↦
      let first : some x ≡ some r = rw hit at found in
      let same : x ≡ r = cc in
      let kept =
        update-missing r.id rs (subst (λ y. any (is_repayment y.id) rs ≡ false) same unique.0) in
      let counted : confirmed_for loan_id x ≡ true =
        subst (λ y. confirmed_for loan_id y ≡ true) (sym same) confirmed in
      rw (hit, kept, not_counted x loan_id, counted, same) (omega arith)
  | inr miss ↦
      let rest = sum-reversed part loan_id rs r unique.1 (rw miss at found) confirmed in
      rw miss (ground (arith, rest))
]

-- Where the stored status of a loan is the one that its confirmed repayments give, reversing a confirmed
-- repayment of it leaves the loan as it was, its status included, although what counts as paid falls by
-- the portions of the repayment.
pub settle_reversal_stale :
    (actor : User) (loan : Loan) (r : LoanRepayment) (db : Db) (earlier : List Db)
    → UniqueIds db.repayments
    → find_loan loan.id db ≡ some loan
    → find? (is_repayment r.id) db.repayments ≡ some r
    → confirmed_for loan.id r ≡ true
    → loan.status ≡ status_after_reversal loan db
    → let (result, after) = settle_reversal actor loan.chama_id loan r (fresh db earlier) in
      (result ≡ ok loan)
      × (find_loan loan.id after.saved ≡ some loan)
      × (paid_principal loan.id after.saved + r.principal_portion ≡ paid_principal loan.id db)
      × (paid_interest loan.id after.saved + r.interest_portion ≡ paid_interest loan.id db)
unfolding settle_reversal modify flush commit ◌>>=◌ record_event get_chama_loan chama_loan
    paid_principal paid_interest update_repayment confirmed_by_loan add_event find_loan update_loan
settle_reversal_stale actor loan r db earlier unique found repaid confirmed stored =
    let changed : find? (is_loan loan.id)
          (update (is_loan loan.id) (set_status loan.status) db.loans)
        ≡ some loan =
      find_loan-update loan.id (set_status loan.status) db loan (λ x. refl) found in
    rw (← stored) (
      rw (changed, ==_refl loan.chama_id),
      changed,
      sum-reversed (λ x. x.principal_portion) loan.id db.repayments r unique repaid confirmed,
      sum-reversed (λ x. x.interest_portion) loan.id db.repayments r unique repaid confirmed,
    )
