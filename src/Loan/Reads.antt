-- ===== src/Loan/Reads.antt =====
-- The loans that a caller may list: `list_by_chama`, `list_by_membership` and `list_repayments` of
-- app/services/loan.py over the lists of app/repositories/loan.py and loan_repayment.py. They run in a
-- session of their own, so objects and rows agree. A row is inserted after the rows that are older by
-- its timestamp, so the order of the lists is the order of insertion.
use chamacore.Prelude.{ℕ, ◌≡◌, inl, inr, Bool, true, Option, List, ◌==◌, if◌then◌else◌, Bool-cases}
use chamacore.Prelude.Table.{select, All, oldest_first, page}
use chamacore.Prelude.Listed.{listed-Each}
use chamacore.Data.{Db, User, Membership, Loan, LoanRepayment}
use chamacore.Session.{Result, ok, after}
use chamacore.Session.Rules.{after-ok, ok-injective}
use chamacore.Access.{
  get_chama_or_404, authorize_chama_access, get_target_membership, require_own_or_leadership,
  is_leader,
}
use chamacore.Loan.Store.{chama_loan}

abbrev pub rows_by_chama : ℕ → Option ℕ → ℕ → Db → List Loan
rows_by_chama chama_id limit offset db =
    page limit offset (oldest_first (select (λ l. l.chama_id == chama_id) db.loans))

abbrev pub rows_by_membership : ℕ → Option ℕ → ℕ → Db → List Loan
rows_by_membership membership_id limit offset db =
    page limit offset (oldest_first (select (λ l. l.membership_id == membership_id) db.loans))

abbrev pub repayments_by_loan : ℕ → Option ℕ → ℕ → Db → List LoanRepayment
repayments_by_loan loan_id limit offset db =
    page limit offset (oldest_first (select (λ r. r.loan_id == loan_id) db.repayments))

unfoldable pub list_by_chama : User → ℕ → Option ℕ → ℕ → Db → Result (List Loan)
list_by_chama actor chama_id limit offset db = after (get_chama_or_404 chama_id db) λ _.
    after (authorize_chama_access actor chama_id db) λ membership. ok (
      if is_leader membership
      then rows_by_chama chama_id limit offset db
      else rows_by_membership membership.id limit offset db)

unfoldable pub list_by_membership : User → ℕ → ℕ → Option ℕ → ℕ → Db → Result (List Loan)
list_by_membership actor chama_id membership_id limit offset db =
    after (get_chama_or_404 chama_id db) λ _.
      after (authorize_chama_access actor chama_id db) λ caller.
        after (get_target_membership chama_id membership_id db) λ membership.
          after (require_own_or_leadership caller membership.id)
            λ _. ok (rows_by_membership membership.id limit offset db)

unfoldable pub list_repayments : User → ℕ → ℕ → Option ℕ → ℕ → Db → Result (List LoanRepayment)
list_repayments actor chama_id loan_id limit offset db = after (get_chama_or_404 chama_id db) λ _.
    after (authorize_chama_access actor chama_id db) λ caller.
      after (chama_loan chama_id loan_id db) λ loan.
        after (require_own_or_leadership caller loan.membership_id)
          λ _. ok (repayments_by_loan loan.id limit offset db)

-- A loan that the caller may see in the Chama: any for an officer, else their own.
abbrev pub may_see : Membership → ℕ → Loan → Bool
may_see caller chama_id l =
    if is_leader caller then l.chama_id == chama_id else l.membership_id == caller.id

-- The list of a Chama's loans that a caller gets has only loans that they may see: loans of the Chama
-- for an officer, and their own loans for any other member.
pub list_by_chama-may_see :
    (actor : User) (chama_id : ℕ) (limit : Option ℕ) (offset : ℕ) (db : Db) (caller : Membership)
    (loans : List Loan)
    → authorize_chama_access actor chama_id db ≡ ok caller
    → list_by_chama actor chama_id limit offset db ≡ ok loans
    → All (λ l. may_see caller chama_id l ≡ true) loans
unfolding list_by_chama
list_by_chama-may_see actor chama_id limit offset db caller loans access h =
    let (chama, found, rest) = after-ok (get_chama_or_404 chama_id db) _ h in
    let listed = ok-injective (rw access at rest) in
    rw (← listed) (elim (Bool-cases (is_leader caller)) [
      | inl leader ↦ rw leader (listed-Each (λ l. l.chama_id == chama_id) limit offset db.loans)
      | inr plain ↦ rw plain (listed-Each (λ l. l.membership_id == caller.id) limit offset db.loans)
    ])
