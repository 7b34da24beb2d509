-- ===== src/Loan/Rules.antt =====
-- Rules for the steps of a loan operation, and what a look-up finds after an update.
use chamacore.Prelude.{ℕ, ◌≡◌, refl, ap, true, some, List, ◌==◌, Bool-cases, inl, inr, arith}
use chamacore.Prelude.Table.{find?-update, any}
use chamacore.Data.{Db, User, Loan, LoanStatus, same_loan_status}
use chamacore.Session.{Session, Action, Result, ok, err, AppError, modify, flush, ◌>>=◌}
use chamacore.Loan.Store.{
  transition, update_loan, set_status, find_loan, is_loan, chama_loan, get_chama_loan,
  as_chairperson,
}

-- The session after `to` was assigned to the loan's status and flushed.
abbrev pub moved : Loan → LoanStatus → Session → Session
moved loan to s =
    let db = update_loan loan.id (set_status to) s.work in record s { work = db; flushed = db }

pub transitioning :
    {B : Type 0} (loan : Loan) (allowed_from : List LoanStatus) (to : LoanStatus)
    (f : Unit {0} → Action B) (s : Session) (Q : Result B × Session → Type 0)
    → ((e : AppError) → Q (err e, s))
    → (any (same_loan_status loan.status) allowed_from ≡ true → Q (f tt (moved loan to s)))
    → Q ((transition loan allowed_from to >>= f) s)
unfolding transition modify flush ◌>>=◌
transitioning loan allowed_from to f s Q fails goes =
    elim (Bool-cases (any (same_loan_status loan.status) allowed_from)) [
      | inl allowed ↦ rw allowed (goes allowed)
      | inr refused ↦ rw refused (fails _)
    ]

-- A loan that is updated is found with the update.
pub find_loan-update :
    (loan_id : ℕ) (f : Loan → Loan) (db : Db) (l : Loan)
    → ((x : Loan) → (f x).id ≡ x.id)
    → find_loan loan_id db ≡ some l
    → find_loan loan_id (update_loan loan_id f db) ≡ some (f l)
unfolding find_loan update_loan
find_loan-update loan_id f db l keeps h =
    find?-update (is_loan loan_id) f db.loans (λ x. ap (λ n. n == loan_id) (keeps x)) l h

-- What `_get_chama_loan` returns.
pub chama_loan-ok :
    (chama_id loan_id : ℕ) (db : Db) (l : Loan)
    → chama_loan chama_id loan_id db ≡ ok l
    → (find_loan loan_id db ≡ some l) × (l.chama_id ≡ chama_id)
unfolding chama_loan
chama_loan-ok chama_id loan_id db l h = (ground arith, ground arith)

-- Reading the loan changes nothing.
pub get_chama_loan-reads :
    (chama_id loan_id : ℕ) (s : Session)
    → get_chama_loan chama_id loan_id s ≡ (chama_loan chama_id loan_id s.work, s)
unfolding get_chama_loan ◌>>=◌
get_chama_loan-reads chama_id loan_id s = refl

-- So does the opening of an action of the chairperson.
pub as_chairperson-reads :
    (actor : User) (chama_id : ℕ) (s : Session) → (as_chairperson actor chama_id s).1 ≡ s
unfolding as_chairperson ◌>>=◌
as_chairperson-reads actor chama_id s = ground arith
