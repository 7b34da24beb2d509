-- ===== src/Loan/Store.antt =====
-- app/repositories/loan.py, and the helpers `_get_chama_loan` and `_transition` of
-- app/services/loan.py.
use chamacore.Prelude.{ℕ, Bool, not, Option, List, ◌∷◌, ◌==◌}
use chamacore.Prelude.Table.{find?, any, update}
use chamacore.Data.{Db, User, Membership, Loan, LoanStatus, RoleName, same_loan_status}
use chamacore.Session.{
  Action, Result, not_found, state_error, or_raise, check, after, raise_if, fetch, query, lift,
  pure, modify, flush, ◌>>=◌, ◌>>◌,
}
use chamacore.Access.{get_chama_or_404, authorize_chama_write, require_role}

abbrev pub is_loan : ℕ → Loan → Bool
is_loan loan_id l = l.id == loan_id

unfoldable pub find_loan : ℕ → Db → Option Loan
find_loan loan_id db = find? (is_loan loan_id) db.loans

unfoldable pub chama_loan : ℕ → ℕ → Db → Result Loan
unfolding find_loan
chama_loan chama_id loan_id db =
    after (or_raise (find_loan loan_id db) (not_found "Loan not found in this Chama")) λ loan.
      after (check (not (loan.chama_id == chama_id)) (not_found "Loan not found in this Chama"))
        λ _. Result.ok loan

-- `db.get`: the object, as changed so far.
unfoldable pub get_chama_loan : ℕ → ℕ → Action Loan
unfolding chama_loan
get_chama_loan chama_id loan_id = do found ← fetch (chama_loan chama_id loan_id); lift found

unfoldable pub update_loan : ℕ → (Loan → Loan) → Db → Db
update_loan loan_id f db = record db { loans = update (is_loan loan_id) f db.loans }

unfoldable pub add_loan : Loan → Db → Db
add_loan loan db = record db { loans = loan ∷ db.loans }

abbrev pub set_status : LoanStatus → Loan → Loan
set_status to l = record l { status = to }

unfoldable pub transition : Loan → List LoanStatus → LoanStatus → Action (Unit {0})
unfolding update_loan
transition loan allowed_from to = do
  raise_if (not (any (same_loan_status loan.status) allowed_from))
      (state_error "A loan in this status cannot make this transition")
  modify (update_loan loan.id (set_status to))
  flush

-- The opening of every action that only the chairperson may take.
unfoldable pub as_chairperson : User → ℕ → Action Membership
as_chairperson actor chama_id = do
  query (get_chama_or_404 chama_id)
  actor_membership ← query (authorize_chama_write actor chama_id)
  lift (require_role actor_membership RoleName.chairperson)
  pure actor_membership
