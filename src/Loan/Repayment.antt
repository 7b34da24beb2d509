-- ===== src/Loan/Repayment.antt =====
-- `record_repayment` and `reverse_repayment` of app/services/loan.py.
use chamacore.Prelude.{
  ℕ, Bool, true, false, ◌||◌, not, String, Option, none, some, List, [], ◌∷◌, ◌++◌, ltb, ◌==◌,
  if◌then◌else◌,
}
use chamacore.Prelude.Int.{ℤ, pos, pos_part, ltb_ℤ, min_ℤ, ◌+ℤ◌, ◌-ℤ◌}
use chamacore.Prelude.Table.{find?, update}
use chamacore.Data.{
  Db, Env, User, Loan, LoanRepayment, LoanStatus, LoanRepaymentStatus, LedgerTransaction,
  Description, SourceType, RoleName, cash_code, loans_receivable_code, interest_income_code,
}
use chamacore.Money.{cents, no_amount}
use chamacore.Session.{
  Action, Result, ok, not_found, state_error, integrity_error, or_raise, check, after, raise_if,
  gets, fetch, query, lift, pure, modify, flush, commit, ◌>>=◌, ◌>>◌,
}
use chamacore.Access.{get_chama_or_404, authorize_chama_write, require_roles}
use chamacore.Audit.{record_event}
use chamacore.Finance.{get_account_id}
use chamacore.Ledger.{post_transaction, reverse_transaction}
use chamacore.Ledger.Lines.{LedgerLine, positive, negative}
use chamacore.Ledger.Store.{get_by_source}
use chamacore.Loan.Balance.{
  outstanding_for, status_from_outstanding, status_after_reversal, is_confirmed,
}
use chamacore.Loan.Store.{get_chama_loan, update_loan, set_status, as_chairperson}

-- How an amount is split: interest first. Both parts are integers, for the source's subtraction.
pub record Split : Type 0 where
  pub principal_portion : ℤ
  pub interest_portion : ℤ

unfoldable pub allocate : ℕ → ℤ → Split
allocate amount outstanding_interest =
    let interest = min_ℤ (pos amount) outstanding_interest in
    record { principal_portion = pos amount -ℤ interest; interest_portion = interest }

new_repayment : Env → User → Loan → ℕ → Split → Option String → LoanRepayment
new_repayment env actor loan amount split note = record {
  id = env.row_id;
  chama_id = loan.chama_id;
  loan_id = loan.id;
  amount = amount;
  principal_portion = pos_part split.principal_portion;
  interest_portion = pos_part split.interest_portion;
  status = LoanRepaymentStatus.confirmed;
  recorded_by_user_id = actor.id;
  note = note;
}

unfoldable pub add_repayment : LoanRepayment → Db → Db
add_repayment r db = record db { repayments = r ∷ db.repayments }

-- `LoanRepaymentRepository.create`, with the constraints on the amount and the portions.
unfoldable pub create : Env → User → Loan → ℕ → Split → Option String → Action LoanRepayment
unfolding new_repayment add_repayment
create env actor loan amount split note = do
  raise_if
      (not (ltb 0 amount) || negative split.principal_portion || negative split.interest_portion)
      integrity_error
  let repayment = new_repayment env actor loan amount split note
  modify (add_repayment repayment)
  flush
  pure repayment

credit_if_positive : ℕ → ℤ → List LedgerLine
credit_if_positive account_id portion =
    if positive portion
    then record { account_id = account_id; debit = no_amount; credit = cents (pos_part portion) }
      ∷ []
    else []

-- The account of a portion is looked up only if the portion is positive.
account_if_positive : ℕ → String → ℤ → Db → Result ℕ
account_if_positive chama_id code portion db =
    let account = get_account_id chama_id code db in if positive portion then account else ok 0

unfoldable pub post_repayment :
    Env → User → ℕ → Loan → LoanRepayment → Split → Action LedgerTransaction
unfolding credit_if_positive account_if_positive
post_repayment env actor chama_id loan repayment split = do
  cash_account ← query (get_account_id chama_id cash_code)
  receivable ← query (account_if_positive chama_id loans_receivable_code split.principal_portion)
  income ← query (account_if_positive chama_id interest_income_code split.interest_portion)
  post_transaction env actor (record {
    chama_id = chama_id;
    source_type = SourceType.loan_repayment;
    source_id = repayment.id;
    description = some (Description.loan_repayment loan.id);
    lines =
        record { account_id = cash_account; debit = cents repayment.amount; credit = no_amount }
        ∷ (credit_if_positive receivable split.principal_portion
            ++ credit_if_positive income split.interest_portion);
    reverses_transaction_id = none;
    require_membership = true;
  })

abbrev pub accepts_repayment : LoanStatus → Bool
accepts_repayment LoanStatus.disbursed = true
accepts_repayment LoanStatus.partially_repaid = true
accepts_repayment _ = false

-- Everything after the guards.
unfoldable pub take_repayment : Env → User → ℕ → Loan → ℕ → ℤ → ℤ → Option String → Action Loan
unfolding create post_repayment
take_repayment env actor chama_id loan amount outstanding_principal outstanding_interest note = do
  let split = allocate amount outstanding_interest
  repayment ← create env actor loan amount split note
  modify (
      update_loan loan.id (
        set_status (
          status_from_outstanding loan (outstanding_principal -ℤ split.principal_portion)
            (outstanding_interest -ℤ split.interest_portion))))
  flush
  post_repayment env actor chama_id loan repayment split
  record_event actor chama_id "loan.repayment" "loan_repayment" repayment.id
  commit
  get_chama_loan chama_id loan.id

unfoldable pub record_repayment : Env → User → ℕ → ℕ → ℕ → Option String → Action Loan
unfolding take_repayment
record_repayment env actor chama_id loan_id amount note = do
  query (get_chama_or_404 chama_id)
  actor_membership ← query (authorize_chama_write actor chama_id)
  lift (require_roles actor_membership (RoleName.chairperson ∷ RoleName.treasurer ∷ []))
  loan ← get_chama_loan chama_id loan_id
  raise_if (not (accepts_repayment loan.status))
      (state_error "Only a disbursed loan can receive repayments")
  outstanding ← gets (outstanding_for loan)
  raise_if (ltb_ℤ (outstanding.0 +ℤ outstanding.1) (pos amount))
      (state_error "Repayment exceeds the loan's outstanding balance")
  take_repayment env actor chama_id loan amount outstanding.0 outstanding.1 note

abbrev pub is_repayment : ℕ → LoanRepayment → Bool
is_repayment repayment_id r = r.id == repayment_id

unfoldable pub update_repayment : ℕ → (LoanRepayment → LoanRepayment) → Db → Db
update_repayment repayment_id f db = record db {
  repayments = update (is_repayment repayment_id) f db.repayments;
}

unfoldable pub get_repayment : ℕ → Loan → ℕ → Db → Result LoanRepayment
get_repayment chama_id loan repayment_id db =
    after
      (or_raise (find? (is_repayment repayment_id) db.repayments)
        (not_found "Repayment not found for this loan in this Chama"))
      λ r.
        after
          (check (not (r.loan_id == loan.id) || not (r.chama_id == chama_id))
            (not_found "Repayment not found for this loan in this Chama"))
          λ _. ok r

unfoldable pub reverse_posting :
    Env → User → ℕ → Loan → Option LedgerTransaction → Action (Unit {0})
reverse_posting env actor chama_id loan none = pure tt
reverse_posting env actor chama_id loan (some posting) = do
  reverse_transaction env actor chama_id posting.id
      (some (Description.loan_repayment_reversal loan.id))
  pure tt

-- The end of a reversal. Nothing is flushed between the repayment's new status and the query for the
-- confirmed repayments, so the query still counts it.
unfoldable pub settle_reversal : User → ℕ → Loan → LoanRepayment → Action Loan
settle_reversal actor chama_id loan repayment = do
  modify (update_repayment repayment.id λ r. record r { status = LoanRepaymentStatus.reversed })
  status ← gets (status_after_reversal loan)
  modify (update_loan loan.id (set_status status))
  record_event actor chama_id "loan.repayment_reversal" "loan_repayment" repayment.id
  commit
  get_chama_loan chama_id loan.id

unfoldable pub reverse_repayment : Env → User → ℕ → ℕ → ℕ → Action Loan
unfolding reverse_posting
reverse_repayment env actor chama_id loan_id repayment_id = do
  as_chairperson actor chama_id
  loan ← get_chama_loan chama_id loan_id
  found ← fetch (get_repayment chama_id loan repayment_id)
  repayment ← lift found
  raise_if (not (is_confirmed repayment.status))
      (state_error "Only a confirmed repayment can be reversed")
  posting ← gets (get_by_source SourceType.loan_repayment repayment.id)
  reverse_posting env actor chama_id loan posting
  settle_reversal actor chama_id loan repayment
