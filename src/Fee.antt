-- ===== src/Fee.antt =====
-- app/services/registration_fee.py: a member's registration fee is owed, waived or paid, and a payment
-- is posted to the ledger (ADR-022). `Store` has the queries and the row updates.
pub mod Store
pub mod Books
pub mod Payment
use chamacore.Prelude.{
  ℕ, Bool, true, false, not, ◌||◌, Option, none, some, List, [], ◌∷◌, is_some, if◌then◌else◌,
}
use chamacore.Data.{
  Db, Env, User, RegistrationFee, RegistrationFeePayment, RegistrationFeeStatus,
  RegistrationFeePaymentStatus, LedgerTransaction, Description, SourceType, same_fee_status,
  cash_code, registration_fees_code,
}
use chamacore.Money.{cents, no_amount}
use chamacore.Session.{
  Action, Result, ok, conflict, state_error, integrity_error, raise, raise_if, gets, query, lift,
  pure, modify, flush, commit, rollback, or_raise, after, except_integrity, ◌>>=◌, ◌>>◌,
}
use chamacore.Access.{
  get_chama_or_404, authorize_chama_access, get_target_membership, require_own_or_leadership,
}
use chamacore.Audit.{record_event}
use chamacore.Finance.{get_account_id}
use chamacore.Ledger.{post_transaction, reverse_transaction}
use chamacore.Ledger.Store.{get_by_source}
use chamacore.Loan.Store.{as_chairperson}
use chamacore.Payout.{as_officer}
use Store.{
  get_by_membership, update_fee, set_status, is_confirmed, confirmed_by_fee, list_by_fee, violates,
  add_payment, reverse_payment_row,
}

-- The opening of what a member may see of their own fee, and an officer of any.
pub as_viewer : User → ℕ → ℕ → Action RegistrationFee
as_viewer actor chama_id membership_id = do
  query (get_chama_or_404 chama_id)
  caller ← query (authorize_chama_access actor chama_id)
  membership ← query (get_target_membership chama_id membership_id)
  lift (require_own_or_leadership caller membership.id)
  query (get_by_membership membership.id)

pub get_for_membership : User → ℕ → ℕ → Action RegistrationFee
unfolding as_viewer
get_for_membership actor chama_id membership_id = as_viewer actor chama_id membership_id

pub list_payments : User → ℕ → ℕ → Action (List RegistrationFeePayment)
unfolding as_viewer
list_payments actor chama_id membership_id = do
  fee ← as_viewer actor chama_id membership_id
  gets (list_by_fee fee.id)

-- The fee of a membership of the Chama.
unfoldable pub fee_of : ℕ → ℕ → Action RegistrationFee
fee_of chama_id membership_id = do
  membership ← query (get_target_membership chama_id membership_id)
  query (get_by_membership membership.id)

-- A service returns the fee as it has changed it.
abbrev returned : RegistrationFee → RegistrationFeeStatus → Action RegistrationFee
returned fee to = pure (set_status to fee)

pub waive : User → ℕ → ℕ → Action RegistrationFee
unfolding fee_of
waive actor chama_id membership_id = do
  as_chairperson actor chama_id
  fee ← fee_of chama_id membership_id
  raise_if (not (same_fee_status fee.status RegistrationFeeStatus.owed))
      (state_error "Only an OWED registration fee can be waived")
  modify (update_fee fee.id (set_status RegistrationFeeStatus.waived))
  record_event actor chama_id "registration_fee.waive" "registration_fee" fee.id
  commit
  returned fee RegistrationFeeStatus.waived

unfoldable pub new_payment : Env → User → ℕ → RegistrationFee → RegistrationFeePayment
new_payment env actor chama_id fee = record {
  id = env.row_id;
  chama_id = chama_id;
  fee_id = fee.id;
  membership_id = fee.membership_id;
  amount = fee.amount;
  status = RegistrationFeePaymentStatus.confirmed;
  recorded_by_user_id = actor.id;
  paid_at = env.now_utc;
}

-- `payments.create`, whose flush is where the database refuses a second confirmed payment.
unfoldable pub create_payment : RegistrationFeePayment → Action (Unit {0})
create_payment payment = do
  modify (add_payment payment)
  refused ← gets (violates payment)
  raise_if refused integrity_error
  flush

-- The ledger posting of a payment: debit Cash, credit Registration Fees.
unfoldable pub post_fee :
    Env → User → ℕ → RegistrationFee → RegistrationFeePayment → Action LedgerTransaction
post_fee env actor chama_id fee payment = do
  cash_account ← query (get_account_id chama_id cash_code)
  fees_account ← query (get_account_id chama_id registration_fees_code)
  post_transaction env actor (record {
    chama_id = chama_id;
    source_type = SourceType.registration_fee_payment;
    source_id = payment.id;
    description = some (Description.registration_fee_payment fee.id);
    lines =
        record { account_id = cash_account; debit = cents fee.amount; credit = no_amount }
        ∷ record { account_id = fees_account; debit = no_amount; credit = cents fee.amount }
        ∷ [];
    reverses_transaction_id = none;
    require_membership = true;
  })

unfoldable pub lost_race : Action LedgerTransaction
lost_race = do
  rollback
  raise (conflict "A confirmed payment already exists for this registration fee")

unfoldable pub pay_owed : Env → User → ℕ → RegistrationFee → Action RegistrationFee
unfolding new_payment create_payment post_fee lost_race
pay_owed env actor chama_id fee = do
  let payment = new_payment env actor chama_id fee
  create_payment payment
  modify (update_fee fee.id (set_status RegistrationFeeStatus.paid))
  except_integrity (post_fee env actor chama_id fee payment) lost_race
  record_event actor chama_id "registration_fee.pay" "registration_fee_payment" payment.id
  commit
  returned fee RegistrationFeeStatus.paid

unfoldable pub pay_in :
    RegistrationFeeStatus → Env → User → ℕ → RegistrationFee → Action RegistrationFee
unfolding pay_owed
pay_in RegistrationFeeStatus.paid env actor chama_id fee = pure fee
pay_in RegistrationFeeStatus.owed env actor chama_id fee = pay_owed env actor chama_id fee
pay_in RegistrationFeeStatus.waived env actor chama_id fee =
    raise (state_error "Only an OWED registration fee can be paid")

unfoldable pub pay : Env → User → ℕ → ℕ → Action RegistrationFee
unfolding fee_of pay_in
pay env actor chama_id membership_id = do
  as_officer actor chama_id
  fee ← fee_of chama_id membership_id
  pay_in fee.status env actor chama_id fee

-- `payment is None or payment.status != CONFIRMED`
pub confirmed_payment : Option RegistrationFeePayment → Result RegistrationFeePayment
confirmed_payment found =
    after (or_raise found (state_error "This fee has no confirmed payment to reverse")) λ payment.
      if is_confirmed payment.status
      then ok payment
      else Result.err (state_error "This fee has no confirmed payment to reverse")

pub reverse_posting :
    Env → User → ℕ → RegistrationFee → Option LedgerTransaction → Action (Unit {0})
reverse_posting env actor chama_id fee none = pure tt
reverse_posting env actor chama_id fee (some posting) = do
  reverse_transaction env actor chama_id posting.id
      (some (Description.registration_fee_reversal fee.id))
  pure tt

pub reverse_payment : Env → User → ℕ → ℕ → Action RegistrationFee
unfolding fee_of confirmed_payment reverse_posting
reverse_payment env actor chama_id membership_id = do
  as_chairperson actor chama_id
  fee ← fee_of chama_id membership_id
  raise_if (not (same_fee_status fee.status RegistrationFeeStatus.paid))
      (state_error "Only a PAID registration fee can have its payment reversed")
  found ← gets (confirmed_by_fee fee.id)
  payment ← lift (confirmed_payment found)
  posting ← gets (get_by_source SourceType.registration_fee_payment payment.id)
  reverse_posting env actor chama_id fee posting
  modify (reverse_payment_row payment.id)
  modify (update_fee fee.id (set_status RegistrationFeeStatus.owed))
  record_event actor chama_id "registration_fee.pay_reversal" "registration_fee_payment" payment.id
  commit
  returned fee RegistrationFeeStatus.owed
