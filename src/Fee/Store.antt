-- ===== src/Fee/Store.antt =====
-- app/repositories/registration_fee.py and registration_fee_payment.py, with the index and the check of
-- app/models/registration_fee_payment.py.
use chamacore.Prelude.{ℕ, Bool, true, false, ◌&&◌, ◌||◌, Option, List, ◌∷◌, ◌==◌}
use chamacore.Prelude.Table.{find?, any, select, update, oldest_first}
use chamacore.Data.{
  Db, RegistrationFee, RegistrationFeePayment, RegistrationFeeStatus, RegistrationFeePaymentStatus,
}
use chamacore.Session.{Result, state_error, or_raise}

abbrev pub fee_for : ℕ → RegistrationFee → Bool
fee_for membership_id f = f.membership_id == membership_id

abbrev pub is_fee : ℕ → RegistrationFee → Bool
is_fee fee_id f = f.id == fee_id

unfoldable pub get_by_membership : ℕ → Db → Result RegistrationFee
get_by_membership membership_id db =
    or_raise (find? (fee_for membership_id) db.fees)
      (state_error "This membership has no registration fee record")

unfoldable pub update_fee : ℕ → (RegistrationFee → RegistrationFee) → Db → Db
update_fee fee_id f db = record db { fees = update (is_fee fee_id) f db.fees }

abbrev pub set_status : RegistrationFeeStatus → RegistrationFee → RegistrationFee
set_status to f = record f { status = to }

abbrev pub is_confirmed : RegistrationFeePaymentStatus → Bool
is_confirmed RegistrationFeePaymentStatus.confirmed = true
is_confirmed RegistrationFeePaymentStatus.reversed = false

abbrev pub confirmed_for : ℕ → RegistrationFeePayment → Bool
confirmed_for fee_id p = p.fee_id == fee_id && is_confirmed p.status

unfoldable pub confirmed_by_fee : ℕ → Db → Option RegistrationFeePayment
confirmed_by_fee fee_id db = find? (confirmed_for fee_id) db.fee_payments

-- A payment is inserted when it is paid, so the order by `paid_at` is the order of insertion.
unfoldable pub list_by_fee : ℕ → Db → List RegistrationFeePayment
list_by_fee fee_id db = oldest_first (select (λ p. p.fee_id == fee_id) db.fee_payments)

-- `ck_registration_fee_payments_amount_positive` and `uq_registration_fee_payments_fee_confirmed`
unfoldable pub violates : RegistrationFeePayment → Db → Bool
violates p db = p.amount == 0 || any (confirmed_for p.fee_id) db.fee_payments

unfoldable pub add_payment : RegistrationFeePayment → Db → Db
add_payment p db = record db { fee_payments = p ∷ db.fee_payments }

abbrev is_payment : ℕ → RegistrationFeePayment → Bool
is_payment payment_id p = p.id == payment_id

unfoldable pub reverse_payment_row : ℕ → Db → Db
reverse_payment_row payment_id db = record db {
  fee_payments =
      update (is_payment payment_id)
        (λ p. record p { status = RegistrationFeePaymentStatus.reversed }) db.fee_payments;
}
