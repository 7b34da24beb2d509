-- ===== src/Tests/Fees.antt =====
-- The theorem on registration fees at a fee of 500.00.
use chamacore.Prelude.{◌≡◌, refl, true, none, some, [], ◌∷◌, arith}
use chamacore.Prelude.Int.{◌+ℤ◌, ◌-ℤ◌}
use chamacore.Access.{
  get_chama_or_404, authorize_chama_write, authorize_chama_access, membership_of, require_roles,
  get_target_membership,
}
use chamacore.Audit.{record_event, add_event}
use chamacore.Data.{
  Db, LedgerAccountType, LedgerTransaction, SourceType, Description, AuditEvent, RegistrationFee,
  RegistrationFeeStatus, registration_fees_code, same_source, same_role,
}
use chamacore.Fee.{pay, new_payment, fee_of, pay_in, pay_owed, create_payment, post_fee, lost_race}
use chamacore.Fee.Payment.{Paid, pay_pays}
use chamacore.Fee.Store.{get_by_membership, update_fee, set_status, violates, add_payment}
use chamacore.Finance.{get_account_id}
use chamacore.Ledger.{post_transaction}
use chamacore.Ledger.Lines.{
  validate_lines, validate_loop, validate_line, imbalance, normalize_lines, normalize_line,
  to_quantized, entry_of,
}
use chamacore.Ledger.Store.{add_transaction, get_in_chama, get_by_source, land, violates_unique}
use chamacore.Money.{quantize}
use chamacore.Payout.{as_officer}
use chamacore.Session.{Session, fresh, ok, modify, flush, commit, except_integrity, handle, ◌>>=◌}
use chamacore.Tests.{chair, chair_membership, env_with, books, account, deposit}

abbrev fee : RegistrationFee
fee = record { id = 50; membership_id = 21; amount = 50000; status = RegistrationFeeStatus.owed }

abbrev before : Db
before = record (books [] []) {
  accounts = account 9 registration_fees_code LedgerAccountType.revenue ∷ (books [] []).accounts;
  fees = fee ∷ [];
}

abbrev posting : LedgerTransaction
posting = record {
  id = 501;
  chama_id = 1;
  source_type = SourceType.registration_fee_payment;
  source_id = 500;
  description = some (Description.registration_fee_payment 50);
  posted_by_user_id = 1;
  reverses_transaction_id = none;
  entries =
      record { account_id = 1; debit = 50000; credit = 0 }
      ∷ record { account_id = 9; debit = 0; credit = 50000 }
      ∷ [];
}

abbrev paid_fee : RegistrationFee
paid_fee = set_status RegistrationFeeStatus.paid fee

abbrev posted : Db
posted = record before {
  fees = paid_fee ∷ [];
  fee_payments = new_payment (env_with 500) chair 1 fee ∷ [];
  transactions = posting ∷ deposit ∷ [];
}

abbrev event : AuditEvent
event = record {
  chama_id = some 1;
  actor_user_id = some 1;
  action = "registration_fee.pay";
  resource_type = "registration_fee_payment";
  resource_id = some 500;
  success = true;
}

abbrev after : Session
after = fresh (record posted { audit = event ∷ [] }) (posted ∷ before ∷ [])

pays : pay (env_with 500) chair 1 21 (fresh before []) ≡ (ok paid_fee, after)
unfolding pay as_officer fee_of pay_in pay_owed create_payment post_fee lost_race new_payment
    get_by_membership update_fee violates add_payment except_integrity handle same_role record_event
    add_event get_account_id require_roles get_target_membership post_transaction ◌>>=◌
    get_chama_or_404 authorize_chama_write authorize_chama_access membership_of normalize_lines
    normalize_line to_quantized quantize validate_lines validate_loop validate_line get_in_chama
    imbalance ◌+ℤ◌ ◌-ℤ◌ same_source get_by_source land violates_unique add_transaction entry_of
    modify flush commit
pays = refl

pay_pays_example :
    (paid_fee ≡ set_status RegistrationFeeStatus.paid fee)
    × Paid (env_with 500) chair 1 1 9 fee before after
unfolding get_by_source get_account_id get_target_membership get_by_membership same_source
pay_pays_example =
    pay_pays (env_with 500) chair 1 1 9 21 chair_membership fee before [] refl refl refl refl
      (λ e. absurd (omega (arith, e))) refl refl refl paid_fee after pays
