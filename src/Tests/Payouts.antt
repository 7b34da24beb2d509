-- ===== src/Tests/Payouts.antt =====
-- The payout theorems at a concrete payout.
use chamacore.Prelude.{◌≡◌, refl, true, none, some, [], ◌∷◌, arith}
use chamacore.Prelude.Int.{◌+ℤ◌, ◌-ℤ◌}
use chamacore.Prelude.Table.{All}
use chamacore.Access.{
  get_chama_or_404, authorize_chama_write, authorize_chama_access, has_role, require_roles,
}
use chamacore.Audit.{record_event, add_event}
use chamacore.Data.{
  Db, Payout, PayoutStatus, LedgerTransaction, SourceType, Description, AuditEvent, same_source,
  same_role, same_payout_status,
}
use chamacore.Finance.{get_account_id, available_chama_cash, lock_cash_account}
use chamacore.Money.{quantize}
use chamacore.Session.{Session, fresh, ok, modify, flush, commit, ◌>>=◌}
use chamacore.Ledger.{post_transaction}
use chamacore.Ledger.Lines.{
  validate_lines, validate_loop, validate_line, imbalance, normalize_lines, normalize_line,
  to_quantized, entry_of,
}
use chamacore.Ledger.Store.{
  account_balance, account_debits, account_credits, add_transaction, get_in_chama, get_by_source,
  land, violates_unique,
}
use chamacore.Payout.{complete, as_officer}
use chamacore.Payout.Completion.{Paid, complete_pays}
use chamacore.Payout.Reads.{may_see_payout, list_by_chama, list_by_chama-may_see_payout}
use chamacore.Payout.Store.{chama_payout, get_chama_payout, update_payout, transition}
use chamacore.Tests.{january, env_with, chair, chair_membership, books}

-- A payout of 500.00 to another member.
abbrev payout_in : PayoutStatus → Payout
payout_in status = record {
  id = 60;
  chama_id = 1;
  membership_id = 22;
  amount = 50000;
  status = status;
  requested_by_user_id = 2;
  approved_by_user_id = some 1;
  processed_by_user_id = some 1;
  completed_by_user_id = none;
  failure_reason = none;
  note = none;
  approved_at = none;
  processed_at = none;
  completed_at = none;
}

abbrev before_completion : Db
before_completion = record (books [] []) { payouts = payout_in PayoutStatus.processing ∷ [] }

list_by_chama-may_see_payout_example :
    All (λ p. may_see_payout chair_membership 1 p ≡ true) (payout_in PayoutStatus.processing ∷ [])
unfolding authorize_chama_access list_by_chama get_chama_or_404 has_role same_role
list_by_chama-may_see_payout_example =
    list_by_chama-may_see_payout chair 1 (some 10) 0 before_completion chair_membership
      (payout_in PayoutStatus.processing ∷ []) refl refl

-- The completed payout, and its posting.
abbrev completed_payout : Payout
completed_payout = record (payout_in PayoutStatus.completed) {
  completed_by_user_id = some 1;
  completed_at = some january;
}

abbrev posted : LedgerTransaction
posted = record {
  id = 101;
  chama_id = 1;
  source_type = SourceType.payout_completion;
  source_id = 60;
  description = some (Description.payout_completion 60);
  posted_by_user_id = 1;
  reverses_transaction_id = none;
  entries =
      record { account_id = 3; debit = 50000; credit = 0 }
      ∷ record { account_id = 1; debit = 0; credit = 50000 }
      ∷ [];
}

abbrev event : AuditEvent
event = record {
  chama_id = some 1;
  actor_user_id = some 1;
  action = "payout.complete";
  resource_type = "payout";
  resource_id = some 60;
  success = true;
}

abbrev posted_db : Db
posted_db = record before_completion {
  payouts = completed_payout ∷ [];
  transactions = posted ∷ before_completion.transactions;
}

abbrev completion : Session
completion = fresh (record posted_db { audit = event ∷ [] }) (posted_db ∷ before_completion ∷ [])

completes :
    complete (env_with 100) chair 1 60 (fresh before_completion [])
    ≡ (ok completed_payout, completion)
unfolding complete as_officer get_chama_payout chama_payout update_payout transition same_role
    same_payout_status record_event add_event get_account_id available_chama_cash lock_cash_account
    require_roles account_balance account_debits account_credits post_transaction ◌>>=◌
    get_chama_or_404 authorize_chama_write authorize_chama_access normalize_lines normalize_line
    to_quantized quantize validate_lines validate_loop validate_line get_in_chama imbalance ◌+ℤ◌
    ◌-ℤ◌ same_source get_by_source land violates_unique add_transaction entry_of modify flush commit
completes = refl

complete_pays_example :
    Paid 1 1 3 (payout_in PayoutStatus.processing) before_completion completed_payout completion
unfolding get_by_source get_account_id same_source
complete_pays_example =
    complete_pays (env_with 100) chair 1 1 3 (payout_in PayoutStatus.processing) before_completion
      [] refl refl refl refl refl (λ e. absurd (omega (arith, e))) completed_payout completion
      completes
