-- ===== src/Ledger/Store.antt =====
-- app/repositories/ledger.py: the ledger's queries and its insert, with the unique constraints of
-- app/models/ledger_transaction.py, and `_resolve_idempotent_retry` of app/services/ledger.py.
use chamacore.Prelude.{
  ℕ, Bool, true, false, ◌&&◌, ◌||◌, not, Option, none, some, List, [], ◌∷◌, ◌++◌, ltb, ◌==◌, opt_eq,
  str_eq, if◌then◌else◌,
}
use chamacore.Prelude.Int.{ℤ, sub_ℕ}
use chamacore.Prelude.Table.{find?, any, select, sum_of}
use chamacore.Data.{
  Db, LedgerAccount, LedgerTransaction, LedgerEntry, Description, SourceType, same_source,
}
use chamacore.Data.Description.{
  contribution_confirmation, contribution_reversal, loan_disbursement, loan_repayment,
  loan_repayment_reversal, payout_completion, payout_reversal, registration_fee_payment,
  registration_fee_reversal, given,
}
use chamacore.Session.{Action, Result, ok, conflict, check, after}

abbrev pub is_account : ℕ → ℕ → LedgerAccount → Bool
is_account chama_id account_id a = a.id == account_id && a.chama_id == chama_id

unfoldable pub get_in_chama : ℕ → ℕ → Db → Option LedgerAccount
get_in_chama chama_id account_id db = find? (is_account chama_id account_id) db.accounts

abbrev pub has_source : SourceType → ℕ → LedgerTransaction → Bool
has_source source_type source_id t =
    same_source t.source_type source_type && t.source_id == source_id

unfoldable pub get_by_source : SourceType → ℕ → Db → Option LedgerTransaction
get_by_source source_type source_id db = find? (has_source source_type source_id) db.transactions

unfoldable pub get_by_id_in_chama : ℕ → ℕ → Db → Option LedgerTransaction
get_by_id_in_chama chama_id transaction_id db =
    find? (λ t. t.id == transaction_id && t.chama_id == chama_id) db.transactions

abbrev pub reverses : ℕ → LedgerTransaction → Bool
reverses transaction_id t = opt_eq t.reverses_transaction_id (some transaction_id)

unfoldable pub get_reversal_for : ℕ → Db → Option LedgerTransaction
get_reversal_for transaction_id db = find? (reverses transaction_id) db.transactions

-- Two reversals of one transaction.
abbrev pub same_reversal : Option ℕ → List LedgerTransaction → Bool
same_reversal none ts = false
same_reversal (some r) ts = any (reverses r) ts

-- `uq_ledger_transactions_source` and `uq_ledger_transactions_reversal`
unfoldable pub violates_unique : LedgerTransaction → Db → Bool
violates_unique t db =
    any (has_source t.source_type t.source_id) db.transactions
    || same_reversal t.reverses_transaction_id db.transactions

unfoldable pub add_transaction : LedgerTransaction → Db → Db
add_transaction t db = record db { transactions = t ∷ db.transactions }

-- Rows that other sessions commit now: this session sees them, and a rollback keeps them.
unfoldable pub land : List LedgerTransaction → Action (Unit {0})
land rows s = (
  ok tt,
  record s {
    work = record s.work { transactions = rows ++ s.work.transactions };
    flushed = record s.flushed { transactions = rows ++ s.flushed.transactions };
    saved = record s.saved { transactions = rows ++ s.saved.transactions };
  },
)

-- Balances are sums over the posted entries of a Chama.
abbrev pub debits_of : ℕ → List LedgerEntry → ℕ
debits_of account_id es = sum_of (λ e. e.debit) (select (λ e. e.account_id == account_id) es)

abbrev pub credits_of : ℕ → List LedgerEntry → ℕ
credits_of account_id es = sum_of (λ e. e.credit) (select (λ e. e.account_id == account_id) es)

abbrev in_chama : ℕ → LedgerTransaction → Bool
in_chama chama_id t = t.chama_id == chama_id

unfoldable pub account_debits : ℕ → ℕ → List LedgerTransaction → ℕ
account_debits chama_id account_id ts =
    sum_of (λ t. debits_of account_id t.entries) (select (in_chama chama_id) ts)

unfoldable pub account_credits : ℕ → ℕ → List LedgerTransaction → ℕ
account_credits chama_id account_id ts =
    sum_of (λ t. credits_of account_id t.entries) (select (in_chama chama_id) ts)

-- `balances_in_chama`, at one account; 0 where it has no entry.
unfoldable pub account_balance : ℕ → ℕ → Db → ℤ
unfolding account_debits account_credits
account_balance chama_id account_id db =
    sub_ℕ (account_debits chama_id account_id db.transactions)
      (account_credits chama_id account_id db.transactions)

unfoldable pub same_text : Description → Description → Bool
same_text (contribution_confirmation a) (contribution_confirmation b) = str_eq a b
same_text (contribution_reversal a) (contribution_reversal b) = str_eq a b
same_text (loan_disbursement a) (loan_disbursement b) = a == b
same_text (loan_repayment a) (loan_repayment b) = a == b
same_text (loan_repayment_reversal a) (loan_repayment_reversal b) = a == b
same_text (payout_completion a) (payout_completion b) = a == b
same_text (payout_reversal a) (payout_reversal b) = a == b
same_text (registration_fee_payment a) (registration_fee_payment b) = a == b
same_text (registration_fee_reversal a) (registration_fee_reversal b) = a == b
same_text (given a) (given b) = str_eq a b
same_text _ _ = false

unfoldable pub same_description : Option Description → Option Description → Bool
unfolding same_text
same_description none none = true
same_description (some a) (some b) = same_text a b
same_description _ _ = false

-- Tuples `(account_id, debit, credit)` in lexicographic order.
abbrev before : LedgerEntry → LedgerEntry → Bool
before a b =
    ltb a.account_id b.account_id
    || (a.account_id == b.account_id
        && (ltb a.debit b.debit || (a.debit == b.debit && ltb a.credit b.credit)))

insert_sorted : LedgerEntry → List LedgerEntry → List LedgerEntry
insert_sorted e [] = e ∷ []
insert_sorted e (x ∷ xs) =
    let rest = insert_sorted e xs in if before x e then x ∷ rest else e ∷ x ∷ xs

unfoldable pub sorted : List LedgerEntry → List LedgerEntry
unfolding insert_sorted
sorted [] = []
sorted (e ∷ es) = insert_sorted e (sorted es)

abbrev same_entry : LedgerEntry → LedgerEntry → Bool
same_entry a b = a.account_id == b.account_id && a.debit == b.debit && a.credit == b.credit

unfoldable pub same_entries : List LedgerEntry → List LedgerEntry → Bool
same_entries [] [] = true
same_entries (a ∷ as') (b ∷ bs) = same_entry a b && same_entries as' bs
same_entries _ _ = false

unfoldable pub resolve_idempotent_retry :
    LedgerTransaction
    → ℕ
    → Option Description
    → Option ℕ
    → List LedgerEntry
    → Result LedgerTransaction
unfolding same_description sorted same_entries
resolve_idempotent_retry existing chama_id description reverses_transaction_id entries =
    after
      (check (not (existing.chama_id == chama_id))
        (conflict "This source reference was already posted to another Chama"))
      λ _.
        after
          (check (not (same_description existing.description description))
            (conflict "This source reference was already posted with a different description"))
          λ _.
            after
              (check (not (opt_eq existing.reverses_transaction_id reverses_transaction_id)) (
                conflict
                  "This source reference was already posted with a different reversal reference"))
              λ _.
                after
                  (check (not (same_entries (sorted existing.entries) (sorted entries))) (
                    conflict
                      "This source reference was already posted with different ledger entries"))
                  λ _. ok existing
