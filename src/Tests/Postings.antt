-- ===== src/Tests/Postings.antt =====
-- The ledger's theorems at concrete postings.
use chamacore.Prelude.{◌+◌, ◌*◌, ◌^◌, ◌≤◌, ◌≡◌, refl, ◌⊎◌, ◌↔◌, none, some, List, [], ◌∷◌, true}
use chamacore.Prelude.Int.{pos, negsuc, ◌+ℤ◌, ◌-ℤ◌, neg_part, pos_part}
use chamacore.Data.{Db, LedgerTransaction, SourceType, same_source}
use chamacore.Access.{get_chama_or_404, authorize_chama_write, authorize_chama_access}
use chamacore.Money.{cents, no_amount, quantize}
use chamacore.Money.Rounding.{size, quantize_nearest}
use chamacore.Session.{Session, fresh, ok, modify, flush, commit, ◌>>=◌}
use chamacore.Ledger.{Posting, post_transaction, reverse_transaction}
use chamacore.Ledger.Trial.{
  running, chama_entries, account_balance-running, trial_balance, trial_balance-zero, DistinctIds,
}
use chamacore.Ledger.Invariant.{IsSoundSession, alone-Lands, post_transaction-IsSoundSession}
use chamacore.Ledger.Lines.{
  Line, validate_lines, validate_loop, validate_line, imbalance, normalize_lines, normalize_line,
  to_quantized, entry_of,
}
use chamacore.Ledger.Lines.Accepted.{IsPostable, validate_lines_iff}
use chamacore.Ledger.Outcome.{Posted, Retried, post_transaction-Outcome}
use chamacore.Ledger.Retry.{post_transaction_retry}
use chamacore.Ledger.Reversal.{Cancels, reverse_transaction-Cancels}
use chamacore.Ledger.Store.{
  account_balance, add_transaction, get_by_id_in_chama, get_reversal_for, get_in_chama,
  get_by_source, land, violates_unique,
}
use chamacore.Tests.{env_with, chair, books, deposit, books-IsSoundDb}

abbrev db : Db
db = books [] []

-- Another deposit, of 12.35.
abbrev p : Posting
p = record {
  chama_id = 1;
  source_type = SourceType.contribution_confirmation;
  source_id = 91;
  description = none;
  lines =
      record { account_id = 1; debit = cents 1235; credit = no_amount }
      ∷ record { account_id = 3; debit = no_amount; credit = cents 1235 }
      ∷ [];
  reverses_transaction_id = none;
  require_membership = true;
}

abbrev tx : LedgerTransaction
tx = record {
  id = 101;
  chama_id = 1;
  source_type = SourceType.contribution_confirmation;
  source_id = 91;
  description = none;
  posted_by_user_id = 1;
  reverses_transaction_id = none;
  entries =
      record { account_id = 1; debit = 1235; credit = 0 }
      ∷ record { account_id = 3; debit = 0; credit = 1235 }
      ∷ [];
}

abbrev u : Session
u = fresh (record db { transactions = tx ∷ deposit ∷ [] }) (db ∷ [])

posts : post_transaction (env_with 100) chair p (fresh db []) ≡ (ok tx, u)
unfolding post_transaction ◌>>=◌ get_chama_or_404 authorize_chama_write authorize_chama_access
    normalize_lines normalize_line to_quantized quantize validate_lines validate_loop validate_line
    get_in_chama imbalance ◌+ℤ◌ ◌-ℤ◌ same_source get_by_source land violates_unique add_transaction
    entry_of modify flush commit
posts = refl

post_transaction_retry_example : post_transaction (env_with 200) chair p u ≡ (ok tx, u)
post_transaction_retry_example =
    post_transaction_retry (env_with 100) chair p db [] tx u posts (env_with 200)

abbrev reversal : LedgerTransaction
reversal = record {
  id = 101;
  chama_id = 1;
  source_type = SourceType.ledger_reversal;
  source_id = 400;
  description = none;
  posted_by_user_id = 1;
  reverses_transaction_id = some 400;
  entries =
      record { account_id = 1; debit = 0; credit = 500000 }
      ∷ record { account_id = 3; debit = 500000; credit = 0 }
      ∷ [];
}

abbrev reversed : Session
reversed = fresh (record db { transactions = reversal ∷ deposit ∷ [] }) (db ∷ [])

reverses :
    reverse_transaction (env_with 100) chair 1 400 none (fresh db []) ≡ (ok reversal, reversed)
unfolding reverse_transaction post_transaction ◌>>=◌ get_chama_or_404 authorize_chama_write
    authorize_chama_access normalize_lines normalize_line to_quantized quantize validate_lines
    validate_loop validate_line get_in_chama imbalance ◌+ℤ◌ ◌-ℤ◌ same_source get_by_source
    get_by_id_in_chama get_reversal_for land violates_unique add_transaction entry_of modify flush
    commit
reverses = refl

reverse_transaction-Cancels_example :
    (original : LedgerTransaction) × (get_by_id_in_chama 1 400 db ≡ some original)
    × (original.reverses_transaction_id ≡ none)
    × ((reversed ≡ fresh db []) ⊎ Cancels 1 original (fresh db []) reversed)
reverse_transaction-Cancels_example =
    reverse_transaction-Cancels (env_with 100) chair 1 400 none (fresh db [])
      (record { flushed = refl; saved = refl }) refl reversal reversed reverses

abbrev lines : List Line
lines =
    record { account_id = 1; debit = pos 1235; credit = pos 0 }
    ∷ record { account_id = 3; debit = pos 0; credit = pos 1235 }
    ∷ []

validate_lines_iff_example : (validate_lines 1 lines db ≡ ok tt) ↔ IsPostable 1 db lines
validate_lines_iff_example = validate_lines_iff 1 lines db

post_transaction-Outcome_example :
    Posted (env_with 100) chair p (fresh db []) tx u ⊎ Retried p (fresh db []) tx u
post_transaction-Outcome_example =
    post_transaction-Outcome (env_with 100) chair p (fresh db []) refl refl tx u posts

start : IsSoundSession (fresh db [])
start = record {
  book = books-IsSoundDb [] [];
  durable = books-IsSoundDb [] [];
  history = tt;
  same_transactions = refl;
  same_accounts = refl;
}

post_transaction-IsSoundSession_example :
    IsSoundSession (post_transaction (env_with 100) chair p (fresh db [])).1
post_transaction-IsSoundSession_example =
    post_transaction-IsSoundSession (env_with 100) chair p (fresh db []) start
      (alone-Lands (env_with 100) (fresh db []) refl start)

account_balance-running_example :
    account_balance 1 1 db ≡ running 1 (chama_entries 1 db.transactions)
account_balance-running_example = account_balance-running 1 1 db

trial_balance-zero_example : trial_balance 1 db db.accounts ≡ pos 0
unfolding DistinctIds
trial_balance-zero_example =
    trial_balance-zero 1 db (books-IsSoundDb [] []) (refl, (refl, (refl, (refl, tt))))

-- -1.005 becomes -1.01.
quantize_nearest_example :
    let q = quantize (negsuc 1004) 3 in
    (2 * (10 ^ 3 * size q) ≤ 2 * (size (negsuc 1004) * 100) + 10 ^ 3)
    × (2 * (size (negsuc 1004) * 100) ≤ 2 * (10 ^ 3 * size q) + 10 ^ 3)
    × (neg_part q * pos_part (negsuc 1004) ≡ 0)
    × (pos_part q * neg_part (negsuc 1004) ≡ 0)
quantize_nearest_example = quantize_nearest (negsuc 1004) 3
