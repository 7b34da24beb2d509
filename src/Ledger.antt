-- ===== src/Ledger.antt =====
-- The double-entry ledger: app/services/ledger.py over app/repositories/ledger.py.
-- `Lines` normalises and validates the lines of a posting, `Store` holds the queries and the insert
-- with the unique constraints, `Chart` seeds the accounts; this file posts and reverses.
pub mod Lines
pub mod Store
pub mod Book
pub mod Invariant
pub mod Retry
pub mod Outcome
pub mod Balances
pub mod Trial
pub mod Sound
pub mod Transfer
pub mod Reversal
pub mod Chart
use chamacore.Prelude.{
  ℕ, Bool, true, false, ◌&&◌, not, Option, none, some, String, List, map, is_some, if◌then◌else◌,
}
use chamacore.Prelude.Table.{find?}
use chamacore.Data.{
  Db, Env, User, LedgerTransaction, LedgerEntry, Description, SourceType, same_source,
}
use chamacore.Money.{cents}
use chamacore.Session.{
  Action, Result, ok, err, AppError, conflict, state_error, integrity_error, pure, raise, gets,
  query, lift, raise_if, modify, flush, commit, rollback, or_raise, check, ◌>>=◌, ◌>>◌,
}
use chamacore.Access.{get_chama_or_404, authorize_chama_write}
use Lines.{LedgerLine, Line, normalize_lines, validate_lines, entry_of}
use Store.{
  get_by_source, get_by_id_in_chama, get_reversal_for, violates_unique, add_transaction, land,
  resolve_idempotent_retry,
}

-- The keyword arguments of `post_transaction`.
pub record Posting : Type 0 where
  pub chama_id : ℕ
  pub source_type : SourceType
  pub source_id : ℕ
  pub description : Option Description
  pub lines : List LedgerLine
  pub reverses_transaction_id : Option ℕ
  pub require_membership : Bool

unfoldable pub authorize_posting : Bool → User → ℕ → Action (Unit {0})
authorize_posting true actor chama_id = do query (authorize_chama_write actor chama_id); pure tt
authorize_posting false actor chama_id = pure tt

-- The reversal reference and the approved source type come together.
pub check_source : Posting → Result (Unit {0})
check_source p = elim p.reverses_transaction_id [
  | none ↦
      check (same_source p.source_type SourceType.ledger_reversal)
        (state_error "A ledger reversal must reference the transaction it reverses")
  | some _ ↦
      check (not (same_source p.source_type SourceType.ledger_reversal))
        (state_error "A reversal reference requires the approved reversal source type")
]

-- `_validate_reversal_reference`, where the posting has a reference.
unfoldable pub validate_reversal_reference : ℕ → Option ℕ → Action (Unit {0})
validate_reversal_reference chama_id none = pure tt
validate_reversal_reference chama_id (some r) = do
  found ← gets (get_by_id_in_chama chama_id r)
  target ←
      lift
        (or_raise found (state_error "Ledger transaction to reverse does not exist in this Chama"))
  raise_if (is_some target.reverses_transaction_id)
      (state_error "A reversal transaction cannot be reversed")
  reversal ← gets (get_reversal_for target.id)
  raise_if (is_some reversal) (conflict "This ledger transaction has already been reversed")

pub new_transaction : Env → User → Posting → List Line → LedgerTransaction
new_transaction env actor p lines = record {
  id = env.transaction_id;
  chama_id = p.chama_id;
  source_type = p.source_type;
  source_id = p.source_id;
  description = p.description;
  posted_by_user_id = actor.id;
  reverses_transaction_id = p.reverses_transaction_id;
  entries = map entry_of lines;
}

unfoldable pub resolve : LedgerTransaction → Posting → List Line → Result LedgerTransaction
resolve existing p lines =
    resolve_idempotent_retry existing p.chama_id p.description p.reverses_transaction_id
      (map entry_of lines)

-- The handler of `IntegrityError`: another session posted first.
unfoldable pub recover : Posting → List Line → Action LedgerTransaction
unfolding resolve
recover p lines = do
  rollback
  existing ← gets (get_by_source p.source_type p.source_id)
  elim existing [ none ↦ raise integrity_error | some tx ↦ lift (resolve tx p lines) ]

-- The `try` block: insert and commit.
unfoldable pub insert_transaction :
    LedgerTransaction → Posting → List Line → Action LedgerTransaction
unfolding recover
insert_transaction tx p lines = do
  violated ← gets (violates_unique tx)
  if violated then recover p lines else do modify (add_transaction tx); flush; commit; pure tx

unfoldable pub post_new : Env → User → Posting → List Line → Action LedgerTransaction
unfolding validate_reversal_reference insert_transaction new_transaction
post_new env actor p lines = do
  validate_reversal_reference p.chama_id p.reverses_transaction_id
  land env.concurrent
  insert_transaction (new_transaction env actor p lines) p lines

unfoldable pub post_transaction : Env → User → Posting → Action LedgerTransaction
unfolding authorize_posting check_source post_new resolve
post_transaction env actor p = do
  query (get_chama_or_404 p.chama_id)
  authorize_posting p.require_membership actor p.chama_id
  lines ← lift (normalize_lines p.lines)
  query (validate_lines p.chama_id lines)
  lift (check_source p)
  existing ← gets (get_by_source p.source_type p.source_id)
  elim existing [ none ↦ post_new env actor p lines | some tx ↦ lift (resolve tx p lines) ]

-- An entry with its sides exchanged.
abbrev pub swapped : LedgerEntry → LedgerLine
swapped e = record { account_id = e.account_id; debit = cents e.credit; credit = cents e.debit }

pub reversal_of : LedgerTransaction → ℕ → Option Description → Posting
reversal_of tx chama_id description = record {
  chama_id = chama_id;
  source_type = SourceType.ledger_reversal;
  source_id = tx.id;
  description = description;
  lines = map swapped tx.entries;
  reverses_transaction_id = some tx.id;
  require_membership = true;
}

unfoldable pub reverse_transaction :
    Env → User → ℕ → ℕ → Option Description → Action LedgerTransaction
unfolding reversal_of
reverse_transaction env actor chama_id transaction_id description = do
  query (get_chama_or_404 chama_id)
  query (authorize_chama_write actor chama_id)
  found ← gets (get_by_id_in_chama chama_id transaction_id)
  tx ← lift (or_raise found (state_error "Ledger transaction not found in this Chama"))
  raise_if (is_some tx.reverses_transaction_id)
      (state_error "A reversal transaction cannot be reversed")
  post_transaction env actor (reversal_of tx chama_id description)
