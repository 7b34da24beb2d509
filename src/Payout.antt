-- ===== src/Payout.antt =====
-- app/services/payout.py over app/repositories/payout.py: the payout lifecycle (ADR-021). `Store`
-- has the queries and `_transition`; this file the operations.
pub mod Store
pub mod Books
pub mod Reads
pub mod Rules
pub mod Completion
use chamacore.Prelude.{
  ℕ, Bool, true, false, not, String, Option, none, some, List, [], ◌∷◌, is_some, ◌==◌,
  if◌then◌else◌,
}
use chamacore.Prelude.Int.{ℤ, pos, sub_ℕ, ltb_ℤ}
use chamacore.Data.{
  Db, Env, User, Payout, Membership, PayoutStatus, LedgerTransaction, Description, SourceType,
  RoleName, cash_code, share_capital_code,
}
use chamacore.Data.PayoutStatus.{
  requested, approved, processing, completed, rejected, failed, reversed,
}
use chamacore.Money.{cents, no_amount}
use chamacore.Session.{
  Action, state_error, raise_if, gets, query, lift, pure, modify, flush, commit, ◌>>=◌, ◌>>◌,
}
use chamacore.Access.{get_chama_or_404, authorize_chama_write, require_roles}
use chamacore.Audit.{record_event}
use chamacore.Finance.{get_account_id, available_chama_cash, lock_cash_account}
use chamacore.Ledger.{post_transaction, reverse_transaction}
use chamacore.Ledger.Store.{get_by_source}
use chamacore.Loan.Store.{as_chairperson}
use Store.{
  get_chama_payout, update_payout, add_payout, transition, available_share_value, set_status,
}

new_payout : Env → User → ℕ → ℕ → ℕ → Option String → Payout
new_payout env actor chama_id membership_id amount note = record {
  id = env.row_id;
  chama_id = chama_id;
  membership_id = membership_id;
  amount = amount;
  status = requested;
  requested_by_user_id = actor.id;
  approved_by_user_id = none;
  processed_by_user_id = none;
  completed_by_user_id = none;
  failure_reason = none;
  note = note;
  approved_at = none;
  processed_at = none;
  completed_at = none;
}

pub request_payout : Env → User → ℕ → ℕ → Option String → Action Payout
unfolding new_payout
request_payout env actor chama_id amount note = do
  query (get_chama_or_404 chama_id)
  membership ← query (authorize_chama_write actor chama_id)
  available ← gets (available_share_value env.share_unit_price membership.id)
  raise_if (ltb_ℤ available (pos amount))
      (state_error "Payout amount cannot exceed the member's outstanding share value")
  cash ← query (available_chama_cash chama_id)
  raise_if (ltb_ℤ cash (pos amount))
      (state_error "Payout amount cannot exceed the Chama's available cash")
  let payout = new_payout env actor chama_id membership.id amount note
  modify (add_payout payout)
  flush
  record_event actor chama_id "payout.request" "payout" payout.id
  commit
  pure payout

pub forbid_self_action : Payout → ℕ → Action (Unit {0})
forbid_self_action payout actor_membership_id =
    raise_if (payout.membership_id == actor_membership_id)
      (state_error "A member cannot decide on their own payout request")

pub approve : Env → User → ℕ → ℕ → Action Payout
unfolding forbid_self_action
approve env actor chama_id payout_id = do
  actor_membership ← as_chairperson actor chama_id
  payout ← get_chama_payout chama_id payout_id
  forbid_self_action payout actor_membership.id
  transition payout (requested ∷ []) approved
  modify (
      update_payout payout.id
        λ p. record p { approved_by_user_id = some actor.id; approved_at = some env.now })
  record_event actor chama_id "payout.approve" "payout" payout.id
  commit
  get_chama_payout chama_id payout_id

pub reject : User → ℕ → ℕ → Action Payout
unfolding forbid_self_action
reject actor chama_id payout_id = do
  actor_membership ← as_chairperson actor chama_id
  payout ← get_chama_payout chama_id payout_id
  forbid_self_action payout actor_membership.id
  transition payout (requested ∷ []) rejected
  record_event actor chama_id "payout.reject" "payout" payout.id
  commit
  get_chama_payout chama_id payout_id

-- The opening of what the chairperson and the treasurer may do.
unfoldable pub as_officer : User → ℕ → Action Membership
as_officer actor chama_id = do
  query (get_chama_or_404 chama_id)
  actor_membership ← query (authorize_chama_write actor chama_id)
  lift (require_roles actor_membership (RoleName.chairperson ∷ RoleName.treasurer ∷ []))
  pure actor_membership

pub process : Env → User → ℕ → ℕ → Action Payout
unfolding as_officer
process env actor chama_id payout_id = do
  as_officer actor chama_id
  payout ← get_chama_payout chama_id payout_id
  transition payout (approved ∷ []) processing
  modify (
      update_payout payout.id
        λ p. record p { processed_by_user_id = some actor.id; processed_at = some env.now })
  record_event actor chama_id "payout.process" "payout" payout.id
  commit
  get_chama_payout chama_id payout_id

pub already_completed : Option LedgerTransaction → Payout → Action Payout
already_completed posting payout = do
  raise_if (not (is_some posting))
      (state_error "Completed payout is missing its ledger transaction")
  pure payout

-- The ledger posting of a completion: debit Share Capital, credit Cash.
pub post_completion : Env → User → ℕ → Payout → Action LedgerTransaction
post_completion env actor chama_id payout = do
  capital ← query (get_account_id chama_id share_capital_code)
  cash_account ← query (get_account_id chama_id cash_code)
  post_transaction env actor (record {
    chama_id = chama_id;
    source_type = SourceType.payout_completion;
    source_id = payout.id;
    description = some (Description.payout_completion payout.id);
    lines =
        record { account_id = capital; debit = cents payout.amount; credit = no_amount }
        ∷ record { account_id = cash_account; debit = no_amount; credit = cents payout.amount }
        ∷ [];
    reverses_transaction_id = none;
    require_membership = true;
  })

pub pay_out : Env → User → ℕ → Payout → Action Payout
unfolding post_completion
pay_out env actor chama_id payout = do
  query (lock_cash_account chama_id)
  transition payout (processing ∷ []) completed
  cash ← query (available_chama_cash chama_id)
  raise_if (ltb_ℤ cash (pos payout.amount))
      (state_error "Insufficient available Chama cash to complete this payout")
  modify (
      update_payout payout.id
        λ p. record p { completed_by_user_id = some actor.id; completed_at = some env.now })
  post_completion env actor chama_id payout
  record_event actor chama_id "payout.complete" "payout" payout.id
  commit
  get_chama_payout chama_id payout.id

abbrev pub is_completed : PayoutStatus → Bool
is_completed completed = true
is_completed _ = false

unfoldable pub complete : Env → User → ℕ → ℕ → Action Payout
unfolding as_officer already_completed pay_out
complete env actor chama_id payout_id = do
  as_officer actor chama_id
  payout ← get_chama_payout chama_id payout_id
  posting ← gets (get_by_source SourceType.payout_completion payout.id)
  if is_completed payout.status
      then already_completed posting payout
      else pay_out env actor chama_id payout

pub fail : User → ℕ → ℕ → String → Action Payout
unfolding as_officer
fail actor chama_id payout_id failure_reason = do
  as_officer actor chama_id
  payout ← get_chama_payout chama_id payout_id
  transition payout (processing ∷ []) failed
  modify (update_payout payout.id λ p. record p { failure_reason = some failure_reason })
  record_event actor chama_id "payout.fail" "payout" payout.id
  commit
  get_chama_payout chama_id payout_id

pub reverse_posting : Env → User → ℕ → Payout → Option LedgerTransaction → Action (Unit {0})
reverse_posting env actor chama_id payout none = pure tt
reverse_posting env actor chama_id payout (some posting) = do
  reverse_transaction env actor chama_id posting.id (some (Description.payout_reversal payout.id))
  pure tt

pub reverse : Env → User → ℕ → ℕ → Action Payout
unfolding reverse_posting
reverse env actor chama_id payout_id = do
  as_chairperson actor chama_id
  payout ← get_chama_payout chama_id payout_id
  raise_if (not (is_completed payout.status))
      (state_error "Only a COMPLETED payout can be reversed")
  posting ← gets (get_by_source SourceType.payout_completion payout.id)
  reverse_posting env actor chama_id payout posting
  modify (update_payout payout.id (set_status reversed))
  record_event actor chama_id "payout.reversal" "payout" payout.id
  commit
  get_chama_payout chama_id payout_id
