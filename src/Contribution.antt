-- ===== src/Contribution.antt =====
-- app/services/contribution.py: contributions are recorded, confirmed into shares and the ledger, and
-- reversed. `Store` has the queries and the row updates.
pub mod Store
pub mod Books
use chamacore.Prelude.{
  ℕ, ◌*◌, ◌^◌, Bool, true, false, not, String, Option, none, some, List, [], ◌∷◌, is_some, ◌==◌,
  if◌then◌else◌,
}
use chamacore.Data.{
  Db, Env, User, DateTime, Contribution, ContributionStatus, LedgerTransaction, Description,
  SourceType, RoleName, Share, ShareStatus, cash_code, share_capital_code,
}
use chamacore.Money.{half_up, cents, no_amount}
use chamacore.Session.{
  Action, conflict, state_error, integrity_error, raise, raise_if, gets, query, lift, pure, modify,
  flush, commit, ◌>>=◌, ◌>>◌,
}
use chamacore.Access.{get_chama_or_404, authorize_chama_write, require_roles, get_target_membership}
use chamacore.Audit.{record_commit}
use chamacore.Finance.{get_account_id}
use chamacore.Ledger.{post_transaction, reverse_transaction}
use chamacore.Ledger.Store.{get_by_source}
use Store.{
  find_open_contribution, get_chama_contribution, contribution_chama, add_contribution,
  update_contribution, add_share, reverse_shares, has_share,
}

new_contribution : Env → User → ℕ → ℕ → String → Option DateTime → Option String → Contribution
new_contribution env actor membership_id amount period payment_date note = record {
  id = env.row_id;
  membership_id = membership_id;
  amount = amount;
  period = period;
  status = ContributionStatus.pending;
  recorded_by_user_id = actor.id;
  payment_date = payment_date;
  note = note;
  confirmed_at = none;
}

-- The insert and its commit; another session may insert the same period after the lookup, which the
-- unique index would refuse: that race is not modelled.
pub record_contribution :
    Env → User → ℕ → ℕ → ℕ → String → Option DateTime → Option String → Action Contribution
unfolding new_contribution
record_contribution env actor chama_id membership_id amount period payment_date note = do
  query (get_chama_or_404 chama_id)
  actor_membership ← query (authorize_chama_write actor chama_id)
  lift (require_roles actor_membership (RoleName.chairperson ∷ RoleName.treasurer ∷ []))
  membership ← query (get_target_membership chama_id membership_id)
  existing ← gets (find_open_contribution membership.id period)
  raise_if (is_some existing) (
      conflict
        "This membership already has a contribution for this period that has not been reversed")
  let contribution = new_contribution env actor membership.id amount period payment_date note
  modify (add_contribution contribution)
  flush
  commit
  record_commit actor chama_id "contribution.create" "contribution" contribution.id
  pure contribution

-- Cents over a price in cents, in ten-thousandths of a unit, rounded half up.
unfoldable pub units_for : ℕ → ℕ → ℕ
units_for unit_price amount = half_up (amount * 10 ^ 4) unit_price

-- The ledger posting of a confirmation: debit Cash, credit Share Capital.
unfoldable pub post_confirmation : Env → User → Contribution → Action LedgerTransaction
post_confirmation env actor contribution = do
  chama_id ← query (contribution_chama contribution)
  cash_account ← query (get_account_id chama_id cash_code)
  capital ← query (get_account_id chama_id share_capital_code)
  post_transaction env actor (record {
    chama_id = chama_id;
    source_type = SourceType.contribution_confirmation;
    source_id = contribution.id;
    description = some (Description.contribution_confirmation contribution.period);
    lines =
        record { account_id = cash_account; debit = cents contribution.amount; credit = no_amount }
        ∷ record { account_id = capital; debit = no_amount; credit = cents contribution.amount }
        ∷ [];
    reverses_transaction_id = none;
    require_membership = not (actor.id == env.system_user_id);
  })

new_share : Env → Contribution → Share
new_share env contribution = record {
  membership_id = contribution.membership_id;
  contribution_id = contribution.id;
  units = units_for env.share_unit_price contribution.amount;
  status = ShareStatus.active;
}

-- `uq_shares_contribution_id` allows one share for a contribution.
unfoldable pub confirm_pending : Env → User → Contribution → Action Contribution
unfolding new_share
confirm_pending env actor contribution = do
  modify (
      update_contribution contribution.id
        λ c. record c { status = ContributionStatus.confirmed; confirmed_at = some env.now })
  taken ← gets (has_share contribution.id)
  raise_if taken integrity_error
  modify (add_share (new_share env contribution))
  flush
  post_confirmation env actor contribution
  commit
  chama_id ← query (contribution_chama contribution)
  record_commit actor chama_id "contribution.confirm" "contribution" contribution.id
  get_chama_contribution chama_id contribution.id

unfoldable pub settle_in :
    ContributionStatus → Bool → Env → User → Contribution → Action Contribution
unfolding confirm_pending
settle_in ContributionStatus.pending allow_already_confirmed env actor contribution =
    confirm_pending env actor contribution
settle_in ContributionStatus.confirmed true env actor contribution = pure contribution
settle_in ContributionStatus.confirmed false env actor contribution =
    raise (state_error "Only a PENDING contribution can be confirmed")
settle_in ContributionStatus.reversed allow_already_confirmed env actor contribution =
    raise (state_error "Only a PENDING contribution can be confirmed")

-- `_settle`
unfoldable pub settle : Env → User → Contribution → Bool → Action Contribution
unfolding settle_in
settle env actor contribution allow_already_confirmed =
    settle_in contribution.status allow_already_confirmed env actor contribution

-- The opening of what only the chairperson may do.
pub as_chairperson : User → ℕ → Action (Unit {0})
as_chairperson actor chama_id = do
  query (get_chama_or_404 chama_id)
  actor_membership ← query (authorize_chama_write actor chama_id)
  lift (require_roles actor_membership (RoleName.chairperson ∷ []))

pub confirm : Env → User → ℕ → ℕ → Action Contribution
unfolding as_chairperson
confirm env actor chama_id contribution_id = do
  as_chairperson actor chama_id
  contribution ← get_chama_contribution chama_id contribution_id
  settle env actor contribution false

abbrev pub is_confirmed : ContributionStatus → Bool
is_confirmed ContributionStatus.confirmed = true
is_confirmed _ = false

abbrev keep_note : Option String → Contribution → Contribution
keep_note none c = record c { status = ContributionStatus.reversed }
keep_note (some n) c = record c { status = ContributionStatus.reversed; note = some n }

pub reverse_posting : Env → User → ℕ → Contribution → Option LedgerTransaction → Action (Unit {0})
reverse_posting env actor chama_id contribution none = commit
reverse_posting env actor chama_id contribution (some posting) = do
  reverse_transaction env actor chama_id posting.id
      (some (Description.contribution_reversal contribution.period))
  pure tt

pub reverse : Env → User → ℕ → ℕ → Option String → Action Contribution
unfolding as_chairperson reverse_posting
reverse env actor chama_id contribution_id note = do
  as_chairperson actor chama_id
  contribution ← get_chama_contribution chama_id contribution_id
  raise_if (not (is_confirmed contribution.status))
      (state_error "Only a CONFIRMED contribution can be reversed")
  modify (update_contribution contribution.id (keep_note note))
  modify (reverse_shares contribution.id)
  posting ← gets (get_by_source SourceType.contribution_confirmation contribution.id)
  reverse_posting env actor chama_id contribution posting
  record_commit actor chama_id "contribution.reverse" "contribution" contribution.id
  get_chama_contribution chama_id contribution_id
