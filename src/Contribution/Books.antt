-- ===== src/Contribution/Books.antt =====
-- Every contribution operation, whether it returns or raises, leaves a sound ledger in every view.
use chamacore.Prelude.{ℕ, ◌≡◌, refl, Bool, true, false, String, Option, none, some, []}
use chamacore.Data.{Env, User, DateTime, Contribution, ContributionStatus, Share, LedgerTransaction}
use chamacore.Session.{modify}
use chamacore.Session.Rules.{Keeps, keeps_rules}
use chamacore.Ledger.Invariant.{IsSoundSession}
use chamacore.Ledger.Sound.{
  sound_rules, sound-modify, sound-record_commit, sound-post, sound-reverse,
}
use chamacore.Contribution.{
  record_contribution, post_confirmation, confirm_pending, settle_in, settle, as_chairperson,
  confirm, reverse_posting, reverse,
}
use chamacore.Contribution.Store.{
  add_contribution, update_contribution, add_share, reverse_shares, get_chama_contribution,
}

sound-update :
    (id : ℕ) (f : Contribution → Contribution)
    → Keeps IsSoundSession (modify (update_contribution id f))
unfolding update_contribution
sound-update id f = sound-modify (update_contribution id f) (λ db. refl) (λ db. refl)

sound-add : (c : Contribution) → Keeps IsSoundSession (modify (add_contribution c))
unfolding add_contribution
sound-add c = sound-modify (add_contribution c) (λ db. refl) (λ db. refl)

sound-add_share : (share : Share) → Keeps IsSoundSession (modify (add_share share))
unfolding add_share
sound-add_share share = sound-modify (add_share share) (λ db. refl) (λ db. refl)

sound-reverse_shares : (id : ℕ) → Keeps IsSoundSession (modify (reverse_shares id))
unfolding reverse_shares
sound-reverse_shares id = sound-modify (reverse_shares id) (λ db. refl) (λ db. refl)

sound-get : (chama_id id : ℕ) → Keeps IsSoundSession (get_chama_contribution chama_id id)
unfolding get_chama_contribution
sound-get chama_id id = search keeps_rules depth 10

sound-chairperson :
    (actor : User) (chama_id : ℕ) → Keeps IsSoundSession (as_chairperson actor chama_id)
unfolding as_chairperson
sound-chairperson actor chama_id = search keeps_rules depth 10

ruleset contribution_rules = (
  sound_rules, sound-record_commit, sound-update, sound-add, sound-add_share, sound-reverse_shares,
  sound-get, sound-chairperson,
)

pub sound-record :
    (env : Env) (actor : User) (chama_id membership_id amount : ℕ) (period : String)
    (payment_date : Option DateTime) (note : Option String)
    → Keeps IsSoundSession
        (record_contribution env actor chama_id membership_id amount period payment_date note)
unfolding record_contribution
sound-record env actor chama_id membership_id amount period payment_date remark =
    search contribution_rules depth 30

module _ (env : Env) (alone : env.concurrent ≡ []) (actor : User) where
  sound-post_confirmation :
      (c : Contribution) → Keeps IsSoundSession (post_confirmation env actor c)
  unfolding post_confirmation
  sound-post_confirmation c = search (contribution_rules, sound-post env alone actor) depth 20

  sound-confirm_pending : (c : Contribution) → Keeps IsSoundSession (confirm_pending env actor c)
  unfolding confirm_pending
  sound-confirm_pending c = search (contribution_rules, sound-post_confirmation) depth 30

  sound-settle_in :
      (status : ContributionStatus) (allow : Bool) (c : Contribution)
      → Keeps IsSoundSession (settle_in status allow env actor c)
  unfolding settle_in
  sound-settle_in ContributionStatus.pending allow c = sound-confirm_pending c
  sound-settle_in ContributionStatus.confirmed true c = search keeps_rules
  sound-settle_in ContributionStatus.confirmed false c = search keeps_rules
  sound-settle_in ContributionStatus.reversed allow c = search keeps_rules

  pub sound-settle :
      (c : Contribution) (allow : Bool) → Keeps IsSoundSession (settle env actor c allow)
  unfolding settle
  sound-settle c allow = sound-settle_in c.status allow c

  pub sound-confirm : (chama_id id : ℕ) → Keeps IsSoundSession (confirm env actor chama_id id)
  unfolding confirm
  sound-confirm chama_id id = search (contribution_rules, sound-settle) depth 20

  sound-reverse_posting :
      (chama_id : ℕ) (c : Contribution) (posting : Option LedgerTransaction)
      → Keeps IsSoundSession (reverse_posting env actor chama_id c posting)
  unfolding reverse_posting
  sound-reverse_posting chama_id c none = search sound_rules
  sound-reverse_posting chama_id c (some t) =
      search (keeps_rules, sound-reverse env alone actor) depth 10

  pub sound-reverse_contribution :
      (chama_id id : ℕ) (note : Option String)
      → Keeps IsSoundSession (reverse env actor chama_id id note)
  unfolding reverse
  sound-reverse_contribution chama_id id remark =
      search (contribution_rules, sound-reverse_posting) depth 30
