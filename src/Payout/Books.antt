-- ===== src/Payout/Books.antt =====
-- Every payout operation, whether it returns or raises, leaves a sound ledger in every view.
use chamacore.Prelude.{ℕ, ◌≡◌, refl, String, Option, none, some, List, []}
use chamacore.Data.{Env, User, Payout, PayoutStatus, LedgerTransaction}
use chamacore.Session.{modify}
use chamacore.Session.Rules.{Keeps, keeps_rules}
use chamacore.Ledger.Invariant.{IsSoundSession}
use chamacore.Ledger.Sound.{sound_rules, sound-modify, sound-post, sound-reverse}
use chamacore.Loan.Books.{sound-as_chairperson}
use chamacore.Payout.{
  request_payout, approve, reject, process, complete, fail, reverse, pay_out, post_completion,
  already_completed, forbid_self_action, as_officer, reverse_posting,
}
use chamacore.Payout.Store.{update_payout, add_payout, get_chama_payout, transition}

sound-update_payout :
    (id : ℕ) (f : Payout → Payout) → Keeps IsSoundSession (modify (update_payout id f))
unfolding update_payout
sound-update_payout id f = sound-modify (update_payout id f) (λ db. refl) (λ db. refl)

sound-add_payout : (p : Payout) → Keeps IsSoundSession (modify (add_payout p))
unfolding add_payout
sound-add_payout p = sound-modify (add_payout p) (λ db. refl) (λ db. refl)

sound-get : (chama_id payout_id : ℕ) → Keeps IsSoundSession (get_chama_payout chama_id payout_id)
unfolding get_chama_payout
sound-get chama_id payout_id = search keeps_rules depth 10

pub sound-officer : (actor : User) (chama_id : ℕ) → Keeps IsSoundSession (as_officer actor chama_id)
unfolding as_officer
sound-officer actor chama_id = search keeps_rules depth 10

sound-transition :
    (p : Payout) (allowed_from : List PayoutStatus) (to : PayoutStatus)
    → Keeps IsSoundSession (transition p allowed_from to)
unfolding transition
sound-transition p allowed_from to = search (sound_rules, sound-update_payout) depth 10

sound-forbid : (p : Payout) (id : ℕ) → Keeps IsSoundSession (forbid_self_action p id)
unfolding forbid_self_action
sound-forbid p id = search keeps_rules depth 10

ruleset payout_rules = (
  sound_rules, sound-update_payout, sound-add_payout, sound-get, sound-officer,
  sound-as_chairperson, sound-transition, sound-forbid,
)

pub sound-request :
    (env : Env) (actor : User) (chama_id amount : ℕ) (note : Option String)
    → Keeps IsSoundSession (request_payout env actor chama_id amount note)
unfolding request_payout
sound-request env actor chama_id amount remark = search payout_rules depth 30

pub sound-approve :
    (env : Env) (actor : User) (chama_id payout_id : ℕ)
    → Keeps IsSoundSession (approve env actor chama_id payout_id)
unfolding approve
sound-approve env actor chama_id payout_id = search payout_rules depth 30

pub sound-reject :
    (actor : User) (chama_id payout_id : ℕ) → Keeps IsSoundSession (reject actor chama_id payout_id)
unfolding reject
sound-reject actor chama_id payout_id = search payout_rules depth 30

pub sound-process :
    (env : Env) (actor : User) (chama_id payout_id : ℕ)
    → Keeps IsSoundSession (process env actor chama_id payout_id)
unfolding process
sound-process env actor chama_id payout_id = search payout_rules depth 30

pub sound-fail :
    (actor : User) (chama_id payout_id : ℕ) (reason : String)
    → Keeps IsSoundSession (fail actor chama_id payout_id reason)
unfolding fail
sound-fail actor chama_id payout_id reason = search payout_rules depth 30

module _ (env : Env) (alone : env.concurrent ≡ []) (actor : User) (chama_id : ℕ) where
  sound-post_completion : (p : Payout) → Keeps IsSoundSession (post_completion env actor chama_id p)
  unfolding post_completion
  sound-post_completion p = search (payout_rules, sound-post env alone actor) depth 20

  sound-pay_out : (p : Payout) → Keeps IsSoundSession (pay_out env actor chama_id p)
  unfolding pay_out
  sound-pay_out p = search (payout_rules, sound-post_completion) depth 30

  sound-already :
      (posting : Option LedgerTransaction) (p : Payout)
      → Keeps IsSoundSession (already_completed posting p)
  unfolding already_completed
  sound-already posting p = search keeps_rules depth 10

  pub sound-complete :
      (payout_id : ℕ) → Keeps IsSoundSession (complete env actor chama_id payout_id)
  unfolding complete
  sound-complete payout_id = search (payout_rules, sound-pay_out, sound-already) depth 30

  sound-reverse_posting :
      (p : Payout) (posting : Option LedgerTransaction)
      → Keeps IsSoundSession (reverse_posting env actor chama_id p posting)
  unfolding reverse_posting
  sound-reverse_posting p none = search keeps_rules
  sound-reverse_posting p (some t) = search (keeps_rules, sound-reverse env alone actor) depth 10

  pub sound-reverse_payout :
      (payout_id : ℕ) → Keeps IsSoundSession (reverse env actor chama_id payout_id)
  unfolding reverse
  sound-reverse_payout payout_id = search (payout_rules, sound-reverse_posting) depth 30
