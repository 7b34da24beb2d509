-- ===== src/Loan/Books.antt =====
-- Every loan operation, whether it returns or raises, leaves a sound ledger in every view.
use chamacore.Prelude.{ℕ, ◌≡◌, refl, String, Option, none, some, List, []}
use chamacore.Prelude.Int.{ℤ}
use chamacore.Data.{Env, User, Loan, LoanRepayment, LoanStatus, LedgerTransaction}
use chamacore.Session.{modify}
use chamacore.Session.Rules.{Keeps, keeps_rules}
use chamacore.Ledger.Invariant.{IsSoundSession}
use chamacore.Ledger.Sound.{sound_rules, sound-modify, sound-post, sound-reverse}
use chamacore.Loan.{
  apply, submit, approve, reject, cancel, disburse, pay_out, post_disbursement, already_disbursed,
  check_principal_limit, forbid_self_action,
}
use chamacore.Loan.Store.{update_loan, add_loan, get_chama_loan, as_chairperson, transition}
use chamacore.Loan.Repayment.{
  Split, add_repayment, update_repayment, create, take_repayment, post_repayment, record_repayment,
  reverse_repayment, reverse_posting, settle_reversal,
}

sound-update_loan : (id : ℕ) (f : Loan → Loan) → Keeps IsSoundSession (modify (update_loan id f))
unfolding update_loan
sound-update_loan id f = sound-modify (update_loan id f) (λ db. refl) (λ db. refl)

sound-add_loan : (loan : Loan) → Keeps IsSoundSession (modify (add_loan loan))
unfolding add_loan
sound-add_loan loan = sound-modify (add_loan loan) (λ db. refl) (λ db. refl)

sound-add_repayment : (r : LoanRepayment) → Keeps IsSoundSession (modify (add_repayment r))
unfolding add_repayment
sound-add_repayment r = sound-modify (add_repayment r) (λ db. refl) (λ db. refl)

sound-update_repayment :
    (id : ℕ) (f : LoanRepayment → LoanRepayment)
    → Keeps IsSoundSession (modify (update_repayment id f))
unfolding update_repayment
sound-update_repayment id f = sound-modify (update_repayment id f) (λ db. refl) (λ db. refl)

sound-get : (chama_id loan_id : ℕ) → Keeps IsSoundSession (get_chama_loan chama_id loan_id)
unfolding get_chama_loan
sound-get chama_id loan_id = search keeps_rules depth 10

pub sound-as_chairperson :
    (actor : User) (chama_id : ℕ) → Keeps IsSoundSession (as_chairperson actor chama_id)
unfolding as_chairperson
sound-as_chairperson actor chama_id = search keeps_rules depth 10

sound-transition :
    (loan : Loan) (allowed_from : List LoanStatus) (to : LoanStatus)
    → Keeps IsSoundSession (transition loan allowed_from to)
unfolding transition
sound-transition loan allowed_from to = search (sound_rules, sound-update_loan) depth 10

ruleset loan_rules = (
  sound_rules, sound-update_loan, sound-add_loan, sound-add_repayment, sound-update_repayment,
  sound-get, sound-as_chairperson, sound-transition,
)

sound-check_limit :
    (env : Env) (membership_id chama_id principal : ℕ)
    → Keeps IsSoundSession (check_principal_limit env membership_id chama_id principal)
unfolding check_principal_limit
sound-check_limit env membership_id chama_id principal = search loan_rules depth 20

pub sound-apply :
    (env : Env) (actor : User) (chama_id principal term_months : ℕ) (note : Option String)
    → Keeps IsSoundSession (apply env actor chama_id principal term_months note)
unfolding apply
sound-apply env actor chama_id principal term_months remark =
    search (loan_rules, sound-check_limit) depth 30

pub sound-submit :
    (actor : User) (chama_id loan_id : ℕ) → Keeps IsSoundSession (submit actor chama_id loan_id)
unfolding submit
sound-submit actor chama_id loan_id = search loan_rules depth 30

sound-forbid : (loan : Loan) (id : ℕ) → Keeps IsSoundSession (forbid_self_action loan id)
unfolding forbid_self_action
sound-forbid loan id = search keeps_rules depth 10

ruleset decision_rules = (loan_rules, sound-forbid)

pub sound-approve :
    (env : Env) (actor : User) (chama_id loan_id : ℕ)
    → Keeps IsSoundSession (approve env actor chama_id loan_id)
unfolding approve
sound-approve env actor chama_id loan_id = search decision_rules depth 30

pub sound-reject :
    (actor : User) (chama_id loan_id : ℕ) → Keeps IsSoundSession (reject actor chama_id loan_id)
unfolding reject
sound-reject actor chama_id loan_id = search decision_rules depth 30

pub sound-cancel :
    (actor : User) (chama_id loan_id : ℕ) → Keeps IsSoundSession (cancel actor chama_id loan_id)
unfolding cancel
sound-cancel actor chama_id loan_id = search decision_rules depth 30

module _ (env : Env) (alone : env.concurrent ≡ []) (actor : User) (chama_id : ℕ) where
  sound-post_disbursement :
      (loan : Loan) → Keeps IsSoundSession (post_disbursement env actor chama_id loan)
  unfolding post_disbursement
  sound-post_disbursement loan = search (loan_rules, sound-post env alone actor) depth 20

  sound-pay_out : (loan : Loan) → Keeps IsSoundSession (pay_out env actor chama_id loan)
  unfolding pay_out
  sound-pay_out loan = search (loan_rules, sound-post_disbursement) depth 30

  sound-already :
      (posting : Option LedgerTransaction) (loan : Loan)
      → Keeps IsSoundSession (already_disbursed posting loan)
  unfolding already_disbursed
  sound-already posting loan = search keeps_rules depth 10

  pub sound-disburse : (loan_id : ℕ) → Keeps IsSoundSession (disburse env actor chama_id loan_id)
  unfolding disburse
  sound-disburse loan_id = search (loan_rules, sound-pay_out, sound-already) depth 30

  sound-post_repayment :
      (loan : Loan) (r : LoanRepayment) (split : Split)
      → Keeps IsSoundSession (post_repayment env actor chama_id loan r split)
  unfolding post_repayment
  sound-post_repayment loan r split = search (loan_rules, sound-post env alone actor) depth 20

  sound-create :
      (loan : Loan) (amount : ℕ) (split : Split) (note : Option String)
      → Keeps IsSoundSession (create env actor loan amount split note)
  unfolding create
  sound-create loan amount split remark = search loan_rules depth 20

  sound-take :
      (loan : Loan) (amount : ℕ) (principal interest : ℤ) (note : Option String)
      → Keeps IsSoundSession (take_repayment env actor chama_id loan amount principal interest note)
  unfolding take_repayment
  sound-take loan amount principal interest remark =
      search (loan_rules, sound-create, sound-post_repayment) depth 30

  pub sound-record_repayment :
      (loan_id amount : ℕ) (note : Option String)
      → Keeps IsSoundSession (record_repayment env actor chama_id loan_id amount note)
  unfolding record_repayment
  sound-record_repayment loan_id amount remark = search (loan_rules, sound-take) depth 30

  sound-reverse_posting :
      (loan : Loan) (posting : Option LedgerTransaction)
      → Keeps IsSoundSession (reverse_posting env actor chama_id loan posting)
  unfolding reverse_posting
  sound-reverse_posting loan none = search keeps_rules
  sound-reverse_posting loan (some t) = search (keeps_rules, sound-reverse env alone actor) depth 10

  sound-settle :
      (loan : Loan) (r : LoanRepayment)
      → Keeps IsSoundSession (settle_reversal actor chama_id loan r)
  unfolding settle_reversal
  sound-settle loan r = search loan_rules depth 30

  pub sound-reverse_repayment :
      (loan_id repayment_id : ℕ)
      → Keeps IsSoundSession (reverse_repayment env actor chama_id loan_id repayment_id)
  unfolding reverse_repayment
  sound-reverse_repayment loan_id repayment_id =
      search (loan_rules, sound-reverse_posting, sound-settle) depth 30
