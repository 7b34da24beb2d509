-- ===== src/Fee/Books.antt =====
-- Every operation on a registration fee, whether it returns or raises, leaves a sound ledger in every
-- view.
use chamacore.Prelude.{ℕ, ◌≡◌, refl, Option, none, some, []}
use chamacore.Data.{
  Env, User, RegistrationFee, RegistrationFeePayment, RegistrationFeeStatus, LedgerTransaction,
}
use chamacore.Session.{modify}
use chamacore.Session.Rules.{Keeps, keeps_rules}
use chamacore.Ledger.Invariant.{IsSoundSession}
use chamacore.Ledger.Sound.{sound_rules, sound-modify, sound-post, sound-reverse}
use chamacore.Loan.Books.{sound-as_chairperson}
use chamacore.Payout.Books.{sound-officer}
use chamacore.Fee.{
  fee_of, waive, create_payment, post_fee, lost_race, pay_owed, pay_in, pay, reverse_posting,
  reverse_payment,
}
use chamacore.Fee.Store.{update_fee, add_payment, reverse_payment_row}

sound-update_fee :
    (id : ℕ) (f : RegistrationFee → RegistrationFee)
    → Keeps IsSoundSession (modify (update_fee id f))
unfolding update_fee
sound-update_fee id f = sound-modify (update_fee id f) (λ db. refl) (λ db. refl)

sound-add_payment : (p : RegistrationFeePayment) → Keeps IsSoundSession (modify (add_payment p))
unfolding add_payment
sound-add_payment p = sound-modify (add_payment p) (λ db. refl) (λ db. refl)

sound-reverse_row : (id : ℕ) → Keeps IsSoundSession (modify (reverse_payment_row id))
unfolding reverse_payment_row
sound-reverse_row id = sound-modify (reverse_payment_row id) (λ db. refl) (λ db. refl)

sound-fee_of : (chama_id membership_id : ℕ) → Keeps IsSoundSession (fee_of chama_id membership_id)
unfolding fee_of
sound-fee_of chama_id membership_id = search keeps_rules depth 10

sound-lost_race : Keeps IsSoundSession lost_race
unfolding lost_race
sound-lost_race = search sound_rules depth 10

ruleset fee_rules = (
  sound_rules, sound-update_fee, sound-add_payment, sound-reverse_row, sound-fee_of,
  sound-as_chairperson, sound-officer, sound-lost_race,
)

sound-create_payment : (p : RegistrationFeePayment) → Keeps IsSoundSession (create_payment p)
unfolding create_payment
sound-create_payment p = search fee_rules depth 20

pub sound-waive :
    (actor : User) (chama_id membership_id : ℕ)
    → Keeps IsSoundSession (waive actor chama_id membership_id)
unfolding waive
sound-waive actor chama_id membership_id = search fee_rules depth 30

module _ (env : Env) (alone : env.concurrent ≡ []) (actor : User) (chama_id : ℕ) where
  sound-post_fee :
      (fee : RegistrationFee) (p : RegistrationFeePayment)
      → Keeps IsSoundSession (post_fee env actor chama_id fee p)
  unfolding post_fee
  sound-post_fee fee p = search (fee_rules, sound-post env alone actor) depth 20

  sound-pay_owed : (fee : RegistrationFee) → Keeps IsSoundSession (pay_owed env actor chama_id fee)
  unfolding pay_owed
  sound-pay_owed fee = search (fee_rules, sound-create_payment, sound-post_fee) depth 30

  sound-pay_in :
      (status : RegistrationFeeStatus) (fee : RegistrationFee)
      → Keeps IsSoundSession (pay_in status env actor chama_id fee)
  unfolding pay_in
  sound-pay_in RegistrationFeeStatus.owed fee = sound-pay_owed fee
  sound-pay_in RegistrationFeeStatus.paid fee = search keeps_rules
  sound-pay_in RegistrationFeeStatus.waived fee = search keeps_rules

  pub sound-pay : (membership_id : ℕ) → Keeps IsSoundSession (pay env actor chama_id membership_id)
  unfolding pay
  sound-pay membership_id = search (fee_rules, sound-pay_in) depth 20

  sound-reverse_posting :
      (fee : RegistrationFee) (posting : Option LedgerTransaction)
      → Keeps IsSoundSession (reverse_posting env actor chama_id fee posting)
  unfolding reverse_posting
  sound-reverse_posting fee none = search keeps_rules
  sound-reverse_posting fee (some t) = search (keeps_rules, sound-reverse env alone actor) depth 10

  pub sound-reverse_payment :
      (membership_id : ℕ) → Keeps IsSoundSession (reverse_payment env actor chama_id membership_id)
  unfolding reverse_payment
  sound-reverse_payment membership_id = search (fee_rules, sound-reverse_posting) depth 30
