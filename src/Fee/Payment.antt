-- ===== src/Fee/Payment.antt =====
-- What the payment of a registration fee that returned has done.
use chamacore.Prelude.{
  ℕ, ◌≡◌, ◌≢◌, refl, sym, ap, ◌∙◌, subst, inl, inr, true, false, none, some, List, [], ◌∷◌, map,
  Bool-cases,
}
use chamacore.Prelude.Int.{pos, ◌+ℤ◌, ◌-ℤ◌, int_laws}
use chamacore.Data.{
  Db, Env, User, Membership, RegistrationFee, RegistrationFeePayment, RegistrationFeeStatus,
  LedgerTransaction, SourceType, Description, cash_code, registration_fees_code,
}
use chamacore.Session.{
  Session, fresh, Action, Result, ok, err, AppError, query, modify, flush, commit, except_integrity,
  handle, pure, rollback, lift, ◌>>=◌, ◌>>◌,
}
use chamacore.Session.Rules.{reading, going, passing, >>=-step, ok-injective}
use chamacore.Access.{get_chama_or_404, authorize_chama_write, require_roles, get_target_membership}
use chamacore.Payout.{as_officer}
use chamacore.Audit.{record_event, add_event}
use chamacore.Finance.{get_account_id}
use chamacore.Ledger.{Posting, post_transaction}
use chamacore.Ledger.Balances.{effect}
use chamacore.Ledger.Lines.{entry_of}
use chamacore.Ledger.Outcome.{Posted, post_transaction-Outcome}
use chamacore.Ledger.Reversal.{balance-moved, account_balance-same}
use chamacore.Ledger.Store.{account_balance, add_transaction, get_by_source}
use chamacore.Ledger.Transfer.{transfer_lines, effect-credited, effect-debited}
use chamacore.Fee.{new_payment, create_payment, post_fee, lost_race, pay_owed, pay_in, pay, fee_of}
use chamacore.Fee.Store.{get_by_membership, update_fee, set_status, violates, add_payment}

-- A fee that was owed is paid: the payment was the first confirmed one, its amount moved from the
-- Registration Fees account to Cash in the durable state, where the payment stands and the fees table
-- has the fee as paid.
pub record Paid (env : Env) (actor : User) (c cash income : ℕ) (fee : RegistrationFee) (db : Db)
    (u : Session) : Type 0 where
  pub owed : fee.status ≡ RegistrationFeeStatus.owed
  pub first : violates (new_payment env actor c fee) db ≡ false
  pub cash_rises : account_balance c cash u.saved ≡ account_balance c cash db +ℤ pos fee.amount
  pub income_falls :
      account_balance c income u.saved ≡ account_balance c income db -ℤ pos fee.amount
  pub payments : u.saved.fee_payments ≡ new_payment env actor c fee ∷ db.fee_payments
  pub fees : u.saved.fees ≡ (update_fee fee.id (set_status RegistrationFeeStatus.paid) db).fees

module _ (env : Env) (actor : User) (c cash income : ℕ) (fee : RegistrationFee) (db : Db)
    (earlier : List Db) (alone : env.concurrent ≡ [])
    (unposted : get_by_source SourceType.registration_fee_payment env.row_id db ≡ none)
    (cash_there : get_account_id c cash_code db ≡ ok cash)
    (income_there : get_account_id c registration_fees_code db ≡ ok income)
    (apart : cash ≢ income) where
  abbrev Q : Result RegistrationFee × Session → Type 0
  Q out =
      (f : RegistrationFee) (u : Session)
      → out ≡ (ok f, u)
      → (f ≡ set_status RegistrationFeeStatus.paid fee)
        × (fee.status ≡ RegistrationFeeStatus.owed → Paid env actor c cash income fee db u)

  raised : (e : AppError) (s : Session) → Q (err e, s)
  raised e s f u h = cc

  abbrev payment : RegistrationFeePayment
  payment = new_payment env actor c fee

  -- The payment is flushed, and the fee is changed.
  abbrev added : Session
  added = record {
    work = add_payment payment db;
    flushed = add_payment payment db;
    saved = db;
    earlier = earlier;
  }

  abbrev changed : Session
  changed = record added {
    work = update_fee fee.id (set_status RegistrationFeeStatus.paid) (add_payment payment db);
  }

  create_payment-ok :
      (a : Unit {0}) (u : Session)
      → create_payment payment (fresh db earlier) ≡ (ok a, u)
      → (added ≡ u) × (violates payment db ≡ false)
  unfolding create_payment ◌>>=◌ modify flush
  create_payment-ok a u h = elim (Bool-cases (violates payment db)) [
    | inl refused ↦
        let no : err AppError.integrity_error ≡ ok a =
          ap (λ (o : Result (Unit {0}) × Session). o.0) (rw refused at h) in
        cc
    | inr accepted ↦ (ap (λ (o : Result (Unit {0}) × Session). o.1) (rw accepted at h), accepted)
  ]

  abbrev posting : Posting
  posting = record {
    chama_id = c;
    source_type = SourceType.registration_fee_payment;
    source_id = env.row_id;
    description = some (Description.registration_fee_payment fee.id);
    lines = transfer_lines cash income fee.amount;
    reverses_transaction_id = none;
    require_membership = true;
  }

  post_fee-transfer :
      post_fee env actor c fee payment changed ≡ post_transaction env actor posting changed
  unfolding post_fee get_account_id update_fee add_payment new_payment
  post_fee-transfer =
      >>=-step (query (get_account_id c cash_code)) _ changed (ap (λ r. (r, changed)) cash_there)
      ∙ >>=-step (query (get_account_id c registration_fees_code)) _ changed
          (ap (λ r. (r, changed)) income_there)

  -- The handler raises, so a posting that went on has returned.
  except-ok :
      (m : Action LedgerTransaction) (s : Session) (tx : LedgerTransaction) (u : Session)
      → except_integrity m lost_race s ≡ (ok tx, u)
      → m s ≡ (ok tx, u)
  unfolding except_integrity handle lost_race ◌>>=◌ rollback
  except-ok m s tx u h = go (m s) refl h
    where
      go :
          (out : Result LedgerTransaction × Session)
          → m s ≡ out
          → handle out.0 lost_race out.1 ≡ (ok tx, u)
          → m s ≡ (ok tx, u)
      go (ok t, v) e k = e ∙ k
      go (err AppError.integrity_error, v) e k = cc
      go (err (AppError.not_found x), v) e k = cc
      go (err (AppError.conflict x), v) e k = cc
      go (err (AppError.permission_denied x), v) e k = cc
      go (err (AppError.state_error x), v) e k = cc
      go (err (AppError.rate_limited x), v) e k = cc
      go (err (AppError.webhook_rejected x), v) e k = cc
      go (err (AppError.provider_error x), v) e k = cc

  moved_by :
      (tx : LedgerTransaction) (u : Session)
      → (posted : Posted env actor posting changed tx u) → (account_id : ℕ)
      → account_balance c account_id u.work
        ≡ account_balance c account_id db +ℤ effect account_id (map entry_of posted.lines)
  unfolding update_fee add_payment
  moved_by tx u posted account_id =
      balance-moved env actor posting changed tx u db (record { flushed = refl; saved = refl }) refl
        posted account_id

  -- After the posting: the audit event and the commit.
  finish :
      (tx : LedgerTransaction) (u : Session)
      → Posted env actor posting changed tx u
      → violates payment db ≡ false
      → Q (
          (record_event actor c "registration_fee.pay" "registration_fee_payment" payment.id
              >> (commit >> pure (set_status RegistrationFeeStatus.paid fee)))
            u)
  unfolding record_event modify flush commit ◌>>=◌ add_event add_transaction update_fee add_payment
  finish tx u posted first f v h =
      let closing = ap (λ (o : Result RegistrationFee × Session). o.1) h in
      let fees_at = ap (λ (t : Session). t.work.fees) posted.state in
      let payments_at = ap (λ (t : Session). t.work.fee_payments) posted.state in
      let saved = λ (a : ℕ).
        account_balance-same c a v.saved u.work
          (sym (ap (λ (t : Session). t.saved.transactions) closing))
        ∙ moved_by tx u posted a in
      let down = effect-credited cash income fee.amount posted.lines posted.normal apart in
      let up = effect-debited cash income fee.amount posted.lines posted.normal apart in
      (
        sym (ok-injective (ap (λ (o : Result RegistrationFee × Session). o.0) h)),
        λ owed. record {
          owed = owed;
          first = first;
          cash_rises = saved cash ∙ rw up refl;
          income_falls = saved income ∙ rw down (omega int_laws);
          payments = sym (ap (λ (t : Session). t.saved.fee_payments) closing) ∙ payments_at;
          fees = sym (ap (λ (t : Session). t.saved.fees) closing) ∙ fees_at;
        },
      )

  posted-Paid :
      (tx : LedgerTransaction) (u : Session)
      → post_fee env actor c fee payment changed ≡ (ok tx, u)
      → violates payment db ≡ false
      → Q (
          (record_event actor c "registration_fee.pay" "registration_fee_payment" payment.id
              >> (commit >> pure (set_status RegistrationFeeStatus.paid fee)))
            u)
  unfolding update_fee add_payment get_by_source
  posted-Paid tx u done first =
      elim (post_transaction-Outcome env actor posting changed refl alone tx u
        (sym post_fee-transfer ∙ done)) [
          | inl posted ↦ finish tx u posted first
          | inr retried ↦ let e : none ≡ some tx = sym unposted ∙ retried.there in cc
        ]

  modify-paid :
      modify (update_fee fee.id (set_status RegistrationFeeStatus.paid)) added ≡ (ok tt, changed)
  unfolding modify
  modify-paid = refl

  pay_owed-Paid : Q (pay_owed env actor c fee (fresh db earlier))
  unfolding pay_owed
  pay_owed-Paid = passing (create_payment payment) _ (fresh db earlier) Q raised λ a u created.
      let (here, first) = create_payment-ok a u created in
      rw (← here) (
        going (modify (update_fee fee.id (set_status RegistrationFeeStatus.paid))) _ added Q tt
          changed modify-paid
          (passing (except_integrity (post_fee env actor c fee payment) lost_race) _ changed Q
            raised
            λ tx v done.
              posted-Paid tx v (except-ok (post_fee env actor c fee payment) changed tx v done)
                first))

as_officer-reads : (actor : User) (c : ℕ) (s : Session) → (as_officer actor c s).1 ≡ s
unfolding as_officer
as_officer-reads actor c s =
    let Q = λ (out : Result Membership × Session). out.1 ≡ s in
    reading (query (get_chama_or_404 c)) _ s Q refl (λ e. refl)
      λ _ _.
        reading (query (authorize_chama_write actor c)) _ s Q refl (λ e. refl)
          λ m _. reading (lift (require_roles m _)) _ s Q refl (λ e. refl) λ _ _. refl

fee_of-found :
    (c membership_id : ℕ) (m : Membership) (fee : RegistrationFee) (s : Session)
    → get_target_membership c membership_id s.flushed ≡ ok m
    → get_by_membership m.id s.flushed ≡ ok fee
    → fee_of c membership_id s ≡ (ok fee, s)
unfolding fee_of ◌>>=◌
fee_of-found c membership_id m fee s there found =
    rw there (ap (λ (r : Result RegistrationFee). (r, s)) found)

pay_in-owed :
    (status : RegistrationFeeStatus) (env : Env) (actor : User) (c : ℕ) (fee : RegistrationFee)
    → status ≡ RegistrationFeeStatus.owed
    → pay_in status env actor c fee ≡ pay_owed env actor c fee
unfolding pay_in
pay_in-owed RegistrationFeeStatus.owed env actor c fee h = refl
pay_in-owed RegistrationFeeStatus.paid env actor c fee h = cc
pay_in-owed RegistrationFeeStatus.waived env actor c fee h = cc

-- The payment of an owed registration fee that returns, from a session at its start, while no other session
-- posts, with an id that is no source of a posting yet, and where the Chama has distinct accounts for cash
-- and for registration fees: it gives back the fee as paid; its payment was the first confirmed one, and
-- of a positive amount; in the durable state the amount moved from the fees account to cash, and the fee
-- and the payment are stored.
pub pay_pays :
    (env : Env) (actor : User) (c cash income membership_id : ℕ) (m : Membership)
    (fee : RegistrationFee) (db : Db) (earlier : List Db)
    → env.concurrent ≡ []
    → get_by_source SourceType.registration_fee_payment env.row_id db ≡ none
    → get_account_id c cash_code db ≡ ok cash
    → get_account_id c registration_fees_code db ≡ ok income
    → cash ≢ income
    → get_target_membership c membership_id db ≡ ok m
    → get_by_membership m.id db ≡ ok fee
    → fee.status ≡ RegistrationFeeStatus.owed
    → (f : RegistrationFee) (u : Session)
    → pay env actor c membership_id (fresh db earlier) ≡ (ok f, u)
    → (f ≡ set_status RegistrationFeeStatus.paid fee) × Paid env actor c cash income fee db u
unfolding pay
pay_pays env actor c cash income membership_id m fee db earlier alone unposted cash_there
      income_there apart there found owed f u h =
    let s = fresh db earlier in
    let Q = λ (out : Result RegistrationFee × Session).
      (f : RegistrationFee) (u : Session)
      → out ≡ (ok f, u)
      → (f ≡ set_status RegistrationFeeStatus.paid fee)
        × (fee.status ≡ RegistrationFeeStatus.owed → Paid env actor c cash income fee db u) in
    let paid : Q (pay_owed env actor c fee s) =
      pay_owed-Paid env actor c cash income fee db earlier alone unposted cash_there income_there
        apart in
    let whole : Q (pay env actor c membership_id s) =
      reading (as_officer actor c) _ s Q (as_officer-reads actor c s) (λ e g v k. cc)
        λ _ _.
          going (fee_of c membership_id) _ s Q fee s
            (fee_of-found c membership_id m fee s there found)
            (subst (λ (k : Action RegistrationFee). Q (k s))
              (sym (pay_in-owed fee.status env actor c fee owed)) paid) in
    let (same, gives) = whole f u h in (same, gives owed)
