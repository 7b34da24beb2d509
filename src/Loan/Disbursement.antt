-- ===== src/Loan/Disbursement.antt =====
-- What a disbursement that returned has done.
use chamacore.Prelude.{
  ℕ, ◌≡◌, ◌≢◌, refl, sym, ap, ◌∙◌, inl, inr, true, false, none, some, List, [], ◌∷◌, map,
  if◌then◌else◌, Bool-cases, arith,
}
use chamacore.Prelude.Int.{ℤ, pos, ◌≤ℤ◌, ltb_ℤ, ◌+ℤ◌, ◌-ℤ◌, int_laws}
use chamacore.Prelude.Table.{any}
use chamacore.Data.{
  Db, Env, User, Loan, LoanStatus, LedgerTransaction, SourceType, Description, cash_code,
  loans_receivable_code, same_loan_status, same_loan_status_iff,
}
use chamacore.Session.{
  Session, fresh, Result, ok, err, AppError, query, raise_if, gets, modify, flush, commit, after,
  ◌>>=◌, ◌>>◌,
}
use chamacore.Session.Rules.{reading, going, passing, >>=-step, ok-injective, check-ok}
use chamacore.Audit.{record_event, add_event}
use chamacore.Finance.{get_account_id, available_chama_cash, lock_cash_account}
use chamacore.Ledger.{Posting, post_transaction}
use chamacore.Ledger.Balances.{effect}
use chamacore.Ledger.Lines.{entry_of}
use chamacore.Ledger.Outcome.{Posted, post_transaction-Outcome}
use chamacore.Ledger.Reversal.{balance-moved, account_balance-same}
use chamacore.Ledger.Store.{account_balance, add_transaction, get_by_source}
use chamacore.Ledger.Transfer.{transfer_lines, effect-credited, effect-debited}
use chamacore.Loan.{disburse, already_disbursed, is_disbursed, pay_out, post_disbursement}
use chamacore.Loan.Rules.{
  chama_loan-ok, as_chairperson-reads, get_chama_loan-reads, moved, transitioning, find_loan-update,
}
use chamacore.Loan.Store.{
  find_loan, chama_loan, get_chama_loan, update_loan, set_status, as_chairperson,
}
use chamacore.Loan.Terms.{add_months}

-- The dates and the user of a disbursement of a loan.
abbrev dated : Env → User → Loan → Loan → Loan
dated env actor loan l = record l {
  disbursement_date = some env.now;
  maturity_date = some (add_months env.now loan.term_months);
  disbursed_by_user_id = some actor.id;
}

-- An approved loan's principal, which the Chama had in cash, has moved from Cash to Loans Receivable in
-- the durable state, where the loan is disbursed.
pub record Paid (c cash receivable : ℕ) (loan : Loan) (db : Db) (l : Loan) (u : Session)
    : Type 0 where
  pub approved : loan.status ≡ LoanStatus.approved
  pub covered : pos loan.principal ≤ℤ account_balance c cash db
  pub cash_falls : account_balance c cash u.saved ≡ account_balance c cash db -ℤ pos loan.principal
  pub receivable_rises :
      account_balance c receivable u.saved ≡ account_balance c receivable db +ℤ pos loan.principal
  pub stored : find_loan loan.id u.saved ≡ some l
  pub status : l.status ≡ LoanStatus.disbursed

module _ (env : Env) (actor : User) (c cash receivable : ℕ) (loan : Loan) (db : Db)
    (earlier : List Db) (alone : env.concurrent ≡ []) (found : find_loan loan.id db ≡ some loan)
    (unposted : get_by_source SourceType.loan_disbursement loan.id db ≡ none)
    (cash_there : get_account_id c cash_code db ≡ ok cash)
    (receivable_there : get_account_id c loans_receivable_code db ≡ ok receivable)
    (apart : receivable ≢ cash) where
  abbrev Q : Result Loan × Session → Type 0
  Q out = (l : Loan) (u : Session) → out ≡ (ok l, u) → Paid c cash receivable loan db l u

  raised : (e : AppError) (s : Session) → Q (err e, s)
  raised e s l u h = cc

  abbrev disbursed_loan : Session
  disbursed_loan = moved loan LoanStatus.disbursed (fresh db earlier)

  abbrev dated_loan : Session
  dated_loan = record disbursed_loan {
    work = update_loan loan.id (dated env actor loan) disbursed_loan.work;
  }

  abbrev posting : Posting
  posting = record {
    chama_id = c;
    source_type = SourceType.loan_disbursement;
    source_id = loan.id;
    description = some (Description.loan_disbursement loan.id);
    lines = transfer_lines receivable cash loan.principal;
    reverses_transaction_id = none;
    require_membership = true;
  }

  -- The accounts are those of the chart, so the posting is a transfer.
  post_disbursement-transfer :
      post_disbursement env actor c loan dated_loan ≡ post_transaction env actor posting dated_loan
  unfolding post_disbursement get_account_id update_loan
  post_disbursement-transfer =
      >>=-step (query (get_account_id c loans_receivable_code)) _ dated_loan
        (ap (λ r. (r, dated_loan)) receivable_there)
      ∙ >>=-step (query (get_account_id c cash_code)) _ dated_loan
          (ap (λ r. (r, dated_loan)) cash_there)

  abbrev disbursed_row : Loan
  disbursed_row = dated env actor loan (set_status LoanStatus.disbursed loan)

  row_there : find_loan loan.id dated_loan.work ≡ some disbursed_row
  row_there =
      find_loan-update loan.id (dated env actor loan) disbursed_loan.work
        (set_status LoanStatus.disbursed loan) (λ x. refl)
        (find_loan-update loan.id (set_status LoanStatus.disbursed) db loan (λ x. refl) found)

  moved_by :
      (tx : LedgerTransaction) (u : Session)
      → (posted : Posted env actor posting dated_loan tx u) → (account_id : ℕ)
      → account_balance c account_id u.work
        ≡ account_balance c account_id db +ℤ effect account_id (map entry_of posted.lines)
  unfolding update_loan
  moved_by tx u posted account_id =
      balance-moved env actor posting dated_loan tx u db (record { flushed = refl; saved = refl })
        refl posted account_id

  -- After the posting: the audit event, the commit, and the read.
  finish :
      (tx : LedgerTransaction) (u : Session)
      → Posted env actor posting dated_loan tx u
      → loan.status ≡ LoanStatus.approved
      → pos loan.principal ≤ℤ account_balance c cash db
      → Q (
          (record_event actor c "loan.disburse" "loan" loan.id
              >> (commit >> get_chama_loan c loan.id))
            u)
  unfolding record_event modify flush commit get_chama_loan chama_loan ◌>>=◌ add_event find_loan
      add_transaction
  finish tx u posted approved covered l v h =
      let read : chama_loan c loan.id u.work ≡ ok l = ap (λ (o : Result Loan × Session). o.0) h in
      let closing = ap (λ (o : Result Loan × Session). o.1) h in
      let there : find_loan loan.id u.work ≡ some l = (chama_loan-ok c loan.id u.work l read).0 in
      let written : find_loan loan.id u.work ≡ some disbursed_row =
        ap (λ (t : Session). find_loan loan.id t.work) posted.state ∙ row_there in
      let row : disbursed_row ≡ l = cc in
      let saved = λ (a : ℕ).
        account_balance-same c a v.saved u.work
          (sym (ap (λ (t : Session). t.saved.transactions) closing))
        ∙ moved_by tx u posted a in
      let down = effect-credited receivable cash loan.principal posted.lines posted.normal apart in
      let up = effect-debited receivable cash loan.principal posted.lines posted.normal apart in
      record {
        approved = approved;
        covered = covered;
        cash_falls = saved cash ∙ rw down (omega int_laws);
        receivable_rises = saved receivable ∙ rw up refl;
        stored = sym (ap (λ (t : Session). find_loan loan.id t.saved) closing) ∙ there;
        status = sym (ap (λ (x : Loan). x.status) row);
      }

  modify-dated :
      modify (update_loan loan.id (dated env actor loan)) disbursed_loan ≡ (ok tt, dated_loan)
  unfolding modify
  modify-dated = refl

  approved_only :
      any (same_loan_status loan.status) (LoanStatus.approved ∷ []) ≡ true
      → loan.status ≡ LoanStatus.approved
  approved_only allowed = (same_loan_status_iff loan.status LoanStatus.approved).0 (ground arith)

  held_enough :
      (held : ℤ)
      → available_chama_cash c disbursed_loan.flushed ≡ ok held
      → ltb_ℤ held (pos loan.principal) ≡ false
      → pos loan.principal ≤ℤ account_balance c cash db
  unfolding available_chama_cash update_loan get_account_id account_balance
  held_enough held is_held enough =
      let same : account_balance c cash db ≡ held =
        ok-injective
          (sym (ap (λ r. after r (λ a. ok (account_balance c a db))) cash_there) ∙ is_held) in
      rw same (ground arith)

  posted-Paid :
      (tx : LedgerTransaction) (u : Session)
      → post_disbursement env actor c loan dated_loan ≡ (ok tx, u)
      → loan.status ≡ LoanStatus.approved
      → pos loan.principal ≤ℤ account_balance c cash db
      → Q (
          (record_event actor c "loan.disburse" "loan" loan.id
              >> (commit >> get_chama_loan c loan.id))
            u)
  unfolding update_loan get_by_source
  posted-Paid tx u done approved covered =
      elim (post_transaction-Outcome env actor posting dated_loan refl alone tx u
        (sym post_disbursement-transfer ∙ done)) [
          | inl posted ↦ finish tx u posted approved covered
          | inr retried ↦ let e : none ≡ some tx = sym unposted ∙ retried.there in cc
        ]

  pay_out-Paid : Q (pay_out env actor c loan (fresh db earlier))
  unfolding pay_out
  pay_out-Paid =
      reading (query (lock_cash_account c)) _ (fresh db earlier) Q refl (λ e. raised e _)
        λ _ _.
          transitioning loan (LoanStatus.approved ∷ []) LoanStatus.disbursed _ (fresh db earlier) Q
            (λ e. raised e _)
            λ allowed.
              reading (query (available_chama_cash c)) _ disbursed_loan Q refl (λ e. raised e _)
                λ held is_held.
                  reading (raise_if (ltb_ℤ held (pos loan.principal)) _) _ disbursed_loan Q refl
                    (λ e. raised e _)
                    λ _ enough.
                      going (modify (update_loan loan.id (dated env actor loan))) _ disbursed_loan Q
                        tt dated_loan modify-dated
                        (passing (post_disbursement env actor c loan) _ dated_loan Q raised
                          λ tx u done.
                            posted-Paid tx u done (approved_only allowed)
                              (held_enough held is_held (check-ok _ _ enough)))

  is_disbursed-dispatch :
      (status : LoanStatus)
      → Q (
          (if is_disbursed status then already_disbursed none loan else pay_out env actor c loan)
            (fresh db earlier))
  unfolding already_disbursed ◌>>=◌
  is_disbursed-dispatch status = elim (Bool-cases (is_disbursed status)) [
    | inl done ↦ rw done (raised _ _)
    | inr pending ↦ rw pending pay_out-Paid
  ]

  disburse-Paid : Q (disburse env actor c loan.id (fresh db earlier))
  unfolding disburse
  disburse-Paid =
      let s = fresh db earlier in
      reading (as_chairperson actor c) _ s Q (as_chairperson-reads actor c s) (λ e. raised e s)
        λ _ _.
          reading (get_chama_loan c loan.id) _ s Q
            (ap (λ (o : Result Loan × Session). o.1) (get_chama_loan-reads c loan.id s))
            (λ e. raised e s)
            λ loaded is_loaded.
              let read : chama_loan c loan.id db ≡ ok loaded =
                sym (ap (λ (o : Result Loan × Session). o.0) (get_chama_loan-reads c loan.id s))
                ∙ is_loaded in
              let there : find_loan loan.id db ≡ some loaded =
                (chama_loan-ok c loan.id db loaded read).0 in
              let same : loan ≡ loaded = cc in
              rw (← same) (
                going (gets (get_by_source SourceType.loan_disbursement loan.id)) _ s Q none s
                  (ap (λ o. (ok o, s)) unposted) (is_disbursed-dispatch loan.status))

-- A disbursement that returns, of a loan with no ledger posting, while no other session posts and where
-- the Chama has distinct accounts for cash and for loans receivable: the loan was approved and the
-- Chama's cash covered its principal; in the durable state the principal has moved from cash to loans
-- receivable, and the loan is stored as disbursed.
pub disburse_pays :
    (env : Env) (actor : User) (c cash receivable : ℕ) (loan : Loan) (db : Db) (earlier : List Db)
    → env.concurrent ≡ []
    → find_loan loan.id db ≡ some loan
    → get_by_source SourceType.loan_disbursement loan.id db ≡ none
    → get_account_id c cash_code db ≡ ok cash
    → get_account_id c loans_receivable_code db ≡ ok receivable
    → receivable ≢ cash
    → (l : Loan) (u : Session) → disburse env actor c loan.id (fresh db earlier) ≡ (ok l, u)
    → Paid c cash receivable loan db l u
disburse_pays env actor c cash receivable loan db earlier alone found unposted cash_there
      receivable_there apart =
    disburse-Paid env actor c cash receivable loan db earlier alone found unposted cash_there
      receivable_there apart
