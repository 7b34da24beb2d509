-- ===== src/Payout/Completion.antt =====
-- What a completion of a payout that returned has done.
use chamacore.Prelude.{
  ℕ, ◌≡◌, ◌≢◌, refl, sym, ap, ◌∙◌, inl, inr, true, false, none, some, List, [], ◌∷◌, map,
  if◌then◌else◌, Bool-cases, arith,
}
use chamacore.Prelude.Int.{ℤ, pos, ◌≤ℤ◌, ltb_ℤ, ◌+ℤ◌, ◌-ℤ◌, int_laws}
use chamacore.Prelude.Table.{any, find?}
use chamacore.Data.{
  Db, Env, User, Payout, PayoutStatus, LedgerTransaction, SourceType, Description, cash_code,
  share_capital_code, same_payout_status, same_payout_status_iff,
}
use chamacore.Session.{
  Session, fresh, Result, ok, err, AppError, query, raise_if, gets, modify, flush, commit, after,
  ◌>>=◌, ◌>>◌,
}
use chamacore.Session.Rules.{reading, going, passing, >>=-step, ok-injective, check-ok}
use chamacore.Audit.{record_event, add_event}
use chamacore.Finance.{get_account_id, available_chama_cash, lock_cash_account}
use chamacore.Ledger.{Posting, post_transaction}
use chamacore.Ledger.Balances.{effect}
use chamacore.Ledger.Lines.{entry_of}
use chamacore.Ledger.Outcome.{Posted, post_transaction-Outcome}
use chamacore.Ledger.Reversal.{balance-moved, account_balance-same}
use chamacore.Ledger.Store.{account_balance, add_transaction, get_by_source}
use chamacore.Ledger.Transfer.{transfer_lines, effect-credited, effect-debited}
use chamacore.Payout.{
  complete, already_completed, is_completed, pay_out, post_completion, as_officer,
}
use chamacore.Payout.Rules.{
  chama_payout-ok, as_officer-reads, get_chama_payout-reads, moved, transitioning,
  find-update_payout,
}
use chamacore.Payout.Store.{chama_payout, get_chama_payout, update_payout, set_status, is_payout}

-- The time and the user of a completion of a payout.
abbrev timed : Env → User → Payout → Payout
timed env actor l = record l { completed_by_user_id = some actor.id; completed_at = some env.now }

-- The amount of a payout in processing, which the Chama had in cash, has moved from Cash to Share
-- Capital in the durable state, where the payout is completed.
pub record Paid (c cash capital : ℕ) (payout : Payout) (db : Db) (l : Payout) (u : Session)
    : Type 0 where
  pub processing : payout.status ≡ PayoutStatus.processing
  pub covered : pos payout.amount ≤ℤ account_balance c cash db
  pub cash_falls : account_balance c cash u.saved ≡ account_balance c cash db -ℤ pos payout.amount
  pub capital_rises :
      account_balance c capital u.saved ≡ account_balance c capital db +ℤ pos payout.amount
  pub stored : find? (is_payout payout.id) u.saved.payouts ≡ some l
  pub status : l.status ≡ PayoutStatus.completed

module _ (env : Env) (actor : User) (c cash capital : ℕ) (payout : Payout) (db : Db)
    (earlier : List Db) (alone : env.concurrent ≡ [])
    (found : find? (is_payout payout.id) db.payouts ≡ some payout)
    (unposted : get_by_source SourceType.payout_completion payout.id db ≡ none)
    (cash_there : get_account_id c cash_code db ≡ ok cash)
    (capital_there : get_account_id c share_capital_code db ≡ ok capital)
    (apart : capital ≢ cash) where
  abbrev Q : Result Payout × Session → Type 0
  Q out = (l : Payout) (u : Session) → out ≡ (ok l, u) → Paid c cash capital payout db l u

  raised : (e : AppError) (s : Session) → Q (err e, s)
  raised e s l u h = cc

  abbrev completed_payout : Session
  completed_payout = moved payout PayoutStatus.completed (fresh db earlier)

  abbrev timed_payout : Session
  timed_payout = record completed_payout {
    work = update_payout payout.id (timed env actor) completed_payout.work;
  }

  abbrev posting : Posting
  posting = record {
    chama_id = c;
    source_type = SourceType.payout_completion;
    source_id = payout.id;
    description = some (Description.payout_completion payout.id);
    lines = transfer_lines capital cash payout.amount;
    reverses_transaction_id = none;
    require_membership = true;
  }

  -- The accounts are those of the chart, so the posting is a transfer.
  post_completion-transfer :
      post_completion env actor c payout timed_payout
      ≡ post_transaction env actor posting timed_payout
  unfolding post_completion get_account_id update_payout
  post_completion-transfer =
      >>=-step (query (get_account_id c share_capital_code)) _ timed_payout
        (ap (λ r. (r, timed_payout)) capital_there)
      ∙ >>=-step (query (get_account_id c cash_code)) _ timed_payout
          (ap (λ r. (r, timed_payout)) cash_there)

  abbrev completed_row : Payout
  completed_row = timed env actor (set_status PayoutStatus.completed payout)

  row_there : find? (is_payout payout.id) timed_payout.work.payouts ≡ some completed_row
  row_there =
      find-update_payout payout.id (timed env actor) completed_payout.work
        (set_status PayoutStatus.completed payout) (λ x. refl)
        (find-update_payout payout.id (set_status PayoutStatus.completed) db payout (λ x. refl)
          found)

  moved_by :
      (tx : LedgerTransaction) (u : Session)
      → (posted : Posted env actor posting timed_payout tx u) → (account_id : ℕ)
      → account_balance c account_id u.work
        ≡ account_balance c account_id db +ℤ effect account_id (map entry_of posted.lines)
  unfolding update_payout
  moved_by tx u posted account_id =
      balance-moved env actor posting timed_payout tx u db (record { flushed = refl; saved = refl })
        refl posted account_id

  -- After the posting: the audit event, the commit, and the read.
  finish :
      (tx : LedgerTransaction) (u : Session)
      → Posted env actor posting timed_payout tx u
      → payout.status ≡ PayoutStatus.processing
      → pos payout.amount ≤ℤ account_balance c cash db
      → Q (
          (record_event actor c "payout.complete" "payout" payout.id
              >> (commit >> get_chama_payout c payout.id))
            u)
  unfolding record_event modify flush commit get_chama_payout chama_payout ◌>>=◌ add_event
      add_transaction
  finish tx u posted processing covered l v h =
      let read : chama_payout c payout.id u.work ≡ ok l =
        ap (λ (o : Result Payout × Session). o.0) h in
      let closing = ap (λ (o : Result Payout × Session). o.1) h in
      let there : find? (is_payout payout.id) u.work.payouts ≡ some l =
        (chama_payout-ok c payout.id u.work l read).0 in
      let written : find? (is_payout payout.id) u.work.payouts ≡ some completed_row =
        ap (λ (t : Session). find? (is_payout payout.id) t.work.payouts) posted.state ∙ row_there in
      let row : completed_row ≡ l = cc in
      let saved = λ (a : ℕ).
        account_balance-same c a v.saved u.work
          (sym (ap (λ (t : Session). t.saved.transactions) closing))
        ∙ moved_by tx u posted a in
      let down = effect-credited capital cash payout.amount posted.lines posted.normal apart in
      let up = effect-debited capital cash payout.amount posted.lines posted.normal apart in
      record {
        processing = processing;
        covered = covered;
        cash_falls = saved cash ∙ rw down (omega int_laws);
        capital_rises = saved capital ∙ rw up refl;
        stored =
            sym (ap (λ (t : Session). find? (is_payout payout.id) t.saved.payouts) closing) ∙ there;
        status = sym (ap (λ (x : Payout). x.status) row);
      }

  modify-timed :
      modify (update_payout payout.id (timed env actor)) completed_payout ≡ (ok tt, timed_payout)
  unfolding modify
  modify-timed = refl

  processing_only :
      any (same_payout_status payout.status) (PayoutStatus.processing ∷ []) ≡ true
      → payout.status ≡ PayoutStatus.processing
  processing_only allowed =
      (same_payout_status_iff payout.status PayoutStatus.processing).0 (ground arith)

  held_enough :
      (held : ℤ)
      → available_chama_cash c completed_payout.flushed ≡ ok held
      → ltb_ℤ held (pos payout.amount) ≡ false
      → pos payout.amount ≤ℤ account_balance c cash db
  unfolding available_chama_cash update_payout get_account_id account_balance
  held_enough held is_held enough =
      let same : account_balance c cash db ≡ held =
        ok-injective
          (sym (ap (λ r. after r (λ a. ok (account_balance c a db))) cash_there) ∙ is_held) in
      rw same (ground arith)

  posted-Paid :
      (tx : LedgerTransaction) (u : Session)
      → post_completion env actor c payout timed_payout ≡ (ok tx, u)
      → payout.status ≡ PayoutStatus.processing
      → pos payout.amount ≤ℤ account_balance c cash db
      → Q (
          (record_event actor c "payout.complete" "payout" payout.id
              >> (commit >> get_chama_payout c payout.id))
            u)
  unfolding update_payout get_by_source
  posted-Paid tx u done processing covered =
      elim (post_transaction-Outcome env actor posting timed_payout refl alone tx u
        (sym post_completion-transfer ∙ done)) [
          | inl posted ↦ finish tx u posted processing covered
          | inr retried ↦ let e : none ≡ some tx = sym unposted ∙ retried.there in cc
        ]

  pay_out-Paid : Q (pay_out env actor c payout (fresh db earlier))
  unfolding pay_out
  pay_out-Paid =
      reading (query (lock_cash_account c)) _ (fresh db earlier) Q refl (λ e. raised e _)
        λ _ _.
          transitioning payout (PayoutStatus.processing ∷ []) PayoutStatus.completed _
            (fresh db earlier) Q (λ e. raised e _)
            λ allowed.
              reading (query (available_chama_cash c)) _ completed_payout Q refl (λ e. raised e _)
                λ held is_held.
                  reading (raise_if (ltb_ℤ held (pos payout.amount)) _) _ completed_payout Q refl
                    (λ e. raised e _)
                    λ _ enough.
                      going (modify (update_payout payout.id (timed env actor))) _ completed_payout
                        Q tt timed_payout modify-timed
                        (passing (post_completion env actor c payout) _ timed_payout Q raised
                          λ tx u done.
                            posted-Paid tx u done (processing_only allowed)
                              (held_enough held is_held (check-ok _ _ enough)))

  is_completed-dispatch :
      (status : PayoutStatus)
      → Q (
          (if is_completed status
              then already_completed none payout
              else pay_out env actor c payout)
            (fresh db earlier))
  unfolding already_completed ◌>>=◌
  is_completed-dispatch status = elim (Bool-cases (is_completed status)) [
    | inl done ↦ rw done (raised _ _)
    | inr pending ↦ rw pending pay_out-Paid
  ]

  complete-Paid : Q (complete env actor c payout.id (fresh db earlier))
  unfolding complete
  complete-Paid =
      let s = fresh db earlier in
      reading (as_officer actor c) _ s Q (as_officer-reads actor c s) (λ e. raised e s)
        λ _ _.
          reading (get_chama_payout c payout.id) _ s Q
            (ap (λ (o : Result Payout × Session). o.1) (get_chama_payout-reads c payout.id s))
            (λ e. raised e s)
            λ loaded is_loaded.
              let read : chama_payout c payout.id db ≡ ok loaded =
                sym
                  (ap (λ (o : Result Payout × Session). o.0) (get_chama_payout-reads c payout.id s))
                ∙ is_loaded in
              let there : find? (is_payout payout.id) db.payouts ≡ some loaded =
                (chama_payout-ok c payout.id db loaded read).0 in
              let same : payout ≡ loaded = cc in
              rw (← same) (
                going (gets (get_by_source SourceType.payout_completion payout.id)) _ s Q none s
                  (ap (λ o. (ok o, s)) unposted) (is_completed-dispatch payout.status))

-- A completion that returns, of a payout with no ledger posting, while no other session posts and where
-- the Chama has distinct accounts for cash and for share capital: the payout was in processing and the
-- Chama's cash covered its amount; in the durable state the amount has moved from cash to share
-- capital, and the payout is stored as completed.
pub complete_pays :
    (env : Env) (actor : User) (c cash capital : ℕ) (payout : Payout) (db : Db) (earlier : List Db)
    → env.concurrent ≡ []
    → find? (is_payout payout.id) db.payouts ≡ some payout
    → get_by_source SourceType.payout_completion payout.id db ≡ none
    → get_account_id c cash_code db ≡ ok cash
    → get_account_id c share_capital_code db ≡ ok capital
    → capital ≢ cash
    → (l : Payout) (u : Session) → complete env actor c payout.id (fresh db earlier) ≡ (ok l, u)
    → Paid c cash capital payout db l u
complete_pays env actor c cash capital payout db earlier alone found unposted cash_there
      capital_there apart =
    complete-Paid env actor c cash capital payout db earlier alone found unposted cash_there
      capital_there apart
