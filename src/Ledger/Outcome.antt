-- ===== src/Ledger/Outcome.antt =====
-- What a posting that returned has done, where no other session posts in between.
use chamacore.Prelude.{
  ◌≡◌, refl, sym, subst, ap, ◌∙◌, ◌⊎◌, inl, inr, Option, none, some, List, [], ◌∷◌, Bool-cases,
  arith,
}
use chamacore.Prelude.Table.{find?}
use chamacore.Data.{Env, User, LedgerTransaction}
use chamacore.Session.{
  Session, fresh, Action, Result, ok, err, AppError, query, lift, gets, integrity_error, rollback,
  modify, flush, commit, ◌>>=◌,
}
use chamacore.Session.Rules.{reading, >>=-step, ok-injective}
use chamacore.Access.{get_chama_or_404}
use chamacore.Ledger.{
  Posting, post_transaction, authorize_posting, check_source, validate_reversal_reference,
  insert_transaction, recover, post_new, new_transaction, resolve,
}
use chamacore.Ledger.Lines.{Line, normalize_lines, validate_lines}
use chamacore.Ledger.Lines.Accepted.{IsPostable, validate_lines_iff}
use chamacore.Ledger.Store.{
  land, add_transaction, violates_unique, has_source, get_by_source, resolve_idempotent_retry,
}
use chamacore.Ledger.Invariant.{authorize-reads, validate_reversal-reads}

-- A new row, committed with all that the session had pending.
pub record Posted (env : Env) (actor : User) (p : Posting) (s : Session) (tx : LedgerTransaction)
    (u : Session) : Type 0 where
  pub lines : List Line
  pub normal : normalize_lines p.lines ≡ ok lines
  pub postable : IsPostable p.chama_id s.flushed lines
  pub unposted : get_by_source p.source_type p.source_id s.flushed ≡ none
  pub row : tx ≡ new_transaction env actor p lines
  pub state : u ≡ fresh (add_transaction tx s.work) (s.saved ∷ s.earlier)

-- The transaction that was there, and nothing new.
pub record Retried (p : Posting) (s : Session) (tx : LedgerTransaction) (u : Session) : Type 0 where
  pub there : get_by_source p.source_type p.source_id s.flushed ≡ some tx
  pub state : u ≡ s

resolve-existing :
    (t : LedgerTransaction) (p : Posting) (lines : List Line) {tx : LedgerTransaction}
    → resolve t p lines ≡ ok tx
    → t ≡ tx
unfolding resolve resolve_idempotent_retry
resolve-existing t p lines h = ground arith

module _ (env : Env) (actor : User) (p : Posting) (s : Session) where
  abbrev Outcome : Result LedgerTransaction × Session → Type 0
  Outcome out =
      (tx : LedgerTransaction) (u : Session)
      → out ≡ (ok tx, u)
      → Posted env actor p s tx u ⊎ Retried p s tx u

  raised : (e : AppError) (u : Session) → Outcome (err e, u)
  raised e u tx v h = cc

  module _ (same_saved : s.saved.transactions ≡ s.flushed.transactions) (lines : List Line)
      (normal : normalize_lines p.lines ≡ ok lines)
      (postable : IsPostable p.chama_id s.flushed lines)
      (unposted : get_by_source p.source_type p.source_id s.flushed ≡ none) where
    nothing_saved : get_by_source p.source_type p.source_id s.saved ≡ none
    unfolding get_by_source
    nothing_saved = ap (find? (has_source p.source_type p.source_id)) same_saved ∙ unposted

    recover-Outcome : Outcome (recover p lines s)
    unfolding recover rollback ◌>>=◌
    recover-Outcome = rw nothing_saved (raised integrity_error (fresh s.saved s.earlier))

    abbrev new : LedgerTransaction
    new = new_transaction env actor p lines

    committed : LedgerTransaction → Session
    committed t = fresh (add_transaction t s.work) (s.saved ∷ s.earlier)

    won-Outcome : Outcome (ok new, committed new)
    unfolding committed
    won-Outcome tx u h =
        let row : new ≡ tx =
          ok-injective (ap (λ (o : Result LedgerTransaction × Session). o.0) h) in
        let state : committed new ≡ u = ap (λ (o : Result LedgerTransaction × Session). o.1) h in
        inl (record {
          lines = lines;
          normal = normal;
          postable = postable;
          unposted = unposted;
          row = sym row;
          state = sym state ∙ ap committed row;
        })

    insert-Outcome : Outcome (insert_transaction new p lines s)
    unfolding insert_transaction modify flush commit committed ◌>>=◌
    insert-Outcome = elim (Bool-cases (violates_unique new s.flushed)) [
      | inl lost ↦ rw lost recover-Outcome
      | inr won ↦ rw won won-Outcome
    ]

    land_nothing : land [] s ≡ (ok tt, s)
    unfolding land
    land_nothing = refl

    post_new-Outcome : env.concurrent ≡ [] → Outcome (post_new env actor p lines s)
    unfolding post_new
    post_new-Outcome alone =
        reading (validate_reversal_reference p.chama_id p.reverses_transaction_id) _ s Outcome
          (validate_reversal-reads p.chama_id p.reverses_transaction_id s) (λ e. raised e s)
          (λ _ _.
            subst Outcome
              (sym (
                >>=-step (land env.concurrent) (λ _. insert_transaction new p lines) s
                  (ap (λ rows. land rows s) alone ∙ land_nothing)))
              insert-Outcome)

  dispatch-Outcome :
      (lines : List Line)
      → s.saved.transactions ≡ s.flushed.transactions
      → env.concurrent ≡ []
      → normalize_lines p.lines ≡ ok lines
      → IsPostable p.chama_id s.flushed lines
      → (o : Option LedgerTransaction) → get_by_source p.source_type p.source_id s.flushed ≡ o
      → Outcome (
          (elim o as (λ _. Action LedgerTransaction) [
            | none ↦ post_new env actor p lines
            | some tx ↦ lift (resolve tx p lines)
          ])
            s)
  dispatch-Outcome lines same_saved alone normal postable none e tx u h =
      post_new-Outcome same_saved lines normal postable e alone tx u h
  dispatch-Outcome lines same_saved alone normal postable (some t) e tx u h =
      let agreed : resolve t p lines ≡ ok tx =
        ap (λ (o : Result LedgerTransaction × Session). o.0) h in
      inr (record {
        there = e ∙ ap some (resolve-existing t p lines agreed);
        state = sym (ap (λ (o : Result LedgerTransaction × Session). o.1) h);
      })

dispatched-Outcome :
    (env : Env) (actor : User) (p : Posting) (s : Session)
    → s.saved.transactions ≡ s.flushed.transactions
    → env.concurrent ≡ []
    → Outcome env actor p s (post_transaction env actor p s)
unfolding post_transaction
dispatched-Outcome env actor p s same_saved alone =
    let fails = λ (e : AppError). raised env actor p s e s in
    let Q = Outcome env actor p s in
    reading (query (get_chama_or_404 p.chama_id)) _ s Q refl fails λ _ _.
      reading (authorize_posting p.require_membership actor p.chama_id) _ s Q
        (authorize-reads p.require_membership actor p.chama_id s) fails
        λ _ _. reading (lift (normalize_lines p.lines)) _ s Q refl fails λ lines normal.
          reading (query (validate_lines p.chama_id lines)) _ s Q refl fails λ _ valid.
            reading (lift (check_source p)) _ s Q refl fails λ _ _.
              reading (gets (get_by_source p.source_type p.source_id)) _ s Q refl fails
                λ existing there.
                  dispatch-Outcome env actor p s lines same_saved alone normal
                    ((validate_lines_iff p.chama_id lines s.flushed).0 valid) existing
                    (ok-injective there)

-- A posting that returns, from a session with the durable transactions and with no other session in
-- between, has added exactly its own row and committed it with all that the session had pending, or it
-- has found its source posted already and changed nothing.
pub post_transaction-Outcome :
    (env : Env) (actor : User) (p : Posting) (s : Session)
    → s.saved.transactions ≡ s.flushed.transactions
    → env.concurrent ≡ []
    → (tx : LedgerTransaction) (u : Session) → post_transaction env actor p s ≡ (ok tx, u)
    → Posted env actor p s tx u ⊎ Retried p s tx u
post_transaction-Outcome env actor p s same_saved alone =
    dispatched-Outcome env actor p s same_saved alone
