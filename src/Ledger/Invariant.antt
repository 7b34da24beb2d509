-- ===== src/Ledger/Invariant.antt =====
-- Posting keeps the books: every view of the database that a session, a crash or another session can
-- see is a sound ledger.
use chamacore.Prelude.{
  ℕ, ◌≡◌, refl, sym, Bool, true, false, ◌&&◌, Option, none, some, List, [], ◌∷◌, ◌++◌, is_some,
  ◌==◌, if◌then◌else◌, arith, inl, inr, Bool-cases, Option-cases,
}
use mathlib.Core.Path.{subst₂}
use chamacore.Prelude.Table.{All, any, find?}
use chamacore.Data.{Db, Env, User, LedgerTransaction, SourceType, same_source}
use chamacore.Session.{
  Session, fresh, Action, Result, ok, query, lift, gets, modify, flush, commit, rollback, ◌>>=◌,
}
use chamacore.Session.Rules.{reading}
use chamacore.Access.{get_chama_or_404}
use chamacore.Ledger.{
  Posting, post_transaction, authorize_posting, check_source, validate_reversal_reference,
  insert_transaction, post_new, new_transaction, resolve,
}
use chamacore.Ledger.Lines.{Line, normalize_lines, validate_lines}
use chamacore.Ledger.Lines.Accepted.{IsPostable, validate_lines_iff}
use chamacore.Ledger.Store.{
  land, add_transaction, violates_unique, get_by_source, get_by_id_in_chama, has_source,
  same_reversal,
}
use chamacore.Ledger.Book.{
  IsSound, IsBook, IsSoundDb, Target, reversible, entries-sides, entries-debit, entries-credit,
  entries-Known, any-append,
}

-- Every view is a sound ledger, and the request has no ledger row that it has not flushed.
pub record IsSoundSession (s : Session) : Type 0 where
  pub book : IsSoundDb s.flushed
  pub durable : IsSoundDb s.saved
  pub history : All IsSoundDb s.earlier
  pub same_transactions : s.work.transactions ≡ s.flushed.transactions
  pub same_accounts : s.work.accounts ≡ s.flushed.accounts

find-reversible :
    (chama_id r : ℕ) (ts : List LedgerTransaction) (t : LedgerTransaction)
    → find? (λ x. x.id == r && x.chama_id == chama_id) ts ≡ some t
    → t.reverses_transaction_id ≡ none
    → any (reversible chama_id r) ts ≡ true
find-reversible chama_id r [] t e n = cc
find-reversible chama_id r (x ∷ ts) t e n =
    elim (Bool-cases (x.id == r && x.chama_id == chama_id)) [
      | inl hit ↦ ground arith
      | inr miss ↦ ground (arith, find-reversible chama_id r ts t (rw miss at e) n)
    ]

-- The reversal reference, as checked, names a reversible transaction.
validate_reversal-Target :
    (chama_id : ℕ) (r : Option ℕ) (s : Session)
    → (validate_reversal_reference chama_id r s).0 ≡ ok tt
    → Target chama_id r s.flushed.transactions
unfolding validate_reversal_reference get_by_id_in_chama ◌>>=◌
validate_reversal-Target chama_id none s h = tt
validate_reversal-Target chama_id (some r) s h =
    elim (Option-cases (get_by_id_in_chama chama_id r s.flushed)) [
      | inl missing ↦ absurd (ground arith)
      | inr (t, found) ↦ find-reversible chama_id r s.flushed.transactions t found (ground arith)
    ]

pub validate_reversal-reads :
    (chama_id : ℕ) (r : Option ℕ) (s : Session) → (validate_reversal_reference chama_id r s).1 ≡ s
unfolding validate_reversal_reference ◌>>=◌
validate_reversal-reads chama_id none s = refl
validate_reversal-reads chama_id (some r) s = ground arith

-- What the insert leaves: another session's post wins, or the row is committed.
insert-state :
    (tx : LedgerTransaction) (p : Posting) (lines : List Line) (s : Session)
    → (insert_transaction tx p lines s).1 ≡ (
        if violates_unique tx s.flushed
        then fresh s.saved s.earlier
        else fresh (add_transaction tx s.work) (s.saved ∷ s.earlier))
unfolding insert_transaction ◌>>=◌ modify flush commit rollback
insert-state tx p lines s = ground arith

insert-IsSoundSession :
    (tx : LedgerTransaction) (p : Posting) (lines : List Line) (s : Session)
    → IsSoundSession s
    → (violates_unique tx s.flushed ≡ false → IsSound s.flushed.accounts tx s.flushed.transactions)
    → IsSoundSession (insert_transaction tx p lines s).1
unfolding add_transaction
insert-IsSoundSession tx p lines s h sound =
    rw insert-state (elim (Bool-cases (violates_unique tx s.flushed)) [
      | inl lost ↦ rw lost (record {
        book = h.durable;
        durable = h.durable;
        history = h.history;
        same_transactions = refl;
        same_accounts = refl;
      })
      | inr won ↦
          let row =
            subst₂ (λ accounts ts. IsBook accounts (tx ∷ ts)) (sym h.same_accounts)
              (sym h.same_transactions) (sound won, h.book) in
          rw won (record {
            book = row;
            durable = row;
            history = (h.durable, h.history);
            same_transactions = refl;
            same_accounts = refl;
          })
    ])

-- The row of an accepted posting extends the book.
module _ (env : Env) (actor : User) (p : Posting) (lines : List Line) (db : Db)
    (postable : IsPostable p.chama_id db lines) (source : check_source p ≡ ok tt) where
  -- The reversal reference and the reversal source type come together.
  kind : same_source p.source_type SourceType.ledger_reversal ≡ is_some p.reverses_transaction_id
  unfolding check_source
  kind = ground arith

  new_transaction-IsSound :
      (older : List LedgerTransaction)
      → any (has_source p.source_type p.source_id) older ≡ false
      → same_reversal p.reverses_transaction_id older ≡ false
      → Target p.chama_id p.reverses_transaction_id older
      → IsSound db.accounts (new_transaction env actor p lines) older
  unfolding new_transaction
  new_transaction-IsSound older fresh_source fresh_reversal t = record {
    sides = entries-sides lines postable.sides;
    known = entries-Known p.chama_id db lines postable.known;
    moves = rw entries-debit postable.moves;
    balanced = rw (entries-debit, entries-credit) postable.balanced;
    new_source = fresh_source;
    new_reversal = fresh_reversal;
    kind = kind;
    target = t;
  }

violates-false :
    (t : LedgerTransaction) (db : Db)
    → violates_unique t db ≡ false
    → (any (has_source t.source_type t.source_id) db.transactions ≡ false)
      × (same_reversal t.reverses_transaction_id db.transactions ≡ false)
unfolding violates_unique
violates-false t db h = ground arith

Target-append :
    (chama_id : ℕ) (r : Option ℕ) (rows ts : List LedgerTransaction)
    → Target chama_id r ts
    → Target chama_id r (rows ++ ts)
Target-append chama_id none rows ts h = tt
Target-append chama_id (some r) rows ts h = any-append (reversible chama_id r) rows ts h

-- What other sessions commit during this post keeps the views sound.
abbrev pub Lands : Env → Session → Type 0
Lands env s = IsSoundSession (land env.concurrent s).1

module _ (env : Env) (actor : User) (p : Posting) (s : Session) (h : IsSoundSession s) where
  post_new-IsSoundSession :
      (lines : List Line)
      → IsPostable p.chama_id s.flushed lines
      → check_source p ≡ ok tt
      → Lands env s
      → IsSoundSession (post_new env actor p lines s).1
  unfolding post_new land ◌>>=◌
  post_new-IsSoundSession lines postable source landed =
      reading (validate_reversal_reference p.chama_id p.reverses_transaction_id) _ s
        (λ out. IsSoundSession out.1)
        (validate_reversal-reads p.chama_id p.reverses_transaction_id s) (λ e. h)
        (λ _ checked.
          insert-IsSoundSession (new_transaction env actor p lines) p lines
            (land env.concurrent s).1 landed
            (λ won.
              let (fresh_source, fresh_reversal) =
                violates-false (new_transaction env actor p lines) (land env.concurrent s).1.flushed
                  won in
              new_transaction-IsSound env actor p lines s.flushed postable source
                (env.concurrent ++ s.flushed.transactions) fresh_source fresh_reversal
                (Target-append p.chama_id p.reverses_transaction_id env.concurrent
                  s.flushed.transactions
                  (validate_reversal-Target p.chama_id p.reverses_transaction_id s checked))))

  abbrev Out : Result LedgerTransaction × Session → Type 0
  Out out = IsSoundSession out.1

  dispatch-IsSoundSession :
      (lines : List Line) (existing : Option LedgerTransaction)
      → IsPostable p.chama_id s.flushed lines
      → check_source p ≡ ok tt
      → Lands env s
      → Out (
          (elim existing as (λ _. Action LedgerTransaction) [
            | none ↦ post_new env actor p lines
            | some tx ↦ lift (resolve tx p lines)
          ])
            s)
  dispatch-IsSoundSession lines none postable source landed =
      post_new-IsSoundSession lines postable source landed
  dispatch-IsSoundSession lines (some tx) postable source landed = h

pub authorize-reads :
    (b : Bool) (actor : User) (chama_id : ℕ) (s : Session)
    → (authorize_posting b actor chama_id s).1 ≡ s
unfolding authorize_posting ◌>>=◌
authorize-reads true actor chama_id s = ground arith
authorize-reads false actor chama_id s = refl

-- From a session whose views are sound ledgers, and are sound too with the rows that other sessions
-- commit during the post, posting leaves every view of the database a sound ledger, whether it returns
-- or raises.
pub post_transaction-IsSoundSession :
    (env : Env) (actor : User) (p : Posting) (s : Session)
    → IsSoundSession s
    → Lands env s
    → IsSoundSession (post_transaction env actor p s).1
unfolding post_transaction
post_transaction-IsSoundSession env actor p s h landed =
    reading (query (get_chama_or_404 p.chama_id)) _ s (Out env actor p s h) refl (λ e. h)
      λ chama found.
        reading (authorize_posting p.require_membership actor p.chama_id) _ s (Out env actor p s h)
          (authorize-reads p.require_membership actor p.chama_id s) (λ e. h)
          λ _ _.
            reading (lift (normalize_lines p.lines)) _ s (Out env actor p s h) refl (λ e. h)
              λ lines normal.
                reading (query (validate_lines p.chama_id lines)) _ s (Out env actor p s h) refl
                  (λ e. h)
                  λ _ valid.
                    reading (lift (check_source p)) _ s (Out env actor p s h) refl (λ e. h)
                      λ _ source.
                        reading (gets (get_by_source p.source_type p.source_id)) _ s
                          (Out env actor p s h) refl (λ e. h)
                          λ existing _.
                            dispatch-IsSoundSession env actor p s h lines existing
                              ((validate_lines_iff p.chama_id lines s.flushed).0 valid) source
                              landed

-- With no other session in between.
pub alone-Lands : (env : Env) (s : Session) → env.concurrent ≡ [] → IsSoundSession s → Lands env s
unfolding land
alone-Lands env s e h = rw e h
