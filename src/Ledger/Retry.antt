-- ===== src/Ledger/Retry.antt =====
-- Idempotency of a posting: a retry returns the transaction that is there and changes nothing.
use chamacore.Prelude.{
  ℕ, ◌≡◌, refl, ap, ◌∙◌, Bool, true, false, Option, none, some, List, [], ◌∷◌, ◌++◌, map, opt_eq,
  ==_refl, arith, inl, inr, Bool-cases,
}
use text.Mathlib.TextPositions.{eq_refl}
use chamacore.Data.{
  Db, Chama, Env, User, LedgerTransaction, LedgerEntry, Description, same_source_iff,
}
use chamacore.Data.Description.{
  contribution_confirmation, contribution_reversal, loan_disbursement, loan_repayment,
  loan_repayment_reversal, payout_completion, payout_reversal, registration_fee_payment,
  registration_fee_reversal, given,
}
use chamacore.Session.{
  Session, fresh, Action, Result, ok, err, AppError, query, lift, gets, raise, integrity_error,
  rollback, modify, flush, commit, ◌>>=◌,
}
use chamacore.Session.Rules.{reading, ok-injective}
use chamacore.Access.{get_chama_or_404, authorize_chama_write, authorize_chama_access}
use chamacore.Ledger.{
  Posting, post_transaction, authorize_posting, check_source, validate_reversal_reference,
  insert_transaction, recover, post_new, new_transaction, resolve,
}
use chamacore.Ledger.Lines.{Line, entry_of, normalize_lines, validate_lines}
use chamacore.Ledger.Lines.Accepted.{validate_lines_iff}
use chamacore.Ledger.Invariant.{authorize-reads, validate_reversal-reads}
use chamacore.Ledger.Store.{
  land, add_transaction, violates_unique, get_by_source, get_in_chama, same_description, same_text,
  same_entries, sorted, resolve_idempotent_retry,
}

same_text_refl : (d : Description) → same_text d d ≡ true
unfolding same_text
same_text_refl (contribution_confirmation a) = eq_refl a
same_text_refl (contribution_reversal a) = eq_refl a
same_text_refl (loan_disbursement a) = ==_refl a
same_text_refl (loan_repayment a) = ==_refl a
same_text_refl (loan_repayment_reversal a) = ==_refl a
same_text_refl (payout_completion a) = ==_refl a
same_text_refl (payout_reversal a) = ==_refl a
same_text_refl (registration_fee_payment a) = ==_refl a
same_text_refl (registration_fee_reversal a) = ==_refl a
same_text_refl (given a) = eq_refl a

same_description_refl : (d : Option Description) → same_description d d ≡ true
unfolding same_description
same_description_refl none = refl
same_description_refl (some d) = same_text_refl d

opt_eq_refl : (r : Option ℕ) → opt_eq r r ≡ true
opt_eq_refl none = refl
opt_eq_refl (some r) = ==_refl r

same_entries_refl : (es : List LedgerEntry) → same_entries es es ≡ true
unfolding same_entries
same_entries_refl [] = refl
same_entries_refl (e ∷ es) =
    rw (==_refl e.account_id, ==_refl e.debit, ==_refl e.credit) (same_entries_refl es)

-- A posting agrees with the row that it makes.
resolve-new :
    (env : Env) (actor : User) (p : Posting) (lines : List Line)
    → resolve (new_transaction env actor p lines) p lines ≡ ok (new_transaction env actor p lines)
unfolding resolve new_transaction resolve_idempotent_retry
resolve-new env actor p lines = ground (
  arith,
  same_description_refl p.description,
  opt_eq_refl p.reverses_transaction_id,
  same_entries_refl (sorted (map entry_of lines)),
)

get_by_source-new :
    (t : LedgerTransaction) (db : Db)
    → get_by_source t.source_type t.source_id (add_transaction t db) ≡ some t
unfolding get_by_source add_transaction
get_by_source-new t db =
    rw ((same_source_iff t.source_type t.source_type).1 refl, ==_refl t.source_id)

-- What authorization and the chart read is not the ledger's transactions.
get_chama-same :
    (chama_id : ℕ) (db : Db) (ts : List LedgerTransaction)
    → get_chama_or_404 chama_id (record db { transactions = ts }) ≡ get_chama_or_404 chama_id db
unfolding get_chama_or_404
get_chama-same chama_id db ts = refl

authorize_chama_write-same :
    (actor : User) (chama_id : ℕ) (db : Db) (ts : List LedgerTransaction)
    → authorize_chama_write actor chama_id (record db { transactions = ts })
      ≡ authorize_chama_write actor chama_id db
unfolding authorize_chama_write authorize_chama_access get_chama_or_404
authorize_chama_write-same actor chama_id db ts = refl

authorize_posting-same :
    (b : Bool) (actor : User) (chama_id : ℕ) (db : Db) (ts : List LedgerTransaction)
    (earlier earlier' : List Db)
    → (authorize_posting b actor chama_id (fresh db earlier)).0 ≡ ok tt
    → authorize_posting b actor chama_id (fresh (record db { transactions = ts }) earlier')
      ≡ (ok tt, fresh (record db { transactions = ts }) earlier')
unfolding authorize_posting ◌>>=◌
authorize_posting-same true actor chama_id db ts earlier earlier' h =
    ground (arith, authorize_chama_write-same actor chama_id db ts)
authorize_posting-same false actor chama_id db ts earlier earlier' h = refl

validate_lines-same :
    (chama_id : ℕ) (lines : List Line) (db : Db) (ts : List LedgerTransaction)
    → validate_lines chama_id lines db ≡ ok tt
    → validate_lines chama_id lines (record db { transactions = ts }) ≡ ok tt
unfolding get_in_chama
validate_lines-same chama_id lines db ts h =
    let postable = (validate_lines_iff chama_id lines db).0 h in
    (validate_lines_iff chama_id lines (record db { transactions = ts })).1 (record {
      sides = postable.sides;
      known = postable.known;
      moves = postable.moves;
      balanced = postable.balanced;
    })

-- What a posting in state `db` passed before it looked for its source.
record IsAdmitted (actor : User) (p : Posting) (db : Db) (lines : List Line) : Type 0 where
  chama : Chama
  found : get_chama_or_404 p.chama_id db ≡ ok chama
  history : List Db
  allowed : (authorize_posting p.require_membership actor p.chama_id (fresh db history)).0 ≡ ok tt
  normal : normalize_lines p.lines ≡ ok lines
  valid : validate_lines p.chama_id lines db ≡ ok tt
  source : check_source p ≡ ok tt

-- The retry: the same posting, where its source is there.
replay :
    (env : Env) (actor : User) (p : Posting) (db : Db) (lines : List Line)
    (ts : List LedgerTransaction) (earlier : List Db) (t tx : LedgerTransaction)
    → IsAdmitted actor p db lines
    → get_by_source p.source_type p.source_id (record db { transactions = ts }) ≡ some t
    → resolve t p lines ≡ ok tx
    → post_transaction env actor p (fresh (record db { transactions = ts }) earlier)
      ≡ (ok tx, fresh (record db { transactions = ts }) earlier)
unfolding post_transaction ◌>>=◌
replay env actor p db lines ts earlier t tx a there agrees = rw (
  get_chama-same p.chama_id db ts,
  a.found,
  authorize_posting-same p.require_membership actor p.chama_id db ts a.history earlier a.allowed,
  a.normal,
  validate_lines-same p.chama_id lines db ts a.valid,
  a.source,
  there,
  agrees,
)

-- What is claimed of a call's outcome: if it returned a transaction, the same call now returns it again
-- and leaves the session as it is, whatever the clock and the ids of the retry.
abbrev IsSettled : User → Posting → Result LedgerTransaction × Session → Type 0
IsSettled actor p out =
    (tx : LedgerTransaction) (u : Session)
    → out ≡ (ok tx, u)
    → (env : Env) → post_transaction env actor p u ≡ (ok tx, u)

raised-IsSettled :
    (actor : User) (p : Posting) (e : AppError) (s : Session) → IsSettled actor p (err e, s)
raised-IsSettled actor p e s tx u h = cc

-- A call that ends with what the source's transaction says.
resolved-IsSettled :
    (actor : User) (p : Posting) (db : Db) (lines : List Line) (ts : List LedgerTransaction)
    (earlier : List Db) (t : LedgerTransaction) (r : Result LedgerTransaction)
    → IsAdmitted actor p db lines
    → get_by_source p.source_type p.source_id (record db { transactions = ts }) ≡ some t
    → resolve t p lines ≡ r
    → IsSettled actor p (r, fresh (record db { transactions = ts }) earlier)
resolved-IsSettled actor p db lines ts earlier t (err e) a there agrees tx u h env = cc
resolved-IsSettled actor p db lines ts earlier t (ok x) a there agrees tx u h env =
    let same_state : fresh (record db { transactions = ts }) earlier ≡ u =
      ap (λ (o : Result LedgerTransaction × Session). o.1) h in
    let same_row : Result.ok x ≡ ok tx = ap (λ (o : Result LedgerTransaction × Session). o.0) h in
    rw (← same_state) (replay env actor p db lines ts earlier t tx a there (agrees ∙ same_row))

module _ (env : Env) (actor : User) (p : Posting) (db : Db) (earlier : List Db) (lines : List Line)
    (a : IsAdmitted actor p db lines) where
  abbrev rows : List LedgerTransaction
  rows = env.concurrent ++ db.transactions

  abbrev landed : Session
  landed = fresh (record db { transactions = rows }) earlier

  recover-IsSettled : IsSettled actor p (recover p lines landed)
  unfolding recover rollback ◌>>=◌
  recover-IsSettled = go (get_by_source p.source_type p.source_id landed.flushed) refl
    where
      go :
          (o : Option LedgerTransaction)
          → get_by_source p.source_type p.source_id landed.flushed ≡ o
          → IsSettled actor p (
              (elim o as (λ _. Action LedgerTransaction) [
                | none ↦ raise integrity_error
                | some tx ↦ lift (resolve tx p lines)
              ])
                landed)
      go none e = raised-IsSettled actor p integrity_error landed
      go (some t) e =
          resolved-IsSettled actor p db lines rows earlier t (resolve t p lines) a e refl

  insert-IsSettled :
      IsSettled actor p (insert_transaction (new_transaction env actor p lines) p lines landed)
  unfolding insert_transaction modify flush commit ◌>>=◌ add_transaction new_transaction
  insert-IsSettled =
      let new = new_transaction env actor p lines in
      elim (Bool-cases (violates_unique new landed.flushed)) [
        | inl lost ↦ rw lost recover-IsSettled
        | inr won ↦ rw won (
            resolved-IsSettled actor p db lines (new ∷ rows) (landed.saved ∷ earlier) new (ok new) a
              (get_by_source-new new landed.flushed) (resolve-new env actor p lines))
      ]

  new-IsSettled : IsSettled actor p (post_new env actor p lines (fresh db earlier))
  unfolding post_new land ◌>>=◌
  new-IsSettled =
      reading (validate_reversal_reference p.chama_id p.reverses_transaction_id) _
        (fresh db earlier) (IsSettled actor p)
        (validate_reversal-reads p.chama_id p.reverses_transaction_id (fresh db earlier))
        (λ e. raised-IsSettled actor p e (fresh db earlier)) (λ _ _. insert-IsSettled)

  dispatch-IsSettled :
      (o : Option LedgerTransaction)
      → get_by_source p.source_type p.source_id db ≡ o
      → IsSettled actor p (
          (elim o as (λ _. Action LedgerTransaction) [
            | none ↦ post_new env actor p lines
            | some tx ↦ lift (resolve tx p lines)
          ])
            (fresh db earlier))
  dispatch-IsSettled none e = new-IsSettled
  dispatch-IsSettled (some t) e =
      resolved-IsSettled actor p db lines db.transactions earlier t (resolve t p lines) a e refl

post_transaction-IsSettled :
    (env : Env) (actor : User) (p : Posting) (db : Db) (earlier : List Db)
    → IsSettled actor p (post_transaction env actor p (fresh db earlier))
unfolding post_transaction
post_transaction-IsSettled env actor p db earlier =
    let s = fresh db earlier in
    let raised = λ (e : AppError). raised-IsSettled actor p e s in
    let Q = IsSettled actor p in
    reading (query (get_chama_or_404 p.chama_id)) _ s Q refl raised λ chama found.
      reading (authorize_posting p.require_membership actor p.chama_id) _ s Q
        (authorize-reads p.require_membership actor p.chama_id s) raised
        λ _ allowed. reading (lift (normalize_lines p.lines)) _ s Q refl raised λ lines normal.
          reading (query (validate_lines p.chama_id lines)) _ s Q refl raised λ _ valid.
            reading (lift (check_source p)) _ s Q refl raised λ _ source.
              reading (gets (get_by_source p.source_type p.source_id)) _ s Q refl raised
                λ existing there.
                  dispatch-IsSettled env actor p db earlier lines
                    (record {
                      chama = chama;
                      found = found;
                      history = earlier;
                      allowed = allowed;
                      normal = normal;
                      valid = valid;
                      source = source;
                    })
                    existing (ok-injective there)

-- A retry is idempotent: where a posting from a fresh session returned a transaction, on any of its
-- paths and also after losing a race to another session, the same posting returns that transaction
-- again and changes nothing, at any later time and with any new ids.
pub post_transaction_retry :
    (env : Env) (actor : User) (p : Posting) (db : Db) (earlier : List Db) (tx : LedgerTransaction)
    (u : Session)
    → post_transaction env actor p (fresh db earlier) ≡ (ok tx, u)
    → (later : Env) → post_transaction later actor p u ≡ (ok tx, u)
post_transaction_retry env actor p db earlier = post_transaction-IsSettled env actor p db earlier
