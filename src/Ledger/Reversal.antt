-- ===== src/Ledger/Reversal.antt =====
-- `reverse_transaction`: a compensating transaction, which takes the effect of the original back.
use chamacore.Prelude.{
  ℕ, ◌≡◌, refl, sym, ap, ◌∙◌, ◌⊎◌, inl, inr, Option, none, some, [], map, ==_refl, is_some,
}
use chamacore.Prelude.Int.{sub_ℕ, ◌+ℤ◌, ◌-ℤ◌, int_laws}
use chamacore.Data.{Db, Env, User, LedgerTransaction, Description}
use chamacore.Session.{
  Session, Result, ok, err, AppError, query, lift, gets, raise_if, state_error, check, or_raise,
}
use chamacore.Session.Rules.{reading, ok-injective}
use chamacore.Access.{get_chama_or_404, authorize_chama_write}
use chamacore.Ledger.{Posting, post_transaction, reverse_transaction, reversal_of, new_transaction}
use chamacore.Ledger.Lines.{entry_of}
use chamacore.Ledger.Store.{
  add_transaction, get_by_id_in_chama, account_balance, account_debits, account_credits,
}
use chamacore.Ledger.Balances.{effect, effect-reversal, balance-add}
use chamacore.Ledger.Outcome.{Posted, post_transaction-Outcome}

-- No ledger row is pending in the session.
pub record IsClean (s : Session) : Type 0 where
  pub flushed : s.work.transactions ≡ s.flushed.transactions
  pub saved : s.saved.transactions ≡ s.flushed.transactions

-- Balances are read from the transactions alone.
pub account_balance-same :
    (chama_id account_id : ℕ) (a b : Db)
    → a.transactions ≡ b.transactions
    → account_balance chama_id account_id a ≡ account_balance chama_id account_id b
unfolding account_balance
account_balance-same chama_id account_id a b h =
    ap
      (λ ts. sub_ℕ (account_debits chama_id account_id ts) (account_credits chama_id account_id ts))
      h

-- What a posted row does to the balances of its Chama.
pub balance-Posted :
    (env : Env) (actor : User) (p : Posting) (s : Session) (tx : LedgerTransaction) (u : Session)
    → IsClean s
    → (posted : Posted env actor p s tx u) → (account_id : ℕ)
    → account_balance p.chama_id account_id u.flushed
      ≡ account_balance p.chama_id account_id s.flushed
        +ℤ effect account_id (map entry_of posted.lines)
unfolding new_transaction
balance-Posted env actor p s tx u clean posted account_id =
    ap (λ (v : Session). account_balance p.chama_id account_id v.flushed) posted.state
    ∙ ap (λ t. account_balance p.chama_id account_id (add_transaction t s.work)) posted.row
    ∙ balance-add p.chama_id account_id (new_transaction env actor p posted.lines) s.work
    ∙ rw (==_refl p.chama_id) (
        ap (λ b. b +ℤ effect account_id (map entry_of posted.lines))
          (account_balance-same p.chama_id account_id s.work s.flushed clean.flushed))

-- The same from the ledger of a database, which what is pending besides does not touch.
pub balance-moved :
    (env : Env) (actor : User) (p : Posting) (s : Session) (tx : LedgerTransaction) (u : Session)
    (db : Db)
    → IsClean s
    → s.flushed.transactions ≡ db.transactions
    → (posted : Posted env actor p s tx u) → (account_id : ℕ)
    → account_balance p.chama_id account_id u.work
      ≡ account_balance p.chama_id account_id db +ℤ effect account_id (map entry_of posted.lines)
balance-moved env actor p s tx u db clean same posted account_id =
    ap (λ (t : Session). account_balance p.chama_id account_id t.work) posted.state
    ∙ sym (ap (λ (t : Session). account_balance p.chama_id account_id t.flushed) posted.state)
    ∙ balance-Posted env actor p s tx u clean posted account_id
    ∙ ap (λ b. b +ℤ effect account_id (map entry_of posted.lines))
        (account_balance-same p.chama_id account_id s.flushed db same)

-- The account balances of the Chama after its transaction was taken back.
abbrev pub Cancels : ℕ → LedgerTransaction → Session → Session → Type 0
Cancels chama_id original s u =
    (account_id : ℕ)
    → account_balance chama_id account_id u.flushed
      ≡ account_balance chama_id account_id s.flushed -ℤ effect account_id original.entries

module _ (env : Env) (actor : User) (chama_id transaction_id : ℕ) (description : Option Description)
    (s : Session) (clean : IsClean s) (alone : env.concurrent ≡ []) where
  abbrev Reversed : Result LedgerTransaction × Session → Type 0
  Reversed out =
      (tx : LedgerTransaction) (u : Session)
      → out ≡ (ok tx, u)
      → (original : LedgerTransaction) × (get_by_id_in_chama chama_id transaction_id s.flushed
          ≡ some original)
        × (original.reverses_transaction_id ≡ none)
        × ((u ≡ s) ⊎ Cancels chama_id original s u)

  cancels :
      (original : LedgerTransaction) (tx : LedgerTransaction) (u : Session)
      → Posted env actor (reversal_of original chama_id description) s tx u
      → Cancels chama_id original s u
  unfolding reversal_of
  cancels original tx u posted account_id =
      balance-Posted env actor (reversal_of original chama_id description) s tx u clean posted
        account_id
      ∙ rw (effect-reversal account_id original.entries posted.lines posted.normal) (omega int_laws)

  post-Reversed :
      (original : LedgerTransaction)
      → get_by_id_in_chama chama_id transaction_id s.flushed ≡ some original
      → original.reverses_transaction_id ≡ none
      → Reversed (post_transaction env actor (reversal_of original chama_id description) s)
  post-Reversed original found direct tx u h =
      elim (post_transaction-Outcome env actor (reversal_of original chama_id description) s
        clean.saved alone tx u h) [
          | inl posted ↦ (original, found, direct, inr (cancels original tx u posted))
          | inr retried ↦ (original, found, direct, inl retried.state)
        ]

  direct-from-check : (r : Option ℕ) (e : AppError) → check (is_some r) e ≡ ok tt → r ≡ none
  direct-from-check none e h = refl
  direct-from-check (some r) e h = cc

  found-from-raise :
      (o : Option LedgerTransaction) (e : AppError) (t : LedgerTransaction)
      → or_raise o e ≡ ok t
      → o ≡ some t
  found-from-raise none e t h = cc
  found-from-raise (some x) e t h = ap some (ok-injective h)

  reverse-Reversed : Reversed (reverse_transaction env actor chama_id transaction_id description s)
  unfolding reverse_transaction
  reverse-Reversed =
      let fails = λ (e : AppError). let no : Reversed (err e, s) = (λ tx u h. cc) in no in
      reading (query (get_chama_or_404 chama_id)) _ s Reversed refl fails λ _ _.
        reading (query (authorize_chama_write actor chama_id)) _ s Reversed refl fails λ _ _.
          reading (gets (get_by_id_in_chama chama_id transaction_id)) _ s Reversed refl fails
            λ found is_found.
              reading
                (lift (or_raise found (state_error "Ledger transaction not found in this Chama"))) _
                s Reversed refl fails
                λ t is_t.
                  reading
                    (raise_if (is_some t.reverses_transaction_id)
                      (state_error "A reversal transaction cannot be reversed"))
                    _ s Reversed refl fails
                    λ _ checked.
                      post-Reversed t (ok-injective is_found ∙ found-from-raise found _ t is_t)
                        (direct-from-check t.reverses_transaction_id _ checked)

-- A reversal that returns has reversed a transaction of the Chama that is no reversal itself: it took
-- the transaction's effect back from the balance of every account of the Chama, or the same reversal
-- was there already and nothing changed.
pub reverse_transaction-Cancels :
    (env : Env) (actor : User) (chama_id transaction_id : ℕ) (description : Option Description)
    (s : Session)
    → IsClean s
    → env.concurrent ≡ []
    → (tx : LedgerTransaction) (u : Session)
    → reverse_transaction env actor chama_id transaction_id description s ≡ (ok tx, u)
    → (original : LedgerTransaction) × (get_by_id_in_chama chama_id transaction_id s.flushed
        ≡ some original)
      × (original.reverses_transaction_id ≡ none)
      × ((u ≡ s) ⊎ Cancels chama_id original s u)
reverse_transaction-Cancels env actor chama_id transaction_id description s clean alone =
    reverse-Reversed env actor chama_id transaction_id description s clean alone
