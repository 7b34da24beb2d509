-- ===== src/Ledger/Trial.antt =====
-- Balances against the entries one by one, and the trial balance: `balances_in_chama` of
-- app/repositories/ledger.py.
use native.Mathlib.Nat.{zero-add}
use chamacore.Prelude.{
  ℕ, ◌+◌, ◌≡◌, refl, sym, ◌∙◌, true, false, List, [], ◌∷◌, ◌++◌, ◌==◌, is_some, if◌then◌else◌,
  Bool-cases, inl, inr, arith,
}
use chamacore.Prelude.Int.{ℤ, pos, sub_ℕ, sub_ℕ_parts, sub_ℕ-add, ◌+ℤ◌, ◌-ℤ◌, int_laws, eq_of_parts}
use chamacore.Prelude.Table.{All, any, find?, select, sum_of}
use chamacore.Data.{Db, LedgerAccount, LedgerEntry, LedgerTransaction}
use chamacore.Ledger.Book.{IsSoundDb, IsBook, total_debit, total_credit}
use chamacore.Ledger.Store.{
  is_account, account_balance, account_debits, account_credits, debits_of, credits_of,
}

-- The entries of a Chama, the newest transaction first.
abbrev pub chama_entries : ℕ → List LedgerTransaction → List LedgerEntry
chama_entries chama_id [] = []
chama_entries chama_id (t ∷ ts) =
    let rest = chama_entries chama_id ts in
    if t.chama_id == chama_id then t.entries ++ rest else rest

-- What an account holds after entries, one after the other: an entry on it adds its debit and takes
-- its credit, an entry on another account does nothing.
unfoldable pub running : ℕ → List LedgerEntry → ℤ
running account_id [] = pos 0
running account_id (e ∷ es) =
    let before = running account_id es in
    if e.account_id == account_id then before +ℤ pos e.debit -ℤ pos e.credit else before

-- The balances of the Chama's accounts, added up.
unfoldable pub trial_balance : ℕ → Db → List LedgerAccount → ℤ
trial_balance chama_id db [] = pos 0
trial_balance chama_id db (a ∷ accounts) =
    let rest = trial_balance chama_id db accounts in
    if a.chama_id == chama_id then rest +ℤ account_balance chama_id a.id db else rest

-- The primary key of the accounts.
unfoldable pub DistinctIds : List LedgerAccount → Type 0
DistinctIds [] = Unit
DistinctIds (a ∷ accounts) = (any (λ b. b.id == a.id) accounts ≡ false) × DistinctIds accounts

abbrev of_account : (LedgerEntry → ℕ) → ℕ → List LedgerEntry → ℕ
of_account amount account_id es = sum_of amount (select (λ e. e.account_id == account_id) es)

abbrev of_chama : (LedgerEntry → ℕ) → ℕ → ℕ → List LedgerTransaction → ℕ
of_chama amount chama_id account_id ts =
    sum_of (λ t. of_account amount account_id t.entries) (select (λ t. t.chama_id == chama_id) ts)

-- A figure of an account, for the accounts of the Chama.
abbrev own : ℕ → (ℕ → ℕ) → LedgerAccount → ℕ
own chama_id f a = if a.chama_id == chama_id then f a.id else 0

module _ (chama_id : ℕ) where
  sum_own-add :
      (f g h : ℕ → ℕ) (accounts : List LedgerAccount)
      → ((k : ℕ) → h k ≡ f k + g k)
      → sum_of (own chama_id h) accounts
        ≡ sum_of (own chama_id f) accounts + sum_of (own chama_id g) accounts
  sum_own-add f g h [] split = refl
  sum_own-add f g h (a ∷ accounts) split =
      ground (arith, split a.id, sum_own-add f g h accounts split)

  absent :
      (id x : ℕ) (accounts : List LedgerAccount)
      → any (λ b. b.id == id) accounts ≡ false
      → sum_of (own chama_id (λ k. if id == k then x else 0)) accounts ≡ 0
  absent id x [] none_there = refl
  absent id x (a ∷ accounts) none_there = elim (Bool-cases (a.id == id)) [
    | inl hit ↦ let no : true ≡ false = rw hit at none_there in cc
    | inr miss ↦
        let later : any (λ b. b.id == id) accounts ≡ false = rw miss at none_there in
        ground (arith, absent id x accounts later)
  ]

  own_none : (accounts : List LedgerAccount) → sum_of (own chama_id (λ k. 0)) accounts ≡ 0
  own_none [] = refl
  own_none (a ∷ accounts) = ground (arith, own_none accounts)

  -- The account of an entry counts once.
  once :
      (id x : ℕ) (accounts : List LedgerAccount)
      → DistinctIds accounts
      → is_some (find? (is_account chama_id id) accounts) ≡ true
      → sum_of (own chama_id (λ k. if id == k then x else 0)) accounts ≡ x
  unfolding DistinctIds
  once id x [] distinct there = cc
  once id x (a ∷ accounts) distinct there = elim (Bool-cases (is_account chama_id id a)) [
    | inl hit ↦
        let e : a.id ≡ id = ground arith in
        let alone : any (λ b. b.id == id) accounts ≡ false = rw e at distinct.0 in
        ground (arith, absent id x accounts alone)
    | inr miss ↦
        let later : is_some (find? (is_account chama_id id) accounts) ≡ true = rw miss at there in
        ground (arith, once id x accounts distinct.1 later)
  ]

  module _ (amount : LedgerEntry → ℕ) (accounts : List LedgerAccount)
      (distinct : DistinctIds accounts) where
    -- Entries on the Chama's accounts are counted by their accounts.
    entries_split :
        (es : List LedgerEntry)
        → All (λ e. is_some (find? (is_account chama_id e.account_id) accounts) ≡ true) es
        → sum_of (own chama_id (λ k. of_account amount k es)) accounts ≡ sum_of amount es
    entries_split [] known = own_none accounts
    entries_split (e ∷ es) known =
        sum_own-add (λ k. if e.account_id == k then amount e else 0) (λ k. of_account amount k es)
          (λ k. of_account amount k (e ∷ es)) accounts (λ k. ground arith)
        ∙ rw (once e.account_id (amount e) accounts distinct known.0, entries_split es known.1)

    transactions_split :
        (ts : List LedgerTransaction)
        → IsBook accounts ts
        → sum_of (own chama_id (λ k. of_chama amount chama_id k ts)) accounts
          ≡ sum_of (λ t. sum_of amount t.entries) (select (λ t. t.chama_id == chama_id) ts)
    transactions_split [] book = own_none accounts
    transactions_split (t ∷ ts) book = elim (Bool-cases (t.chama_id == chama_id)) [
      | inl here ↦
          let e : t.chama_id ≡ chama_id = ground arith in
          let known : All (λ x. is_some (find? (is_account chama_id x.account_id) accounts) ≡ true)
              t.entries =
            rw e at book.0.known in
          rw here (
            sum_own-add (λ k. of_account amount k t.entries) (λ k. of_chama amount chama_id k ts)
              (λ k. of_account amount k t.entries + of_chama amount chama_id k ts) accounts
              (λ k. refl)
            ∙ rw (entries_split t.entries known, transactions_split ts book.1))
      | inr other ↦ rw other (transactions_split ts book.1)
    ]

  debits_credits :
      (accounts : List LedgerAccount) (ts : List LedgerTransaction)
      → IsBook accounts ts
      → sum_of (λ t. total_debit t.entries) (select (λ t. t.chama_id == chama_id) ts)
        ≡ sum_of (λ t. total_credit t.entries) (select (λ t. t.chama_id == chama_id) ts)
  debits_credits accounts [] book = refl
  debits_credits accounts (t ∷ ts) book =
      ground (arith, book.0.balanced, debits_credits accounts ts book.1)

  trial_balance-parts :
      (db : Db) (accounts : List LedgerAccount)
      → trial_balance chama_id db accounts
        ≡ sub_ℕ
            (sum_of
              (own chama_id (λ k. of_chama (λ e. e.debit) chama_id k db.transactions))
              accounts)
            (sum_of
              (own chama_id (λ k. of_chama (λ e. e.credit) chama_id k db.transactions))
              accounts)
  unfolding trial_balance account_balance account_debits account_credits
  trial_balance-parts db [] = refl
  trial_balance-parts db (a ∷ accounts) = elim (Bool-cases (a.chama_id == chama_id)) [
    | inl here ↦ rw (here, trial_balance-parts db accounts) (sym (sub_ℕ-add _ _ _ _))
    | inr other ↦ rw (other, zero-add, zero-add, trial_balance-parts db accounts) refl
  ]

-- In a sound ledger whose accounts have distinct ids, the balances of a Chama's accounts add up to 0.
pub trial_balance-zero :
    (chama_id : ℕ) (db : Db)
    → IsSoundDb db
    → DistinctIds db.accounts
    → trial_balance chama_id db db.accounts ≡ pos 0
trial_balance-zero chama_id db sound distinct =
    trial_balance-parts chama_id db db.accounts
    ∙ rw
        (
          transactions_split chama_id (λ e. e.debit) db.accounts distinct db.transactions sound,
          transactions_split chama_id (λ e. e.credit) db.accounts distinct db.transactions sound,
          debits_credits chama_id db.accounts db.transactions sound,
        )
        (ground arith)

running-append :
    (account_id : ℕ) (es fs : List LedgerEntry)
    → running account_id (es ++ fs)
      ≡ running account_id fs +ℤ sub_ℕ (debits_of account_id es) (credits_of account_id es)
unfolding running
running-append account_id [] fs = eq_of_parts _ _ (omega int_laws)
running-append account_id (e ∷ es) fs = elim (Bool-cases (e.account_id == account_id)) [
  | inl on ↦
      rw (on, running-append account_id es fs)
        (eq_of_parts _ _ (
          omega (
            int_laws,
            sub_ℕ_parts (debits_of account_id es) (credits_of account_id es),
            sub_ℕ_parts (e.debit + debits_of account_id es) (e.credit + credits_of account_id es),
          )))
  | inr off ↦ rw off (running-append account_id es fs)
]

running-parts :
    (chama_id account_id : ℕ) (ts : List LedgerTransaction)
    → sub_ℕ (account_debits chama_id account_id ts) (account_credits chama_id account_id ts)
      ≡ running account_id (chama_entries chama_id ts)
unfolding account_debits account_credits running
running-parts chama_id account_id [] = refl
running-parts chama_id account_id (t ∷ ts) = elim (Bool-cases (t.chama_id == chama_id)) [
  | inl here ↦
      rw (here, running-append account_id t.entries (chama_entries chama_id ts))
        (sub_ℕ-add (debits_of account_id t.entries) (credits_of account_id t.entries)
            (account_debits chama_id account_id ts) (account_credits chama_id account_id ts)
          ∙ rw (running-parts chama_id account_id ts) refl)
  | inr other ↦ rw other (running-parts chama_id account_id ts)
]

-- The balance of an account is what it holds after all entries of the Chama, one after the other.
pub account_balance-running :
    (chama_id account_id : ℕ) (db : Db)
    → account_balance chama_id account_id db
      ≡ running account_id (chama_entries chama_id db.transactions)
unfolding account_balance
account_balance-running chama_id account_id db = running-parts chama_id account_id db.transactions
