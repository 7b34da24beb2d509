-- ===== src/Ledger/Book.antt =====
-- The invariant of the ledger's tables: every transaction is a balanced double entry over accounts of
-- its Chama, no source is posted twice, and a transaction is reversed at most once, by a transaction
-- that is itself never reversed.
use chamacore.Prelude.{
  ℕ, ◌<◌, ◌≡◌, refl, ◌⊎◌, Bool, true, false, ◌&&◌, not, Option, none, some, List, [], ◌∷◌, ◌++◌,
  map, is_some, ◌==◌, arith,
}
use chamacore.Prelude.Table.{All, any, find?, sum_of}
use chamacore.Data.{Db, LedgerAccount, LedgerEntry, LedgerTransaction, SourceType, same_source}
use chamacore.Ledger.Lines.{Line, entry_of}
use chamacore.Ledger.Lines.Accepted.{OneSided, Known, debits, credits}
use chamacore.Ledger.Store.{is_account, get_in_chama, has_source, same_reversal}

abbrev pub EntrySided : LedgerEntry → Type 0
EntrySided e = ((0 < e.debit) × (e.credit ≡ 0)) ⊎ ((e.debit ≡ 0) × (0 < e.credit))

abbrev pub total_debit : List LedgerEntry → ℕ
total_debit = sum_of (λ e. e.debit)

abbrev pub total_credit : List LedgerEntry → ℕ
total_credit = sum_of (λ e. e.credit)

-- A transaction of the Chama with this id that reverses nothing.
abbrev pub reversible : ℕ → ℕ → LedgerTransaction → Bool
reversible chama_id transaction_id t =
    t.id == transaction_id && t.chama_id == chama_id && not (is_some t.reverses_transaction_id)

abbrev pub Target : ℕ → Option ℕ → List LedgerTransaction → Type 0
Target chama_id none ts = Unit
Target chama_id (some r) ts = any (reversible chama_id r) ts ≡ true

pub record IsSound (accounts : List LedgerAccount) (t : LedgerTransaction)
    (older : List LedgerTransaction) : Type 0 where
  pub sides : All EntrySided t.entries
  pub known :
      All (λ e. is_some (find? (is_account t.chama_id e.account_id) accounts) ≡ true) t.entries
  pub moves : 0 < total_debit t.entries
  pub balanced : total_debit t.entries ≡ total_credit t.entries
  pub new_source : any (has_source t.source_type t.source_id) older ≡ false
  pub new_reversal : same_reversal t.reverses_transaction_id older ≡ false
  pub kind :
      same_source t.source_type SourceType.ledger_reversal ≡ is_some t.reverses_transaction_id
  pub target : Target t.chama_id t.reverses_transaction_id older

abbrev pub IsBook : List LedgerAccount → List LedgerTransaction → Type 0
IsBook accounts [] = Unit
IsBook accounts (t ∷ ts) = IsSound accounts t ts × IsBook accounts ts

abbrev pub IsSoundDb : Db → Type 0
IsSoundDb db = IsBook db.accounts db.transactions

-- The rows of accepted lines.
pub entries-sides : (ls : List Line) → All OneSided ls → All EntrySided (map entry_of ls)
unfolding entry_of
entries-sides [] h = tt
entries-sides (l ∷ ls) h = (h.0.2, entries-sides ls h.1)

pub entries-debit : (ls : List Line) → total_debit (map entry_of ls) ≡ debits ls
unfolding entry_of
entries-debit [] = refl
entries-debit (l ∷ ls) = rw (entries-debit ls)

pub entries-credit : (ls : List Line) → total_credit (map entry_of ls) ≡ credits ls
unfolding entry_of
entries-credit [] = refl
entries-credit (l ∷ ls) = rw (entries-credit ls)

pub entries-Known :
    (chama_id : ℕ) (db : Db) (ls : List Line)
    → All (Known chama_id db) ls
    → All
        (λ e. is_some (find? (is_account chama_id e.account_id) db.accounts) ≡ true)
        (map entry_of ls)
unfolding entry_of get_in_chama
entries-Known chama_id db [] h = tt
entries-Known chama_id db (l ∷ ls) h = (h.0, entries-Known chama_id db ls h.1)

-- A target stays there when rows are added.
pub any-append :
    {A : Type 0} (p : A → Bool) (xs ys : List A) → any p ys ≡ true → any p (xs ++ ys) ≡ true
any-append p [] ys h = h
any-append p (x ∷ xs) ys h = ground (arith, any-append p xs ys h)
