-- ===== src/Ledger/Balances.antt =====
-- Balances under a posting and its reversal.
use chamacore.Prelude.{
  ℕ, ◌≡◌, refl, sym, ◌∙◌, List, [], ◌∷◌, map, ◌==◌, Bool-cases, arith, if◌then◌else◌, inl, inr,
}
use chamacore.Prelude.Int.{ℤ, pos, sub_ℕ, sub_ℕ_parts, sub_ℕ-add, ◌+ℤ◌, ◌-ℤ◌, int_laws, eq_of_parts}
use chamacore.Data.{Db, LedgerTransaction, LedgerEntry}
use chamacore.Session.{ok}
use chamacore.Session.Rules.{ok-injective}
use chamacore.Money.Rounding.{quantize_cents}
use chamacore.Ledger.{swapped}
use chamacore.Ledger.Lines.{Line, normalize_lines, normalize_line, to_quantized, entry_of}
use chamacore.Ledger.Store.{
  add_transaction, account_balance, account_debits, account_credits, debits_of, credits_of,
}

-- What a transaction adds to the balance of an account.
abbrev pub effect : ℕ → List LedgerEntry → ℤ
effect account_id es = sub_ℕ (debits_of account_id es) (credits_of account_id es)

-- A transaction moves each account of its Chama by its own entries, and no account of another Chama.
pub balance-add :
    (chama_id account_id : ℕ) (t : LedgerTransaction) (db : Db)
    → account_balance chama_id account_id (add_transaction t db) ≡ (
        if t.chama_id == chama_id
        then account_balance chama_id account_id db +ℤ effect account_id t.entries
        else account_balance chama_id account_id db)
unfolding account_balance add_transaction
balance-add chama_id account_id t db = elim (Bool-cases (t.chama_id == chama_id)) [
  | inl here ↦ rw here (
      sub_ℕ-add (debits_of account_id t.entries) (credits_of account_id t.entries)
        (account_debits chama_id account_id db.transactions)
        (account_credits chama_id account_id db.transactions))
  | inr other ↦ rw other refl
]

-- The line and the row of an entry with its sides exchanged.
swapped_line : LedgerEntry → Line
swapped_line e = record { account_id = e.account_id; debit = pos e.credit; credit = pos e.debit }

abbrev mirror : LedgerEntry → LedgerEntry
mirror e = record { account_id = e.account_id; debit = e.credit; credit = e.debit }

normalize-swapped :
    (es : List LedgerEntry) → normalize_lines (map swapped es) ≡ ok (map swapped_line es)
unfolding normalize_lines normalize_line to_quantized swapped_line
normalize-swapped [] = refl
normalize-swapped (e ∷ es) =
    rw (quantize_cents e.credit, quantize_cents e.debit, normalize-swapped es)

rows-mirror : (es : List LedgerEntry) → map entry_of (map swapped_line es) ≡ map mirror es
unfolding entry_of swapped_line
rows-mirror [] = refl
rows-mirror (e ∷ es) = rw (rows-mirror es)

module _ (account_id : ℕ) where
  debits-mirror :
      (es : List LedgerEntry) → debits_of account_id (map mirror es) ≡ credits_of account_id es
  debits-mirror [] = refl
  debits-mirror (e ∷ es) = ground (arith, debits-mirror es)

  credits-mirror :
      (es : List LedgerEntry) → credits_of account_id (map mirror es) ≡ debits_of account_id es
  credits-mirror [] = refl
  credits-mirror (e ∷ es) = ground (arith, credits-mirror es)

-- The rows of a reversal have the opposite effect on every account.
pub effect-reversal :
    (account_id : ℕ) (es : List LedgerEntry) (ls : List Line)
    → normalize_lines (map swapped es) ≡ ok ls
    → effect account_id (map entry_of ls) ≡ pos 0 -ℤ effect account_id es
effect-reversal account_id es ls h =
    let same : map swapped_line es ≡ ls = ok-injective (sym (normalize-swapped es) ∙ h) in
    rw (← same, rows-mirror es, debits-mirror account_id es, credits-mirror account_id es)
      (eq_of_parts _ _ (
        omega (
          int_laws,
          sub_ℕ_parts (credits_of account_id es) (debits_of account_id es),
          sub_ℕ_parts (debits_of account_id es) (credits_of account_id es),
        )))
