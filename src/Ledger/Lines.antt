-- ===== src/Ledger/Lines.antt =====
-- `LedgerLine`, `_to_quantized`, `_normalize_lines` and `_validate_lines` of
-- app/services/ledger.py. A line is quantized first and validated then.
pub mod Accepted
use chamacore.Prelude.{
  ℕ, zero, suc, Bool, true, false, ◌||◌, not, none, some, List, [], ◌∷◌, is_some,
}
use chamacore.Prelude.Int.{ℤ, pos, negsuc, pos_part, ◌+ℤ◌, ◌-ℤ◌}
use chamacore.Money.{
  Decimal, finite, nan, infinity, Amount, decimal, boolean, float, parsed, quantize,
}
use chamacore.Data.{Db, LedgerEntry}
use chamacore.Session.{Result, ok, err, state_error, check, after}
use chamacore.Ledger.Store.{get_in_chama}

pub record LedgerLine : Type 0 where
  pub account_id : ℕ
  pub debit : Amount
  pub credit : Amount

-- A normalised line, in cents.
pub record Line : Type 0 where
  pub account_id : ℕ
  pub debit : ℤ
  pub credit : ℤ

quantize_decimal : Decimal → Result ℤ
quantize_decimal (finite c places) = ok (quantize c places)
quantize_decimal nan = err (state_error "Ledger amount must be finite")
quantize_decimal infinity = err (state_error "Ledger amount must be finite")

unfoldable pub to_quantized : Amount → Result ℤ
unfolding quantize_decimal
to_quantized (decimal d) = quantize_decimal d
to_quantized boolean = err (state_error "Ledger amount must be an exact Decimal, not a float")
to_quantized float = err (state_error "Ledger amount must be an exact Decimal, not a float")
to_quantized (parsed none) = err (state_error "Ledger amount is invalid")
to_quantized (parsed (some d)) = quantize_decimal d

unfoldable pub normalize_line : LedgerLine → Result Line
unfolding to_quantized
normalize_line l = after (to_quantized l.debit) λ d.
    after (to_quantized l.credit)
      λ c. ok (record { account_id = l.account_id; debit = d; credit = c })

unfoldable pub normalize_lines : List LedgerLine → Result (List Line)
normalize_lines [] = ok []
normalize_lines (l ∷ ls) =
    let rest = normalize_lines ls in after (normalize_line l) λ n. after rest λ ns. ok (n ∷ ns)

abbrev pub positive : ℤ → Bool
positive (pos zero) = false
positive (pos (suc n)) = true
positive (negsuc n) = false

abbrev pub negative : ℤ → Bool
negative (pos n) = false
negative (negsuc n) = true

abbrev pub is_zero : ℤ → Bool
is_zero (pos zero) = true
is_zero (pos (suc n)) = false
is_zero (negsuc n) = false

-- `==` of Booleans.
abbrev pub iff : Bool → Bool → Bool
iff true b = b
iff false b = not b

-- The checks that the loop makes on one line.
unfoldable pub validate_line : ℕ → Line → Db → Result (Unit {0})
validate_line chama_id l db =
    after
      (check (negative l.debit || negative l.credit)
        (state_error "Ledger amounts cannot be negative"))
      λ _.
        after
          (check (iff (positive l.debit) (positive l.credit))
            (state_error "Each entry must carry exactly one of debit or credit"))
          λ _.
            check (not (is_some (get_in_chama chama_id l.account_id db)))
              (state_error "Ledger entry references an account that does not exist in this Chama")

-- The loop, with `has_debit` and `has_credit`.
unfoldable pub validate_loop : ℕ → Db → List Line → Bool → Bool → Result (Bool × Bool)
validate_loop chama_id db [] has_debit has_credit = ok (has_debit, has_credit)
validate_loop chama_id db (l ∷ ls) has_debit has_credit =
    let rest =
      validate_loop chama_id db ls (has_debit || positive l.debit)
        (has_credit || not (positive l.debit)) in
    after (validate_line chama_id l db) λ _. rest

-- The sum of debit - credit.
unfoldable pub imbalance : List Line → ℤ
imbalance [] = pos 0
imbalance (l ∷ ls) = (l.debit -ℤ l.credit) +ℤ imbalance ls

abbrev nonempty : List Line → Bool
nonempty [] = false
nonempty (l ∷ ls) = true

unfoldable pub validate_lines : ℕ → List Line → Db → Result (Unit {0})
validate_lines chama_id lines db =
    after
      (check (not (nonempty lines))
        (state_error "A ledger transaction must have at least one entry"))
      λ _. after (validate_loop chama_id db lines false false) λ (has_debit, has_credit).
        after
          (check (not has_debit || not has_credit)
            (state_error "A ledger transaction must contain at least one debit and one credit"))
          λ _.
            check (not (is_zero (imbalance lines)))
              (state_error "A ledger transaction must balance (total debits equal total credits)")

-- The row of a line; after validation no side is negative.
unfoldable pub entry_of : Line → LedgerEntry
entry_of l = record {
  account_id = l.account_id;
  debit = pos_part l.debit;
  credit = pos_part l.credit;
}
