-- ===== src/Ledger/Transfer.antt =====
-- A posting of one amount from one account to another, as disbursements, payouts and contributions
-- make it: its lines are accepted as they stand, and move exactly the amount.
use chamacore.Prelude.{ℕ, ◌≡◌, ◌≢◌, refl, sym, ◌∙◌, List, [], ◌∷◌, map, arith}
use chamacore.Prelude.Int.{pos, ◌-ℤ◌}
use chamacore.Data.{LedgerEntry}
use chamacore.Session.{ok}
use chamacore.Session.Rules.{ok-injective}
use chamacore.Money.{cents, no_amount, quantize}
use chamacore.Money.Rounding.{quantize_cents}
use chamacore.Ledger.Lines.{
  LedgerLine, Line, entry_of, normalize_lines, normalize_line, to_quantized,
}
use chamacore.Ledger.Balances.{effect}

-- Debit one account, credit the other.
abbrev pub transfer_lines : ℕ → ℕ → ℕ → List LedgerLine
transfer_lines debited credited amount =
    record { account_id = debited; debit = cents amount; credit = no_amount }
    ∷ record { account_id = credited; debit = no_amount; credit = cents amount }
    ∷ []

abbrev transfer_rows : ℕ → ℕ → ℕ → List LedgerEntry
transfer_rows debited credited amount =
    record { account_id = debited; debit = amount; credit = 0 }
    ∷ record { account_id = credited; debit = 0; credit = amount }
    ∷ []

abbrev normal_lines : ℕ → ℕ → ℕ → List Line
normal_lines debited credited amount =
    record { account_id = debited; debit = pos amount; credit = pos 0 }
    ∷ record { account_id = credited; debit = pos 0; credit = pos amount }
    ∷ []

quantize-zero : quantize (pos 0) 0 ≡ pos 0
unfolding quantize
quantize-zero = refl

normalize-transfer :
    (debited credited amount : ℕ)
    → normalize_lines (transfer_lines debited credited amount)
      ≡ ok (normal_lines debited credited amount)
unfolding normalize_lines normalize_line to_quantized
normalize-transfer debited credited amount = rw (quantize_cents amount, quantize-zero)

module _ (debited credited amount : ℕ) (lines : List Line)
    (normal : normalize_lines (transfer_lines debited credited amount) ≡ ok lines) where
  rows-transfer : map entry_of lines ≡ transfer_rows debited credited amount
  unfolding entry_of
  rows-transfer =
      let same : normal_lines debited credited amount ≡ lines =
        ok-injective (sym (normalize-transfer debited credited amount) ∙ normal) in
      rw (← same)

  -- The credited account goes down by the amount, the debited one up.
  pub effect-credited :
      debited ≢ credited → effect credited (map entry_of lines) ≡ pos 0 -ℤ pos amount
  unfolding ◌-ℤ◌
  effect-credited ne = rw rows-transfer (ground arith)

  pub effect-debited : debited ≢ credited → effect debited (map entry_of lines) ≡ pos amount
  effect-debited ne = rw rows-transfer (ground arith)
