-- ===== src/Finance.antt =====
-- app/services/finance.py: figures derived from the ledger and the shares, never stored.
use chamacore.Prelude.{ℕ, ◌*◌, ◌^◌, Bool, true, false, ◌&&◌, String, ◌==◌, str_eq}
use chamacore.Prelude.Int.{ℤ}
use chamacore.Prelude.Table.{find?, select, sum_of}
use chamacore.Data.{Db, LedgerAccount, Share, ShareStatus, cash_code}
use chamacore.Money.{half_up}
use chamacore.Ledger.Store.{account_balance}
use chamacore.Session.{Result, ok, state_error, or_raise, after}

abbrev pub has_code : ℕ → String → LedgerAccount → Bool
has_code chama_id code a = a.chama_id == chama_id && str_eq a.code code

unfoldable pub get_account_id : ℕ → String → Db → Result ℕ
get_account_id chama_id code db =
    after
      (or_raise (find? (has_code chama_id code) db.accounts)
        (state_error "The default ledger account is missing for this Chama"))
      λ account. ok account.id

-- Debits minus credits of the Cash account; the columns hold cents already, so `quantize` keeps it.
unfoldable pub available_chama_cash : ℕ → Db → Result ℤ
available_chama_cash chama_id db =
    after (get_account_id chama_id cash_code db)
      λ account_id. ok (account_balance chama_id account_id db)

-- The row lock is not modelled: it returns the account, or raises.
unfoldable pub lock_cash_account : ℕ → Db → Result ℕ
lock_cash_account chama_id db = get_account_id chama_id cash_code db

abbrev is_active : ShareStatus → Bool
is_active ShareStatus.active = true
is_active ShareStatus.reversed = false

abbrev active_share : ℕ → Share → Bool
active_share membership_id s = s.membership_id == membership_id && is_active s.status

-- Units in ten-thousandths times a price in cents, rounded to cents.
unfoldable pub member_share_value : ℕ → ℕ → Db → ℕ
member_share_value unit_price membership_id db =
    half_up (sum_of (λ s. s.units) (select (active_share membership_id) db.shares) * unit_price)
      (10 ^ 4)
