-- ===== src/Loan/Terms.antt =====
-- `_add_months` and `interest_for` of app/services/loan.py, over `calendar.monthrange`.
use chamacore.Prelude.{
  ℕ, ◌+◌, ◌*◌, ◌-◌, ◌/◌, ◌%◌, ◌^◌, Bool, ◌&&◌, ◌||◌, not, ◌==◌, min, if◌then◌else◌,
}
use chamacore.Data.{DateTime, Loan}
use chamacore.Money.{half_up}

abbrev is_leap : ℕ → Bool
is_leap year = (year % 4 == 0) && (not (year % 100 == 0) || (year % 400 == 0))

unfoldable pub days_in_month : ℕ → ℕ → ℕ
days_in_month year month =
    if month == 2
    then (if is_leap year then 29 else 28)
    else if month == 4 || month == 6 || month == 9 || month == 11
    then 30
    else 31

-- A month of 0, which no date has, would take Python's floor division below 0.
unfoldable pub add_months : DateTime → ℕ → DateTime
unfolding days_in_month
add_months value months =
    let month_index = value.month - 1 + months in
    let year = value.year + month_index / 12 in
    let month = month_index % 12 + 1 in
    record value { year = year; month = month; day = min value.day (days_in_month year month) }

-- Principal in cents times a rate in ten-thousandths, rounded half up to cents.
unfoldable pub interest_for : Loan → ℕ
interest_for loan = half_up (loan.principal * loan.interest_rate) (10 ^ 4)
