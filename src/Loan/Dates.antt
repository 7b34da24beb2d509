-- ===== src/Loan/Dates.antt =====
-- The date on which a loan matures.
use chamacore.Prelude.{ℕ, ◌+◌, ◌*◌, ◌-◌, ◌≡◌, ◌≤◌, ◌⊎◌, refl, arith}
use chamacore.Data.{DateTime}
use chamacore.Loan.Terms.{days_in_month, add_months}

-- Months since the year 0.
abbrev pub month_count : DateTime → ℕ
month_count d = d.year * 12 + d.month - 1

-- A day that the calendar has.
pub record IsDate (d : DateTime) : Type 0 where
  pub month_low : 1 ≤ d.month
  pub month_high : d.month ≤ 12
  pub day_low : 1 ≤ d.day
  pub day_high : d.day ≤ days_in_month d.year d.month

days_in_month-positive : (year month : ℕ) → 1 ≤ days_in_month year month
unfolding days_in_month
days_in_month-positive year month = ground arith

-- From a date of the calendar, adding months gives a date of the calendar that many months later, on
-- the same day of the month or on the last day of a shorter month, at the same time.
pub add_months-IsDate :
    (value : DateTime) (months : ℕ)
    → IsDate value
    → let later = add_months value months in
      IsDate later
      × (month_count later ≡ month_count value + months)
      × ((later.day ≡ value.day) ⊎ (later.day ≡ days_in_month later.year later.month))
      × (later.time ≡ value.time)
unfolding add_months
add_months-IsDate value months h =
    let low = h.month_low in
    let high = h.month_high in
    let one = h.day_low in
    let index : ℕ = value.month - 1 + months in
    let later = add_months value months in
    let length = days_in_month-positive later.year later.month in
    (
      record {
        month_low = omega arith;
        month_high = omega arith;
        day_low = ground (arith, length);
        day_high = ground arith;
      },
      omega arith,
      ground arith,
      refl,
    )
