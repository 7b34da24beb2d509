-- ===== src/Loan/Allocation.antt =====
-- How a repayment is split between interest and principal.
use chamacore.Prelude.{ℕ, ◌≡◌, ◌⊎◌, inl, inr, refl, Bool-cases, arith}
use chamacore.Prelude.Int.{ℤ, pos, ◌≤ℤ◌, ◌+ℤ◌, ◌-ℤ◌, ltb_ℤ, +ℤ_parts, -ℤ_parts, eq_of_parts}
use chamacore.Loan.Repayment.{allocate}

sub_add : (a b : ℤ) → a -ℤ b +ℤ b ≡ a
sub_add a b = eq_of_parts (a -ℤ b +ℤ b) a (omega (arith, +ℤ_parts (a -ℤ b) b, -ℤ_parts a b))

-- Where neither the outstanding principal nor the outstanding interest is negative, a repayment of at
-- most their sum is split interest first: the two portions are not negative and sum to the amount,
-- neither exceeds what is outstanding of its kind, and all of the interest is paid or nothing goes to
-- the principal.
pub allocate_interest_first :
    (amount : ℕ) (principal interest : ℤ)
    → pos 0 ≤ℤ principal
    → pos 0 ≤ℤ interest
    → pos amount ≤ℤ principal +ℤ interest
    → let split = allocate amount interest in
      (split.principal_portion +ℤ split.interest_portion ≡ pos amount)
      × (pos 0 ≤ℤ split.principal_portion)
      × (pos 0 ≤ℤ split.interest_portion)
      × (split.principal_portion ≤ℤ principal)
      × (split.interest_portion ≤ℤ interest)
      × ((split.interest_portion ≡ interest) ⊎ (split.principal_portion ≡ pos 0))
unfolding allocate
allocate_interest_first amount principal interest owed nonneg covered =
    let d = -ℤ_parts (pos amount) interest in
    let z = -ℤ_parts (pos amount) (pos amount) in
    elim (Bool-cases (ltb_ℤ interest (pos amount))) [
      | inl more ↦ rw (more) (
        sub_add (pos amount) interest,
        ground (arith, d),
        ground arith,
        ground (arith, d, +ℤ_parts principal interest),
        ground arith,
        inl refl,
      )
      | inr less ↦ rw (less) (
        sub_add (pos amount) (pos amount),
        ground (arith, z),
        ground arith,
        ground (arith, z),
        ground arith,
        inr (eq_of_parts _ _ (ground (arith, z))),
      )
    ]
