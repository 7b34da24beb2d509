-- ===== src/Money/Rounding.antt =====
-- Rounding: `quantize(..., ROUND_HALF_UP)` picks the nearest number of cents, and leaves cents alone.
use chamacore.Prelude.{ℕ, zero, suc, ◌+◌, ◌*◌, ◌%◌, ◌^◌, ◌≤◌, ◌<◌, ◌≡◌, refl, ap, arith}
use chamacore.Prelude.Int.{ℤ, pos, negsuc, pos_part, neg_part}
use native.Mathlib.Nat.{div-add-mod, mod-lt, pow-suc}
use chamacore.Money.{half_up, quantize, negate}

-- The size of an integer.
abbrev pub size : ℤ → ℕ
size (pos n) = n
size (negsuc n) = suc n

-- a / b lies less than half a unit above the result, and at most half a unit below it.
pub half_up_nearest :
    (a b : ℕ) → 0 < b → (2 * (b * half_up a b) ≤ 2 * a + b) × (2 * a < 2 * (b * half_up a b) + b)
half_up_nearest a b h =
    let r : ℕ = (2 * a + b) % (2 * b) in
    let e : 2 * b * half_up a b + r ≡ 2 * a + b = div-add-mod (2 * a + b) (2 * b) in
    let small : r < 2 * b = mod-lt (2 * a + b) (omega arith) in (omega arith, omega arith)

pow_pos : (k : ℕ) → 0 < 10 ^ k
pow_pos zero = omega arith
pow_pos (suc k) = rw pow-suc (let ih : 0 < 10 ^ k = pow_pos k in omega arith)

size-negate : (n : ℕ) → size (negate n) ≡ n
size-negate n = ground arith

size-quantize :
    (c : ℤ) (places : ℕ) → size (quantize c places) ≡ half_up (size c * 100) (10 ^ places)
unfolding quantize
size-quantize (pos n) places = refl
size-quantize (negsuc n) places = size-negate (half_up (suc n * 100) (10 ^ places))

never_negative : (c : ℤ) (places : ℕ) → neg_part (quantize c places) * pos_part c ≡ 0
unfolding quantize
never_negative (pos n) places = omega arith
never_negative (negsuc n) places = omega arith

half_up-zero : (b : ℕ) → 0 < b → half_up 0 b ≡ 0
half_up-zero b h = let near = half_up_nearest 0 b h in grind (arith, near.0)

never_positive : (c : ℤ) (places : ℕ) → pos_part (quantize c places) * neg_part c ≡ 0
unfolding quantize
never_positive (pos n) places = omega arith
never_positive (negsuc n) places =
    let kept : pos_part (negate (half_up (suc n * 100) (10 ^ places))) ≡ 0 = ground arith in
    rw kept (omega arith)

-- An amount with any number of decimal places is rounded to the nearest cent (within half a cent),
-- and never to an amount of the opposite sign.
pub quantize_nearest :
    (c : ℤ) (places : ℕ)
    → let q = quantize c places in
      (2 * (10 ^ places * size q) ≤ 2 * (size c * 100) + 10 ^ places)
      × (2 * (size c * 100) ≤ 2 * (10 ^ places * size q) + 10 ^ places)
      × (neg_part q * pos_part c ≡ 0)
      × (pos_part q * neg_part c ≡ 0)
quantize_nearest c places =
    let near = half_up_nearest (size c * 100) (10 ^ places) (pow_pos places) in
    (
      rw size-quantize near.0,
      rw size-quantize (omega (arith, near.1)),
      never_negative c places,
      never_positive c places,
    )

-- An amount that is a number of cents already is kept.
pub quantize_cents : (n : ℕ) → quantize (pos n) 2 ≡ pos n
unfolding quantize
quantize_cents n = ap pos (omega arith)
