-- ===== src/Phone/Forms.antt =====
-- The canonical form of a phone number does not depend on how it was written.
use Prim.Native.Char.{Char}
use chamacore.Prelude.{
  ◌≡◌, refl, ap, ◌∙◌, inl, inr, Bool, true, false, ◌&&◌, ◌||◌, String, Bool-cases, arith,
}
use chamacore.Phone.{digits_of, fold_prefix, normalize_ke_msisdn, international, is_char}

-- A text of digits only.
all_decimal : (Char → Bool) → String → Bool
all_decimal is_decimal String.[] = true
all_decimal is_decimal (String.◌∷◌ c s) = is_decimal c && all_decimal is_decimal s

module _ (is_decimal : Char → Bool) where
  all_decimal-digits_of : (s : String) → all_decimal is_decimal (digits_of is_decimal s) ≡ true
  unfolding all_decimal digits_of
  all_decimal-digits_of String.[] = refl
  all_decimal-digits_of (String.◌∷◌ c s) = elim (Bool-cases (is_decimal c)) [
    | inl digit ↦ rw digit (rw digit (all_decimal-digits_of s))
    | inr other ↦ rw other (all_decimal-digits_of s)
  ]

  digits_of-all : (s : String) → all_decimal is_decimal s ≡ true → digits_of is_decimal s ≡ s
  unfolding all_decimal digits_of
  digits_of-all String.[] h = refl
  digits_of-all (String.◌∷◌ c s) h = elim (Bool-cases (is_decimal c)) [
    | inl digit ↦
        let rest : all_decimal is_decimal s ≡ true = rw digit at h in
        rw digit (ap (String.◌∷◌ c) (digits_of-all s rest))
    | inr other ↦ let no : false ≡ true = rw other at h in cc
  ]

module _ (is_decimal : Char → Bool) (two : is_decimal "2" ≡ true) (five : is_decimal "5" ≡ true)
    (four : is_decimal "4" ≡ true) where
  all_decimal-fold_prefix :
      (s : String) → all_decimal is_decimal s ≡ true → all_decimal is_decimal (fold_prefix s) ≡ true
  unfolding fold_prefix all_decimal
  all_decimal-fold_prefix String.[] h = h
  all_decimal-fold_prefix (String.◌∷◌ c s) h =
      let rest : all_decimal is_decimal s ≡ true = ground arith in
      elim (Bool-cases (is_char b'0' c)) [
        | inl zero_first ↦ rw zero_first (rw (two, five, four) rest)
        | inr not_zero ↦ elim (Bool-cases (is_char b'7' c || is_char b'1' c)) [
          | inl mobile ↦ rw (not_zero, mobile) (rw (two, five, four) h)
          | inr other ↦ rw (not_zero, other) h
        ]
      ]

fold_prefix_idem : (s : String) → fold_prefix (fold_prefix s) ≡ fold_prefix s
unfolding fold_prefix
fold_prefix_idem String.[] = refl
fold_prefix_idem (String.◌∷◌ c s) = elim (Bool-cases (is_char b'0' c)) [
  | inl zero_first ↦ rw zero_first refl
  | inr not_zero ↦ elim (Bool-cases (is_char b'7' c || is_char b'1' c)) [
    | inl mobile ↦ rw (not_zero, mobile) refl
    | inr other ↦ rw (not_zero, other) (rw (not_zero, other) refl)
  ]
]

-- A normalized number is a normal form: normalizing it again changes nothing, where the digits of the
-- country's prefix are digits for the pattern.
pub normalize_ke_msisdn_idem :
    (is_decimal : Char → Bool)
    → is_decimal "2" ≡ true
    → is_decimal "5" ≡ true
    → is_decimal "4" ≡ true
    → (raw : String)
    → normalize_ke_msisdn is_decimal (normalize_ke_msisdn is_decimal raw)
      ≡ normalize_ke_msisdn is_decimal raw
unfolding normalize_ke_msisdn
normalize_ke_msisdn_idem is_decimal two five four raw =
    let digits = digits_of is_decimal raw in
    ap fold_prefix (
      digits_of-all is_decimal (fold_prefix digits) (
        all_decimal-fold_prefix is_decimal two five four digits
          (all_decimal-digits_of is_decimal raw)))
    ∙ fold_prefix_idem digits

-- A subscriber number that starts with 7 or 1 has one normal form, whether it is written by itself, after
-- a 0, or after +254; `+` is no digit for the pattern, and the digits that stand here are.
pub normalize_ke_msisdn_variants :
    (is_decimal : Char → Bool)
    → is_decimal "0" ≡ true
    → is_decimal "2" ≡ true
    → is_decimal "5" ≡ true
    → is_decimal "4" ≡ true
    → is_decimal "+" ≡ false
    → (c : Char) (rest : String) → is_decimal c ≡ true
    → (is_char b'7' c || is_char b'1' c) ≡ true
    → (normalize_ke_msisdn is_decimal (String.◌∷◌ "0" (String.◌∷◌ c rest))
        ≡ normalize_ke_msisdn is_decimal (String.◌∷◌ c rest))
      × (normalize_ke_msisdn is_decimal (String.◌∷◌ "+" (international (String.◌∷◌ c rest)))
          ≡ normalize_ke_msisdn is_decimal (String.◌∷◌ c rest))
unfolding normalize_ke_msisdn digits_of fold_prefix
normalize_ke_msisdn_variants is_decimal zero_is two five four plus c rest digit mobile =
    let not_zero : is_char b'0' c ≡ false = ground arith in
    (
      rw (zero_is, digit, not_zero, mobile) refl,
      rw (plus, two, five, four, digit, not_zero, mobile) refl,
    )
