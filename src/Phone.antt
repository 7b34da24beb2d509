-- ===== src/Phone.antt =====
-- app/core/phone.py: one canonical form for a Kenyan mobile number. Which characters `\D` keeps is the
-- parameter `is_decimal`.
pub mod Forms
use Prim.Native.Char.{Char, code}
use chamacore.Prelude.{Bool, ◌||◌, String, ◌==◌, ℕ, if◌then◌else◌}

-- `_NONDIGIT.sub("", raw)`
unfoldable pub digits_of : (Char → Bool) → String → String
digits_of is_decimal String.[] = String.[]
digits_of is_decimal (String.◌∷◌ c s) =
    let rest = digits_of is_decimal s in if is_decimal c then String.◌∷◌ c rest else rest

abbrev pub is_char : ℕ → Char → Bool
is_char n c = code c == n

-- The country's prefix before a text.
abbrev pub international : String → String
international s = String.◌∷◌ "2" (String.◌∷◌ "5" (String.◌∷◌ "4" s))

-- A leading 0 is replaced, and a leading 7 or 1 follows the prefix.
unfoldable pub fold_prefix : String → String
fold_prefix String.[] = String.[]
fold_prefix (String.◌∷◌ c s) =
    if is_char b'0' c
    then international s
    else if is_char b'7' c || is_char b'1' c
    then international (String.◌∷◌ c s)
    else String.◌∷◌ c s

unfoldable pub normalize_ke_msisdn : (Char → Bool) → String → String
unfolding digits_of fold_prefix
normalize_ke_msisdn is_decimal raw = fold_prefix (digits_of is_decimal raw)
