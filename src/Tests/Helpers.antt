-- ===== src/Tests/Helpers.antt =====
-- The theorems on the rate limiter and on phone numbers at concrete calls and numbers.
use Prim.Native.Char.{Char, code}
use chamacore.Prelude.{◌≡◌, ◌+◌, ◌*◌, true, refl, Bool, ◌&&◌, List, [], ◌∷◌, leb, min, arith}
use chamacore.Phone.{normalize_ke_msisdn}
use chamacore.Phone.Forms.{normalize_ke_msisdn_idem, normalize_ke_msisdn_variants}
use chamacore.RateLimiter.{Counts, Limits, get, allow, retry_after_seconds}
use chamacore.RateLimiter.Refinement.{InOrder, answers, grants, no_windows, answers-grants}
use chamacore.RateLimiter.Retry.{serve_calls, allow_after_retry}
use chamacore.RateLimiter.Slots.{Unique, slot_of}
use chamacore.RateLimiter.Window.{Call, allowed_for, calls_for, allowed_for_window}

abbrev ascii_digit : Char → Bool
ascii_digit c = leb b'0' (code c) && leb (code c) b'9'

normalize_ke_msisdn_idem_example :
    normalize_ke_msisdn ascii_digit (normalize_ke_msisdn ascii_digit "+254 700-000001")
    ≡ normalize_ke_msisdn ascii_digit "+254 700-000001"
normalize_ke_msisdn_idem_example =
    normalize_ke_msisdn_idem ascii_digit refl refl refl "+254 700-000001"

normalize_ke_msisdn_variants_example :
    (normalize_ke_msisdn ascii_digit "0700000001" ≡ normalize_ke_msisdn ascii_digit "700000001")
    × (normalize_ke_msisdn ascii_digit "+254700000001"
        ≡ normalize_ke_msisdn ascii_digit "700000001")
normalize_ke_msisdn_variants_example =
    normalize_ke_msisdn_variants ascii_digit refl refl refl refl refl "7" "00000001" refl refl

abbrev two_a_minute : Limits
two_a_minute = record { max_requests = 2; window = 60 }

-- Three calls for one key and one for another.
abbrev four_calls : List Call
four_calls = (100, "a") ∷ (101, "b") ∷ (130, "a") ∷ (159, "a") ∷ []

-- A limiter that another key has used up.
abbrev other_used_up : Counts
other_used_up = ("b", record { count = 2; window_start = 90 }) ∷ []

allowed_for_window_example :
    allowed_for two_a_minute "a" other_used_up four_calls ≡ min (calls_for "a" four_calls) 2
unfolding slot_of
allowed_for_window_example = allowed_for_window two_a_minute "a" 100 other_used_up four_calls refl (
  (omega arith, omega arith),
  ((omega arith, omega arith), ((omega arith, omega arith), ((omega arith, omega arith), tt))),
)

-- After these, the limiter has pruned one key and started a window for the other.
abbrev six_calls : List Call
six_calls = (100, "a") ∷ (101, "b") ∷ (130, "a") ∷ (159, "a") ∷ (162, "a") ∷ (162, "b") ∷ []

answers-grants_example :
    answers two_a_minute [] six_calls ≡ grants two_a_minute no_windows six_calls
unfolding InOrder
answers-grants_example =
    answers-grants two_a_minute 100 six_calls
      (omega arith, (omega arith, (omega arith, (omega arith, (omega arith, (omega arith, tt))))))

abbrev used_up : Counts
used_up = ("a", record { count = 2; window_start = 100 }) ∷ []

allow_after_retry_example :
    (allow two_a_minute
      (130 + retry_after_seconds 10 two_a_minute 130 "a" used_up * 10)
      "a"
      (serve_calls two_a_minute used_up ((140, "b") ∷ []))).0
    ≡ true
unfolding Unique slot_of get
allow_after_retry_example =
    allow_after_retry 10 two_a_minute 130 "a" used_up ((140, "b") ∷ []) (omega arith) (omega arith)
      (refl, tt) (omega arith) (refl, tt)
