-- ===== src/RateLimiter.antt =====
-- app/core/ratelimit.py: the fixed-window rate limiter of one process. A time is a number of ticks of the
-- monotonic clock, and the lock makes each call one step.
pub mod Slots
pub mod Window
pub mod Refinement
pub mod Retry
use chamacore.Prelude.{
  ℕ, suc, ◌+◌, ◌-◌, ◌/◌, Bool, true, false, not, String, Option, none, some, List, [], ◌∷◌, leb,
  str_eq, if◌then◌else◌,
}
use chamacore.Prelude.Table.{select}

-- A count and the start of its window.
pub record Slot : Type 0 where
  pub count : ℕ
  pub window_start : ℕ

-- `_counts`, a dictionary.
abbrev pub Counts : Type 0
Counts = List (String × Slot)

-- `max_requests` and `window_seconds`; the constructor refuses 0 for either.
pub record Limits : Type 0 where
  pub max_requests : ℕ
  pub window : ℕ

-- `_counts.get(key, (0, now))`
unfoldable pub get : String → ℕ → Counts → Slot
get key now [] = record { count = 0; window_start = now }
get key now ((k, slot) ∷ rest) = if str_eq k key then slot else get key now rest

-- `_counts[key] = slot`
unfoldable pub put : String → Slot → Counts → Counts
put key slot [] = (key, slot) ∷ []
put key slot ((k, s) ∷ rest) =
    let others = put key slot rest in if str_eq k key then (key, slot) ∷ rest else (k, s) ∷ others

-- `now - window_start >= window_seconds`; the clock does not go back.
abbrev pub expired : Limits → ℕ → Slot → Bool
expired l now slot = leb l.window (now - slot.window_start)

-- `_prune`
unfoldable pub prune : Limits → ℕ → Counts → Counts
prune l now counts = select (λ entry. not (expired l now entry.1)) counts

-- The slot with the window that `now` falls in.
abbrev pub current : Limits → ℕ → Slot → Slot
current l now slot = if expired l now slot then record { count = 0; window_start = now } else slot

abbrev pub counted : Slot → Slot
counted slot = record slot { count = suc slot.count }

unfoldable pub allow : Limits → ℕ → String → Counts → Bool × Counts
unfolding get put prune
allow l now key counts =
    let slot = current l now (get key now counts) in
    if leb l.max_requests slot.count
    then (false, put key slot counts)
    else (true, prune l now (put key (counted slot) counts))

abbrev pub reset : Counts → Counts
reset counts = []

-- `ticks` is how many ticks a second has; `int` cuts towards 0, and so does the division, on each side.
unfoldable pub retry_after_seconds : ℕ → Limits → ℕ → String → Counts → ℕ
unfolding get
retry_after_seconds ticks l now key counts =
    let passed = now - (get key now counts).window_start in
    if leb passed l.window then (l.window - passed) / ticks + 1 else 1 - (passed - l.window) / ticks
