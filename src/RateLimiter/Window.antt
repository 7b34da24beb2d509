-- ===== src/RateLimiter/Window.antt =====
-- How many calls a limiter allows in one window.
use text.Mathlib.TextEquality.{eq_iff}
use chamacore.Prelude.{
  ℕ, suc, ◌+◌, ◌-◌, ◌≤◌, ◌<◌, ◌≡◌, refl, sym, ap, ◌∙◌, subst, true, false, String, none, some, List,
  [], ◌∷◌, ◌⊎◌, leb, str_eq, inl, inr, min, arith, Bool-cases, if◌then◌else◌,
}
use chamacore.Prelude.Table.{All}
use chamacore.RateLimiter.Slots.{
  slot_of, or_new, get-slot_of, slot_of-put, slot_of-put_other, slot_of-prune-none,
  slot_of-prune-some,
}
use chamacore.RateLimiter.{Slot, Counts, Limits, get, put, prune, expired, current, allow}

-- A call: its time and its key.
abbrev pub Call : Type 0
Call = ℕ × String

-- The calls for a key that are allowed, of a sequence in the order of time.
unfoldable pub allowed_for : Limits → String → Counts → List Call → ℕ
allowed_for l key counts [] = 0
allowed_for l key counts ((now, k) ∷ calls) =
    let (yes_allowed, next) = allow l now k counts in
    let rest = allowed_for l key next calls in
    if str_eq k key then (if yes_allowed then suc rest else rest) else rest

-- The calls for a key.
unfoldable pub calls_for : String → List Call → ℕ
calls_for key [] = 0
calls_for key ((now, k) ∷ calls) =
    let rest = calls_for key calls in if str_eq k key then suc rest else rest

-- Every call falls in the window that starts at a time.
abbrev pub InWindow : Limits → ℕ → List Call → Type 0
InWindow l start = All (λ c. (start ≤ c.0) × (c.0 - start < l.window))

module _ (l : Limits) (key : String) where
  module _ (start : ℕ) where
    -- The key has no slot, or one of a window that starts no earlier.
    Counted : ℕ → Counts → Type 0
    Counted n counts =
        ((slot_of key counts ≡ none) × (n ≡ 0))
        ⊎ ((w : ℕ) × (slot_of key counts ≡ some (record { count = n; window_start = w }))
            × (start ≤ w))

    slot_live :
        (now w n : ℕ)
        → start ≤ w
        → now - start < l.window
        → expired l now (record { count = n; window_start = w }) ≡ false
    slot_live now w n later inside = ground arith

    Counted-prune :
        (now n : ℕ) (counts : Counts)
        → now - start < l.window
        → Counted n counts
        → Counted n (prune l now counts)
    unfolding Counted
    Counted-prune now n counts inside (inl (missing, zero_n)) =
        inl (slot_of-prune-none l key now counts missing, zero_n)
    Counted-prune now n counts inside (inr (w, there, later)) =
        inr (w, slot_of-prune-some l key now counts _ there (slot_live now w n later inside), later)

    Counted-other :
        (k : String) (slot : Slot) (n : ℕ) (counts : Counts)
        → str_eq k key ≡ false
        → Counted n counts
        → Counted n (put k slot counts)
    unfolding Counted
    Counted-other k slot n counts apart (inl (missing, zero_n)) =
        inl (slot_of-put_other key k slot counts apart ∙ missing, zero_n)
    Counted-other k slot n counts apart (inr (w, there, later)) =
        inr (w, slot_of-put_other key k slot counts apart ∙ there, later)

    -- A call for another key.
    allow-other :
        (now : ℕ) (k : String) (n : ℕ) (counts : Counts)
        → str_eq k key ≡ false
        → now - start < l.window
        → Counted n counts
        → Counted n (allow l now k counts).1
    unfolding allow
    allow-other now k n counts apart inside h =
        elim (Bool-cases (leb l.max_requests (current l now (get k now counts)).count)) [
          | inl full ↦ rw full (Counted-other k _ n counts apart h)
          | inr room ↦ rw room (Counted-prune now n _ inside (Counted-other k _ n counts apart h))
        ]

    -- The slot that a call for the key finds.
    found_slot :
        (now n : ℕ) (counts : Counts)
        → start ≤ now
        → now - start < l.window
        → Counted n counts
        → (w : ℕ) × (current l now (get key now counts) ≡ record { count = n; window_start = w })
          × (start ≤ w)
    unfolding Counted or_new
    found_slot now n counts began inside (inl (missing, zero_n)) =
        let at_now : get key now counts ≡ record { count = 0; window_start = now } =
          get-slot_of key now counts ∙ ap (or_new now) missing in
        (now, rw (at_now, slot_live now now 0 began inside, zero_n) refl, began)
    found_slot now n counts began inside (inr (w, there, later)) =
        let at_w : get key now counts ≡ record { count = n; window_start = w } =
          get-slot_of key now counts ∙ ap (or_new now) there in
        (w, rw (at_w, slot_live now w n later inside) refl, later)

    -- What a call for a key did: it was refused, or it was allowed and counted.
    abbrev Taken : ℕ → ℕ → Counts → String → Type 0
    Taken now n counts k =
        (((allow l now k counts).0 ≡ false)
          × (l.max_requests ≤ n)
          × Counted n (allow l now k counts).1)
        ⊎ (((allow l now k counts).0 ≡ true)
            × (n < l.max_requests)
            × Counted (suc n) (allow l now k counts).1)

    -- A call for the key is allowed while there is room, and then counted.
    allow-own :
        (now n : ℕ) (counts : Counts)
        → start ≤ now
        → now - start < l.window
        → Counted n counts
        → Taken now n counts key
    unfolding allow Counted
    allow-own now n counts began inside h =
        let (w, slot, later) = found_slot now n counts began inside h in
        elim (Bool-cases (leb l.max_requests n)) [
          | inl full ↦
              inl (rw (slot, full) (refl, ground arith, inr (w, slot_of-put key _ counts, later)))
          | inr room ↦ inr (
              rw (slot, room)
                (
                  refl,
                  ground arith,
                  inr (
                    w,
                    slot_of-prune-some l key now _ _ (slot_of-put key _ counts)
                        (slot_live now w (suc n) later inside),
                    later,
                  ),
                ))
        ]

    allowed_for-Counted :
        (n : ℕ) (counts : Counts) (calls : List Call)
        → n ≤ l.max_requests
        → Counted n counts
        → InWindow l start calls
        → allowed_for l key counts calls + n ≡ min (calls_for key calls + n) l.max_requests
    unfolding allowed_for calls_for
    allowed_for-Counted n counts [] within h all = omega arith
    allowed_for-Counted n counts ((now, k) ∷ calls) within h all =
        elim (Bool-cases (str_eq k key)) [
          | inr other ↦ rw other (
              allowed_for-Counted n (allow l now k counts).1 calls within
                (allow-other now k n counts other all.0.1 h) all.1)
          | inl same ↦
              let own =
                subst (Taken now n counts) (sym ((eq_iff k key).0 same))
                  (allow-own now n counts all.0.0 all.0.1 h) in
              elim own [
                | inl (refused, full, kept) ↦
                    let later =
                      allowed_for-Counted n (allow l now k counts).1 calls within kept all.1 in
                    rw (same, refused) (omega (arith, later, full, within))
                | inr (passed, room, counted_on) ↦
                    let later =
                      allowed_for-Counted (suc n) (allow l now k counts).1 calls
                        (omega (arith, room)) counted_on all.1 in
                    rw (same, passed) (omega (arith, later, room, within))
              ]
        ]

-- From a limiter with no slot for a key, over any sequence of calls for this and other keys that fall
-- in one window, as many calls for the key are allowed as there are, and at most `max_requests`.
pub allowed_for_window :
    (l : Limits) (key : String) (start : ℕ) (counts : Counts) (calls : List Call)
    → slot_of key counts ≡ none
    → InWindow l start calls
    → allowed_for l key counts calls ≡ min (calls_for key calls) l.max_requests
unfolding Counted
allowed_for_window l key start counts calls unused all =
    let h = allowed_for-Counted l key start 0 counts calls (omega arith) (inl (unused, refl)) all in
    omega (arith, h)
