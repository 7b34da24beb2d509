-- ===== src/RateLimiter/Retry.antt =====
-- How long a refused caller waits.
use native.Mathlib.Nat.{div-add-mod, mod-lt}
use chamacore.Prelude.{
  ℕ, ◌+◌, ◌-◌, ◌*◌, ◌/◌, ◌%◌, ◌≤◌, ◌<◌, ◌≡◌, refl, ap, ◌∙◌, true, false, String, Option, none, some,
  List, [], ◌∷◌, ◌⊎◌, leb, str_eq, inl, inr, arith, Bool-cases,
}
use chamacore.Prelude.Table.{All}
use chamacore.RateLimiter.{
  Slot, Counts, Limits, get, put, prune, expired, current, allow, retry_after_seconds,
}
use chamacore.RateLimiter.Slots.{
  slot_of, or_new, get-slot_of, slot_of-put_other, slot_of-prune-none, slot_of-prune-some, Unique,
  Unique-put, Unique-prune, slot_of-prune-expired,
}
use chamacore.RateLimiter.Window.{Call}

-- The limiter after calls, one after the other.
unfoldable pub serve_calls : Limits → Counts → List Call → Counts
serve_calls l counts [] = counts
serve_calls l counts ((now, k) ∷ calls) = serve_calls l (allow l now k counts).1 calls

-- No call is for the key.
abbrev pub NoneFor : String → List Call → Type 0
NoneFor key = All (λ c. str_eq c.1 key ≡ false)

-- A whole second more than the whole seconds of a time passes it.
past : (time ticks : ℕ) → 0 < ticks → time < (time / ticks + 1) * ticks
past time ticks some_ticks =
    let e : ticks * (time / ticks) + time % ticks ≡ time = div-add-mod time ticks in
    let small : time % ticks < ticks = mod-lt time some_ticks in omega (arith, e, small)

module _ (l : Limits) (key : String) where
  -- A dictionary in which the key has the slot it had, or none any more.
  abbrev Left : Option Slot → Counts → Type 0
  Left o counts = Unique counts × ((slot_of key counts ≡ none) ⊎ (slot_of key counts ≡ o))

  Left-put :
      (k : String) (slot : Slot) (counts : Counts) (o : Option Slot)
      → str_eq k key ≡ false
      → Left o counts
      → Left o (put k slot counts)
  Left-put k slot counts o apart (one, h) =
      let e = slot_of-put_other key k slot counts apart in
      (
        Unique-put k slot counts one,
        elim h [ inl missing ↦ inl (e ∙ missing) | inr same ↦ inr (e ∙ same) ],
      )

  Left-prune :
      (now : ℕ) (counts : Counts) (o : Option Slot) → Left o counts → Left o (prune l now counts)
  Left-prune now counts o (one, inl missing) =
      (Unique-prune l now counts one, inl (slot_of-prune-none l key now counts missing))
  Left-prune now counts none (one, inr same) =
      (Unique-prune l now counts one, inl (slot_of-prune-none l key now counts same))
  Left-prune now counts (some slot) (one, inr same) = (
    Unique-prune l now counts one,
    elim (Bool-cases (expired l now slot)) [
      | inl old ↦ inl (slot_of-prune-expired l key now counts slot one same old)
      | inr live ↦ inr (slot_of-prune-some l key now counts slot same live)
    ],
  )

  Left-allow :
      (now : ℕ) (k : String) (counts : Counts) (o : Option Slot)
      → str_eq k key ≡ false
      → Left o counts
      → Left o (allow l now k counts).1
  unfolding allow
  Left-allow now k counts o apart h =
      elim (Bool-cases (leb l.max_requests (current l now (get k now counts)).count)) [
        | inl full ↦ rw full (Left-put k _ counts o apart h)
        | inr room ↦ rw room (Left-prune now _ o (Left-put k _ counts o apart h))
      ]

  Left-calls :
      (o : Option Slot) (counts : Counts) (calls : List Call)
      → NoneFor key calls
      → Left o counts
      → Left o (serve_calls l counts calls)
  unfolding serve_calls
  Left-calls o counts [] others h = h
  Left-calls o counts ((now, k) ∷ calls) others h =
      Left-calls o (allow l now k counts).1 calls others.1 (Left-allow now k counts o others.0 h)

  -- A call finds room where the key has no slot, or one that has expired.
  allow-room :
      (t : ℕ) (counts : Counts)
      → 0 < l.max_requests
      → (current l t (get key t counts)).count ≡ 0
      → (allow l t key counts).0 ≡ true
  unfolding allow
  allow-room t counts some_requests empty =
      let room : leb l.max_requests (current l t (get key t counts)).count ≡ false =
        rw empty (ground arith) in
      rw room refl

  current-new : (t : ℕ) → (current l t (or_new t none)).count ≡ 0
  unfolding or_new
  current-new t = elim (Bool-cases (expired l t (or_new t none))) [
    | inl old ↦ rw old refl
    | inr live ↦ rw live refl
  ]

  -- So does one whose slot has had its window.
  current-old :
      (now t : ℕ) (counts : Counts) (o : Option Slot)
      → l.window ≤ t - (get key now counts).window_start
      → slot_of key counts ≡ o
      → (current l t (or_new t o)).count ≡ 0
  unfolding or_new
  current-old now t counts none wait there = current-new t
  current-old now t counts (some slot) wait there =
      let e : get key now counts ≡ slot = get-slot_of key now counts ∙ ap (or_new now) there in
      let passed : l.window ≤ t - slot.window_start = rw e at wait in
      let old : expired l t slot ≡ true = ground arith in rw old refl

  current-Left :
      (now t : ℕ) (counts c : Counts)
      → l.window ≤ t - (get key now counts).window_start
      → Left (slot_of key counts) c
      → (current l t (get key t c)).count ≡ 0
  current-Left now t counts c wait (one, inl missing) =
      rw (get-slot_of key t c, missing) (current-new t)
  current-Left now t counts c wait (one, inr same) =
      rw (get-slot_of key t c, same) (current-old now t counts (slot_of key counts) wait refl)

  -- The wait passes the window of the slot that the key has.
  expired-retry :
      (ticks now : ℕ) (counts : Counts)
      → 0 < ticks
      → (get key now counts).window_start ≤ now
      → l.window
        ≤ now
          + retry_after_seconds ticks l now key counts * ticks
          - (get key now counts).window_start
  unfolding retry_after_seconds
  expired-retry ticks now counts some_ticks began =
      let passed = now - (get key now counts).window_start in
      elim (Bool-cases (leb passed l.window)) [
        | inl within ↦
            rw within
              (let over = past (l.window - passed) ticks some_ticks in omega (arith, over, began))
        | inr later ↦ rw later (ground arith)
      ]

-- Where a limiter has one slot for a key, and that of a key began no later than now, then after
-- `retry_after_seconds` a call for the key is allowed, whatever calls for other keys come before it.
pub allow_after_retry :
    (ticks : ℕ) (l : Limits) (now : ℕ) (key : String) (counts : Counts) (calls : List Call)
    → 0 < ticks
    → 0 < l.max_requests
    → Unique counts
    → (get key now counts).window_start ≤ now
    → NoneFor key calls
    → (allow l
        (now + retry_after_seconds ticks l now key counts * ticks)
        key
        (serve_calls l counts calls)).0
      ≡ true
allow_after_retry ticks l now key counts calls some_ticks some_requests one began others =
    let t = now + retry_after_seconds ticks l now key counts * ticks in
    let c = serve_calls l counts calls in
    let left = Left-calls l key (slot_of key counts) counts calls others (one, inr refl) in
    let wait = expired-retry l key ticks now counts some_ticks began in
    allow-room l key t c some_requests (current-Left l key now t counts c wait left)
