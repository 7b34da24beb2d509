-- ===== src/RateLimiter/Refinement.antt =====
-- The limiter answers like a table that keeps the slot of every key: what it prunes is never missed.
use text.Mathlib.TextEquality.{eq_iff}
use chamacore.Prelude.{
  ℕ, ◌≤◌, ◌≡◌, refl, sym, ap, ◌∙◌, subst, Bool, true, false, String, Option, none, some, List, [],
  ◌∷◌, leb, str_eq, inl, inr, arith, Bool-cases, if◌then◌else◌,
}
use chamacore.RateLimiter.{Slot, Counts, Limits, get, put, prune, expired, current, counted, allow}
use chamacore.RateLimiter.Slots.{
  slot_of, or_new, get-slot_of, slot_of-put, slot_of-put_other, slot_of-prune-none,
  slot_of-prune-some, Unique, Unique-put, Unique-prune, slot_of-prune-expired,
}
use chamacore.RateLimiter.Window.{Call}

-- The slot of every key that has been used.
abbrev pub Windows : Type 0
Windows = String → Option Slot

abbrev pub no_windows : Windows
no_windows key = none

unfoldable pub assign : String → Slot → Windows → Windows
assign key slot w k = if str_eq key k then some slot else w k

-- A call on such a table.
unfoldable pub grant : Limits → ℕ → String → Windows → Bool × Windows
unfolding or_new
grant l now key w =
    let slot = current l now (or_new now (w key)) in
    if leb l.max_requests slot.count
    then (false, assign key slot w)
    else (true, assign key (counted slot) w)

-- The answers to calls, one after the other, of the limiter and of the table.
unfoldable pub answers : Limits → Counts → List Call → List Bool
unfolding allow
answers l counts [] = []
answers l counts ((now, key) ∷ calls) =
    let (answer, next) = allow l now key counts in answer ∷ answers l next calls

unfoldable pub grants : Limits → Windows → List Call → List Bool
unfolding grant
grants l w [] = []
grants l w ((now, key) ∷ calls) =
    let (answer, next) = grant l now key w in answer ∷ grants l next calls

-- The calls come in the order of time.
unfoldable pub InOrder : ℕ → List Call → Type 0
InOrder start [] = Unit {0}
InOrder start ((now, key) ∷ calls) = (start ≤ now) × InOrder now calls

module _ (l : Limits) where
  -- From a time on, both have the same current slot for every key.
  abbrev Agree : ℕ → Counts → Windows → Type 0
  Agree now counts w =
      (key : String) (t : ℕ)
      → now ≤ t
      → current l t (or_new t (slot_of key counts)) ≡ current l t (or_new t (w key))

  Agree-put :
      (now : ℕ) (k : String) (slot : Slot) (counts : Counts) (w : Windows)
      → Agree now counts w
      → Agree now (put k slot counts) (assign k slot w)
  unfolding assign
  Agree-put now k slot counts w h key t on = elim (Bool-cases (str_eq k key)) [
    | inl same ↦
        let e : slot_of key (put k slot counts) ≡ some slot =
          subst (λ x. slot_of x (put k slot counts) ≡ some slot) ((eq_iff k key).0 same)
            (slot_of-put k slot counts) in
        rw (same, e) refl
    | inr other ↦ rw (other, slot_of-put_other key k slot counts other) (h key t on)
  ]

  -- A slot that has expired counts as a new one.
  current-expired :
      (now t : ℕ) (slot : Slot)
      → expired l now slot ≡ true
      → now ≤ t
      → current l t (or_new t none) ≡ current l t (or_new t (some slot))
  unfolding or_new
  current-expired now t slot old on =
      let still : expired l t slot ≡ true = ground arith in
      elim (Bool-cases (expired l t (or_new t none))) [
        | inl fresh_old ↦ rw (still, fresh_old) refl
        | inr fresh_live ↦ rw (still, fresh_live) refl
      ]

  Agree-prune :
      (now : ℕ) (counts : Counts) (w : Windows)
      → Unique counts
      → Agree now counts w
      → Agree now (prune l now counts) w
  Agree-prune now counts w one h key t on = slot-case (slot_of key counts) refl
    where
      slot-case :
          (o : Option Slot)
          → slot_of key counts ≡ o
          → current l t (or_new t (slot_of key (prune l now counts)))
            ≡ current l t (or_new t (w key))
      slot-case none found = rw (slot_of-prune-none l key now counts found, sym found) (h key t on)
      slot-case (some slot) found = elim (Bool-cases (expired l now slot)) [
        | inl old ↦ rw (slot_of-prune-expired l key now counts slot one found old) (
            current-expired now t slot old on
            ∙ (ap (λ o. current l t (or_new t o)) (sym found) ∙ h key t on))
        | inr live ↦
            rw (slot_of-prune-some l key now counts slot found live, sym found) (h key t on)
      ]

  Agree-later :
      (start now : ℕ) (counts : Counts) (w : Windows)
      → start ≤ now
      → Agree start counts w
      → Agree now counts w
  Agree-later start now counts w later h key t on = h key t (omega (arith, later, on))

  answers-Agree :
      (start : ℕ) (counts : Counts) (w : Windows) (calls : List Call)
      → Unique counts
      → Agree start counts w
      → InOrder start calls
      → answers l counts calls ≡ grants l w calls
  unfolding answers grants allow grant InOrder
  answers-Agree start counts w [] one h order = refl
  answers-Agree start counts w ((now, key) ∷ calls) one h order =
      let agree = Agree-later start now counts w order.0 h in
      let slot = current l now (or_new now (w key)) in
      let e : current l now (get key now counts) ≡ slot =
        ap (current l now) (get-slot_of key now counts) ∙ agree key now (omega arith) in
      elim (Bool-cases (leb l.max_requests slot.count)) [
        | inl full ↦
            rw (e, full)
              (ap (λ rest. false ∷ rest)
                (answers-Agree now (put key slot counts) (assign key slot w) calls
                  (Unique-put key slot counts one) (Agree-put now key slot counts w agree) order.1))
        | inr room ↦
            let stored = put key (counted slot) counts in
            let one_stored = Unique-put key (counted slot) counts one in
            rw (e, room)
              (ap (λ rest. true ∷ rest)
                (answers-Agree now (prune l now stored) (assign key (counted slot) w) calls
                  (Unique-prune l now stored one_stored)
                  (Agree-prune now stored (assign key (counted slot) w) one_stored
                    (Agree-put now key (counted slot) counts w agree))
                  order.1))
      ]

-- A new limiter answers calls in the order of time as a table does that keeps the slot of every key and
-- prunes nothing.
pub answers-grants :
    (l : Limits) (start : ℕ) (calls : List Call)
    → InOrder start calls
    → answers l [] calls ≡ grants l no_windows calls
unfolding Unique slot_of
answers-grants l start calls order =
    answers-Agree l start [] no_windows calls tt (λ key t on. refl) order
