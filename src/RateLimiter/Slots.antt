-- ===== src/RateLimiter/Slots.antt =====
-- The slots of a limiter's keys, and what setting and pruning do to them.
use text.Mathlib.TextPositions.{eq_refl}
use text.Mathlib.TextEquality.{eq_iff}
use chamacore.Prelude.{
  ℕ, ◌≡◌, refl, ap, ◌∙◌, subst, true, false, String, Option, none, some, [], ◌∷◌, str_eq, inl, inr,
  Bool-cases, if◌then◌else◌,
}
use chamacore.RateLimiter.{Slot, Counts, Limits, get, put, prune, expired}

-- The slot of a key, where it has one.
unfoldable pub slot_of : String → Counts → Option Slot
slot_of key [] = none
slot_of key ((k, s) ∷ rest) = if str_eq k key then some s else slot_of key rest

unfoldable pub or_new : ℕ → Option Slot → Slot
or_new now none = record { count = 0; window_start = now }
or_new now (some s) = s

pub get-slot_of :
    (key : String) (now : ℕ) (counts : Counts)
    → get key now counts ≡ or_new now (slot_of key counts)
unfolding get slot_of or_new
get-slot_of key now [] = refl
get-slot_of key now ((k, s) ∷ rest) = elim (Bool-cases (str_eq k key)) [
  | inl same ↦ rw same refl
  | inr other ↦ rw other (get-slot_of key now rest)
]

pub slot_of-put :
    (key : String) (slot : Slot) (counts : Counts) → slot_of key (put key slot counts) ≡ some slot
unfolding slot_of put
slot_of-put key slot [] = rw (eq_refl key) refl
slot_of-put key slot ((k, s) ∷ rest) = elim (Bool-cases (str_eq k key)) [
  | inl same ↦ rw same (rw (eq_refl key) refl)
  | inr other ↦ rw other (rw other (slot_of-put key slot rest))
]

pub slot_of-put_other :
    (key k : String) (slot : Slot) (counts : Counts)
    → str_eq k key ≡ false
    → slot_of key (put k slot counts) ≡ slot_of key counts
unfolding slot_of put
slot_of-put_other key k slot [] apart = rw apart refl
slot_of-put_other key k slot ((j, s) ∷ rest) apart = elim (Bool-cases (str_eq j k)) [
  | inl same ↦
      let e : j ≡ k = (eq_iff j k).0 same in
      let j_apart : str_eq j key ≡ false = rw e apart in rw same (rw (apart, j_apart) refl)
  | inr other ↦
      rw other
        (ap (λ t. if str_eq j key then some s else t) (slot_of-put_other key k slot rest apart))
]

module _ (l : Limits) (key : String) where
  pub slot_of-prune-none :
      (now : ℕ) (counts : Counts)
      → slot_of key counts ≡ none
      → slot_of key (prune l now counts) ≡ none
  unfolding slot_of prune
  slot_of-prune-none now [] h = refl
  slot_of-prune-none now ((k, s) ∷ rest) h = elim (Bool-cases (str_eq k key)) [
    | inl same ↦ let no : some s ≡ none = rw same at h in cc
    | inr other ↦
        let later = slot_of-prune-none now rest (rw other at h) in
        elim (Bool-cases (expired l now s)) [
          | inl old ↦ rw old later
          | inr kept ↦ rw kept (rw other later)
        ]
  ]

  pub slot_of-prune-some :
      (now : ℕ) (counts : Counts) (slot : Slot)
      → slot_of key counts ≡ some slot
      → expired l now slot ≡ false
      → slot_of key (prune l now counts) ≡ some slot
  unfolding slot_of prune
  slot_of-prune-some now [] slot h live = cc
  slot_of-prune-some now ((k, s) ∷ rest) slot h live = elim (Bool-cases (str_eq k key)) [
    | inl same ↦
        let found : some s ≡ some slot = rw same at h in
        let e : s ≡ slot = cc in
        let s_live : expired l now s ≡ false = rw e live in rw s_live (rw same found)
    | inr other ↦
        let later = slot_of-prune-some now rest slot (rw other at h) live in
        elim (Bool-cases (expired l now s)) [
          | inl old ↦ rw old later
          | inr kept ↦ rw kept (rw other later)
        ]
  ]

-- A dictionary has one slot for a key.
unfoldable pub Unique : Counts → Type 0
Unique [] = Unit {0}
Unique ((k, s) ∷ rest) = (slot_of k rest ≡ none) × Unique rest

str_eq_sym : (a b : String) → str_eq a b ≡ false → str_eq b a ≡ false
str_eq_sym a b apart = elim (Bool-cases (str_eq b a)) [
  | inl same ↦
      let e : b ≡ a = (eq_iff b a).0 same in
      let h : str_eq a a ≡ false = subst (λ x. str_eq a x ≡ false) e apart in
      let no : true ≡ false = rw (eq_refl a) at h in cc
  | inr other ↦ other
]

pub Unique-put :
    (key : String) (slot : Slot) (counts : Counts) → Unique counts → Unique (put key slot counts)
unfolding Unique put slot_of
Unique-put key slot [] h = (refl, tt)
Unique-put key slot ((k, s) ∷ rest) h = elim (Bool-cases (str_eq k key)) [
  | inl same ↦
      let e : k ≡ key = (eq_iff k key).0 same in
      rw same (subst (λ x. slot_of x rest ≡ none) e h.0, h.1)
  | inr other ↦ rw other (
    slot_of-put_other k key slot rest (str_eq_sym k key other) ∙ h.0,
    Unique-put key slot rest h.1,
  )
]

module _ (l : Limits) where
  pub Unique-prune : (now : ℕ) (counts : Counts) → Unique counts → Unique (prune l now counts)
  unfolding Unique prune
  Unique-prune now [] h = tt
  Unique-prune now ((k, s) ∷ rest) h = elim (Bool-cases (expired l now s)) [
    | inl old ↦ rw old (Unique-prune now rest h.1)
    | inr kept ↦ rw kept (slot_of-prune-none l k now rest h.0, Unique-prune now rest h.1)
  ]

  pub slot_of-prune-expired :
      (key : String) (now : ℕ) (counts : Counts) (slot : Slot)
      → Unique counts
      → slot_of key counts ≡ some slot
      → expired l now slot ≡ true
      → slot_of key (prune l now counts) ≡ none
  unfolding Unique slot_of prune
  slot_of-prune-expired key now [] slot one h old = cc
  slot_of-prune-expired key now ((k, s) ∷ rest) slot one h old = elim (Bool-cases (str_eq k key)) [
    | inl same ↦
        let found : some s ≡ some slot = rw same at h in
        let e : s ≡ slot = cc in
        let s_old : expired l now s ≡ true = rw e old in
        let alone : slot_of key rest ≡ none =
          subst (λ x. slot_of x rest ≡ none) ((eq_iff k key).0 same) one.0 in
        rw s_old (slot_of-prune-none l key now rest alone)
    | inr other ↦
        let later = slot_of-prune-expired key now rest slot one.1 (rw other at h) old in
        elim (Bool-cases (expired l now s)) [
          | inl gone ↦ rw gone later
          | inr kept ↦ rw kept (rw other later)
        ]
  ]
