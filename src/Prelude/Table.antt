-- ===== src/Prelude/Table.antt =====
-- A database table as the list of its rows: the queries and updates that the program writes, with
-- the row test as a function. `.first()` of a query is `find?`.
use Prim.Native.Nat.{ℕ, zero, suc, ◌+◌}
use mathlib.Core.Path.{◌≡◌, refl, ap, ◌∙◌, subst}
use mathlib.Core.Bool.{Bool, true, false}
use mathlib.Core.Option.{Option, none, some}
use mathlib.Core.List.{List, [], ◌∷◌, ◌++◌}
use mathlib.Core.Logic.{inl, inr}
use chamacore.Prelude.Tests.{if◌then◌else◌, Bool-cases, is_some}

module _ {ℓ} {A : Type ℓ} where
  abbrev pub find? : (A → Bool) → List A → Option A
  find? p [] = none
  find? p (x ∷ xs) = if p x then some x else find? p xs

  -- `WHERE p`
  abbrev pub select : (A → Bool) → List A → List A
  select p [] = []
  select p (x ∷ xs) = let rest = select p xs in if p x then x ∷ rest else rest

  abbrev pub any : (A → Bool) → List A → Bool
  any p [] = false
  any p (x ∷ xs) = if p x then true else any p xs

  -- `UPDATE … SET f WHERE p`
  abbrev pub update : (A → Bool) → (A → A) → List A → List A
  update p f [] = []
  update p f (x ∷ xs) = (if p x then f x else x) ∷ update p f xs

  -- `func.sum` of a column, with 0 for no row.
  abbrev pub sum_of : (A → ℕ) → List A → ℕ
  sum_of f [] = 0
  sum_of f (x ∷ xs) = f x + sum_of f xs

  -- Every row, or no row, satisfies a predicate.
  abbrev pub All {κ} : (A → Type κ) → List A → Type κ
  All P [] = Unit
  All P (x ∷ xs) = P x × All P xs

  -- A row that is found satisfies the test, and all that holds of every row.
  pub find?_sound : (p : A → Bool) (xs : List A) (x : A) → find? p xs ≡ some x → p x ≡ true
  find?_sound p [] x h = cc
  find?_sound p (y ∷ xs) x h = elim (Bool-cases (p y)) [
    | inl hit ↦ let found : some y ≡ some x = rw hit at h in let e : y ≡ x = cc in rw (← e) hit
    | inr miss ↦ find?_sound p xs x (rw miss at h)
  ]

  pub All-find? {κ} :
      (P : A → Type κ) (p : A → Bool) (xs : List A) (x : A) → All P xs → find? p xs ≡ some x → P x
  All-find? P p [] x a h = cc
  All-find? P p (y ∷ xs) x a h = elim (Bool-cases (p y)) [
    | inl hit ↦ let found : some y ≡ some x = rw hit at h in let e : y ≡ x = cc in subst P e a.0
    | inr miss ↦ All-find? P p xs x a.1 (rw miss at h)
  ]

  -- A row that an update leaves in its place is found with the update.
  pub find?-update :
      (p : A → Bool) (f : A → A) (xs : List A)
      → ((x : A) → p (f x) ≡ p x)
      → (x : A) → find? p xs ≡ some x
      → find? p (update p f xs) ≡ some (f x)
  find?-update p f [] keeps x h = cc
  find?-update p f (y ∷ xs) keeps x h = elim (Bool-cases (p y)) [
    | inl hit ↦
        let found : some y ≡ some x = rw hit at h in
        let same : y ≡ x = cc in
        let hit' : p (f y) ≡ true = keeps y ∙ hit in rw (hit, hit') (ap (λ z. some (f z)) same)
    | inr miss ↦ rw (miss, miss) (find?-update p f xs keeps x (rw miss at h))
  ]

  -- No row is found exactly when `any` finds none.
  pub any-find? : (p : A → Bool) (xs : List A) → any p xs ≡ is_some (find? p xs)
  any-find? p [] = refl
  any-find? p (y ∷ xs) = elim (Bool-cases (p y)) [
    | inl hit ↦ rw hit
    | inr miss ↦ rw miss (any-find? p xs)
  ]

-- `ORDER BY` the time of insertion, `OFFSET` and `LIMIT`.
module _ {A : Type 0} where
  abbrev pub oldest_first : List A → List A
  oldest_first [] = []
  oldest_first (x ∷ xs) = oldest_first xs ++ (x ∷ [])

  abbrev pub skip : ℕ → List A → List A
  skip zero xs = xs
  skip (suc n) [] = []
  skip (suc n) (x ∷ xs) = skip n xs

  abbrev pub keep : ℕ → List A → List A
  keep zero xs = []
  keep (suc n) [] = []
  keep (suc n) (x ∷ xs) = x ∷ keep n xs

  -- Without a limit the offset is not used.
  abbrev pub page : Option ℕ → ℕ → List A → List A
  page none offset xs = xs
  page (some limit) offset xs = keep limit (skip offset xs)
