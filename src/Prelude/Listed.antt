-- ===== src/Prelude/Listed.antt =====
-- What holds of every row that a query selects, orders and pages.
use chamacore.Prelude.{
  ℕ, suc, zero, ◌≡◌, inl, inr, Bool, true, Option, none, some, List, [], ◌∷◌, ◌++◌, Bool-cases,
}
use chamacore.Prelude.Table.{select, All, oldest_first, skip, keep, page}

module _ {A : Type 0} (p : A → Bool) where
  abbrev pub Each : List A → Type 0
  Each = All (λ x. p x ≡ true)

  pub select-Each : (xs : List A) → Each (select p xs)
  select-Each [] = tt
  select-Each (x ∷ xs) = elim (Bool-cases (p x)) [
    | inl hit ↦ rw hit (hit, select-Each xs)
    | inr miss ↦ rw miss (select-Each xs)
  ]

  append-Each : (xs ys : List A) → Each xs → Each ys → Each (xs ++ ys)
  append-Each [] ys h k = k
  append-Each (x ∷ xs) ys h k = (h.0, append-Each xs ys h.1 k)

  pub oldest_first-Each : (xs : List A) → Each xs → Each (oldest_first xs)
  oldest_first-Each [] h = tt
  oldest_first-Each (x ∷ xs) h =
      append-Each (oldest_first xs) (x ∷ []) (oldest_first-Each xs h.1) (h.0, tt)

  pub skip-Each : (n : ℕ) (xs : List A) → Each xs → Each (skip n xs)
  skip-Each zero xs h = h
  skip-Each (suc n) [] h = tt
  skip-Each (suc n) (x ∷ xs) h = skip-Each n xs h.1

  keep-Each : (n : ℕ) (xs : List A) → Each xs → Each (keep n xs)
  keep-Each zero xs h = tt
  keep-Each (suc n) [] h = tt
  keep-Each (suc n) (x ∷ xs) h = (h.0, keep-Each n xs h.1)

  pub page-Each :
      (limit : Option ℕ) (offset : ℕ) (xs : List A) → Each xs → Each (page limit offset xs)
  page-Each none offset xs h = h
  page-Each (some limit) offset xs h = keep-Each limit (skip offset xs) (skip-Each offset xs h)

  pub listed-Each :
      (limit : Option ℕ) (offset : ℕ) (xs : List A)
      → Each (page limit offset (oldest_first (select p xs)))
  listed-Each limit offset xs =
      page-Each limit offset (oldest_first (select p xs))
        (oldest_first-Each (select p xs) (select-Each xs))
