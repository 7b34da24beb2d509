-- ===== src/Payment/Reference.antt =====
-- The search for a client reference comes to an end: as many candidates are taken as there are attempts
-- at most.
use chamacore.Prelude.{
  ℕ, zero, suc, ◌≤◌, ◌<◌, ◌≡◌, refl, true, false, some, List, [], ◌∷◌, inl, inr, leb, ◌==◌, ◌&&◌,
  arith, if◌then◌else◌, Bool-cases,
}
use chamacore.Prelude.Table.{any}
use chamacore.Data.{Db, PaymentAttempt}
use chamacore.Payment.Attempt.{candidate, search_reference, unique_client_reference, rows_and_one}
use chamacore.Payment.Gateway.{reference_prefix}
use chamacore.Payment.Store.{uses_reference}

-- The attempts of the connection with the prefix, the number and a counter from `k` on.
taken_from : ℕ → ℕ → ℕ → ℕ → List PaymentAttempt → ℕ
taken_from connection_id prefix number k [] = 0
taken_from connection_id prefix number k (x ∷ xs) =
    let rest = taken_from connection_id prefix number k xs in
    if x.connection_id == connection_id
      && x.client_reference.prefix == prefix
      && x.client_reference.number == number
      && leb k x.client_reference.counter
    then suc rest
    else rest

module _ (connection_id prefix number : ℕ) where
  taken_from-falls :
      (k : ℕ) (xs : List PaymentAttempt)
      → taken_from connection_id prefix number (suc k) xs
        ≤ taken_from connection_id prefix number k xs
  unfolding taken_from
  taken_from-falls k [] = omega arith
  taken_from-falls k (x ∷ xs) = let h = taken_from-falls k xs in ground arith

  -- A candidate that is taken is counted from its counter on, and not from the next.
  taken_from-drops :
      (k : ℕ) (xs : List PaymentAttempt)
      → any (uses_reference connection_id (candidate prefix number k)) xs ≡ true
      → taken_from connection_id prefix number (suc k) xs
        < taken_from connection_id prefix number k xs
  unfolding taken_from
  taken_from-drops k [] h = cc
  taken_from-drops k (x ∷ xs) h =
      let falls = taken_from-falls k xs in
      elim (Bool-cases (uses_reference connection_id (candidate prefix number k) x)) [
        | inl used ↦ ground arith
        | inr unused ↦ let later = taken_from-drops k xs (rw unused at h) in ground arith
      ]

  taken_from-bounded :
      (k : ℕ) (xs : List PaymentAttempt)
      → taken_from connection_id prefix number k xs < rows_and_one xs
  unfolding taken_from
  taken_from-bounded k [] = omega arith
  taken_from-bounded k (x ∷ xs) = let h = taken_from-bounded k xs in ground arith

  search_reference-Found :
      (fuel k : ℕ) (xs : List PaymentAttempt)
      → taken_from connection_id prefix number k xs < fuel
      → (n : ℕ) × (search_reference fuel xs connection_id prefix number k
          ≡ some (candidate prefix number n))
        × (any (uses_reference connection_id (candidate prefix number n)) xs ≡ false)
  unfolding search_reference
  search_reference-Found zero k xs enough = absurd (omega (arith, enough))
  search_reference-Found (suc fuel) k xs enough =
      elim (Bool-cases (any (uses_reference connection_id (candidate prefix number k)) xs)) [
        | inl taken ↦
            let drops = taken_from-drops k xs taken in
            let later = search_reference-Found fuel (suc k) xs (omega arith) in rw taken later
        | inr free ↦ rw free (k, refl, free)
      ]

-- The search for a client reference always finds one, with some counter, and no attempt of the
-- connection uses it.
pub unique_client_reference_total :
    (connection_id intent_id attempt_number : ℕ) (db : Db)
    → (n : ℕ) × (unique_client_reference connection_id intent_id attempt_number db
        ≡ some (candidate (reference_prefix intent_id) attempt_number n))
      × (any
            (uses_reference connection_id (candidate (reference_prefix intent_id) attempt_number n))
            db.attempts
          ≡ false)
unfolding unique_client_reference
unique_client_reference_total connection_id intent_id attempt_number db =
    search_reference-Found connection_id (reference_prefix intent_id) attempt_number
      (rows_and_one db.attempts) 0 db.attempts
      (taken_from-bounded connection_id (reference_prefix intent_id) attempt_number 0 db.attempts)
