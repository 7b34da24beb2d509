-- ===== src/Payment/Final/Watch.antt =====
-- One intent and one attempt, each with a final status (ADR-016), that are watched in every view.
use chamacore.Prelude.{ℕ, ◌≡◌, ◌≢◌, Bool, true, false, List, [], ◌∷◌, ◌++◌, inl, inr, Bool-cases}
use chamacore.Prelude.Table.{All, select, update}
use chamacore.Data.{
  Db, Env, PaymentIntent, PaymentIntentStatus, PaymentAttempt, PaymentAttemptStatus,
}
use chamacore.Session.{Session}
use chamacore.Session.Everywhere.{Everywhere}

unfoldable pub is_final_intent : PaymentIntentStatus → Bool
is_final_intent PaymentIntentStatus.succeeded = true
is_final_intent PaymentIntentStatus.failed = true
is_final_intent _ = false

unfoldable pub is_final_attempt : PaymentAttemptStatus → Bool
is_final_attempt PaymentAttemptStatus.succeeded = true
is_final_attempt PaymentAttemptStatus.failed = true
is_final_attempt _ = false

pub record Watched : Type 0 where
  pub intent : ℕ
  pub intent_status : PaymentIntentStatus
  pub attempt : ℕ
  pub attempt_status : PaymentAttemptStatus
  pub final_intent : is_final_intent intent_status ≡ true
  pub final_attempt : is_final_attempt attempt_status ≡ true

-- A row with the id has the status.
abbrev pub AgreesIntent : Watched → PaymentIntent → Type 0
AgreesIntent w x = x.id ≡ w.intent → x.status ≡ w.intent_status

abbrev pub AgreesAttempt : Watched → PaymentAttempt → Type 0
AgreesAttempt w a = a.id ≡ w.attempt → a.status ≡ w.attempt_status

-- Every row with the id has the status.
pub record IsKept (w : Watched) (db : Db) : Type 0 where
  pub intents : All (AgreesIntent w) db.intents
  pub attempts : All (AgreesAttempt w) db.attempts

abbrev pub Watching : Watched → Session → Type 0
Watching w = Everywhere (IsKept w)

-- The ids that a request draws, and those that other sessions insert, are not the watched ones.
pub record IsFresh (w : Watched) (env : Env) : Type 0 where
  pub new_intent : env.row_id ≢ w.intent
  pub new_attempt : env.row_id ≢ w.attempt
  pub landed : All (AgreesIntent w) env.concurrent_intents

module _ {A : Type 0} (P : A → Type 0) where
  pub All-update :
      (p : A → Bool) (f : A → A) (xs : List A)
      → ((x : A) → p x ≡ true → P x → P (f x))
      → All P xs
      → All P (update p f xs)
  All-update p f [] k a = tt
  All-update p f (x ∷ xs) k a = elim (Bool-cases (p x)) [
    | inl hit ↦ rw hit (k x hit a.0, All-update p f xs k a.1)
    | inr miss ↦ rw miss (a.0, All-update p f xs k a.1)
  ]

  pub All-select : (p : A → Bool) (xs : List A) → All P xs → All P (select p xs)
  All-select p [] a = tt
  All-select p (x ∷ xs) a = elim (Bool-cases (p x)) [
    | inl hit ↦ rw hit (a.0, All-select p xs a.1)
    | inr miss ↦ rw miss (All-select p xs a.1)
  ]

  pub All-append : (xs ys : List A) → All P xs → All P ys → All P (xs ++ ys)
  All-append [] ys a b = b
  All-append (x ∷ xs) ys a b = (a.0, All-append xs ys a.1 b)
