-- ===== src/Payment/Exhausted.antt =====
-- How `initiate` ends a payment that cannot go on, and an intent that it cannot go on with.
use chamacore.Prelude.{
  ℕ, ◌≡◌, refl, ap, ◌∙◌, true, false, not, ◌||◌, String, some, List, [], ◌∷◌, inl, inr, leb,
  Bool-cases,
}
use chamacore.Data.{
  Db, Env, User, PaymentConnection, PaymentIntent, PaymentIntentStatus, PaymentAttempt,
  PaymentAttemptStatus, PaymentTransferSource,
}
use chamacore.Session.{
  Session, fresh, Result, ok, err, AppError, state_error, continue, query, modify, commit, if_none,
  ◌>>=◌,
}
use chamacore.Session.Rules.{>>=-step}
use chamacore.Payment.Gateway.{Gateway}
use chamacore.Payment.Store.{get_intent_in_chama, list_for_intent, last, update_intent}
use chamacore.Payment.Transition.{transition_intent, allowed, moved_to}
use chamacore.Payment.Attempt.{max_attempt_numbers}
use chamacore.Payment.Charge.{startable-found}
use chamacore.Payment.Initiate.{
  give_up, retry, continue_last, first_attempt, send, prepare, prepare_and_send, initiate_in,
  initiate, startable,
}

-- The intent as failed by a client.
abbrev failed_by : User → PaymentIntent → Db → Db
failed_by actor x =
    update_intent x.id
      (moved_to PaymentIntentStatus.failed PaymentTransferSource.client (some actor.id))

give_up-fails :
    (actor : User) (x : PaymentIntent) (message : String) (db : Db) (earlier : List Db)
    → x.status ≡ PaymentIntentStatus.processing
    → give_up actor x message (fresh db earlier)
      ≡ (err (state_error message), fresh (failed_by actor x db) (db ∷ earlier))
unfolding give_up transition_intent ◌>>=◌ allowed modify commit
give_up-fails actor x message db earlier h = rw h refl

module _ (env : Env) (g : Gateway) (actor : User) (x : PaymentIntent) (a : PaymentAttempt) (db : Db)
    (earlier : List Db) (started : x.status ≡ PaymentIntentStatus.processing) where
  retry-fails :
      (c : PaymentConnection) (shaped : String)
      → (leb (max_attempt_numbers env) a.attempt_number || not a.retryable) ≡ true
      → (message : String) × (retry env g actor x c shaped a (fresh db earlier)
          ≡ (err (state_error message), fresh (failed_by actor x db) (db ∷ earlier)))
  unfolding retry
  retry-fails c shaped over = elim (Bool-cases (leb (max_attempt_numbers env) a.attempt_number)) [
    | inl many ↦ rw many (_, give_up-fails actor x _ db earlier started)
    | inr few ↦
        let permanent : not a.retryable ≡ true = rw few at over in
        rw (few, permanent) (_, give_up-fails actor x _ db earlier started)
  ]

module _ (env : Env) (g : Gateway) (actor : User) (chama_id : ℕ) (x : PaymentIntent)
    (connection_id : ℕ) (s : Session) where
  started_in :
      (status : PaymentIntentStatus)
      → status ≡ PaymentIntentStatus.processing
      → initiate_in status env g actor chama_id x connection_id s
        ≡ prepare_and_send env g actor chama_id x connection_id s
  unfolding initiate_in
  started_in PaymentIntentStatus.processing h = refl
  started_in PaymentIntentStatus.pending h = cc
  started_in PaymentIntentStatus.succeeded h = cc
  started_in PaymentIntentStatus.failed h = cc

  -- The start of a PROCESSING intent goes on to its connection.
  initiate-started :
      (intent_id : ℕ)
      → startable actor chama_id intent_id s.flushed ≡ ok x
      → x.status ≡ PaymentIntentStatus.processing
      → initiate env g actor chama_id intent_id connection_id s
        ≡ prepare_and_send env g actor chama_id x connection_id s
  unfolding initiate
  initiate-started intent_id may started =
      >>=-step (query (startable actor chama_id intent_id)) _ s
        (ap (λ (r : Result PaymentIntent). (r, s)) may)
      ∙ started_in x.status started

  prepare_and_send-ready :
      (ready : PaymentConnection × String)
      → prepare g chama_id x connection_id s.flushed ≡ ok ready
      → prepare_and_send env g actor chama_id x connection_id s
        ≡ send env g actor x ready.0 ready.1 s
  unfolding prepare_and_send
  prepare_and_send-ready ready prepared =
      >>=-step (query (prepare g chama_id x connection_id)) _ s
        (ap (λ (r : Result (PaymentConnection × String)). (r, s)) prepared)

  failed_in :
      (status : PaymentAttemptStatus) (c : PaymentConnection) (shaped : String) (a : PaymentAttempt)
      → status ≡ PaymentAttemptStatus.failed
      → continue_last status env g actor x c shaped a s ≡ retry env g actor x c shaped a s
  unfolding continue_last
  failed_in PaymentAttemptStatus.failed c shaped a h = refl
  failed_in PaymentAttemptStatus.initiated c shaped a h = cc
  failed_in PaymentAttemptStatus.succeeded c shaped a h = cc
  failed_in PaymentAttemptStatus.timeout c shaped a h = cc
  failed_in PaymentAttemptStatus.unknown c shaped a h = cc

  send-failed :
      (c : PaymentConnection) (shaped : String) (a : PaymentAttempt)
      → last (list_for_intent x.id s.flushed) ≡ some a
      → a.status ≡ PaymentAttemptStatus.failed
      → send env g actor x c shaped s ≡ retry env g actor x c shaped a s
  unfolding send ◌>>=◌ if_none
  send-failed c shaped a latest is_failed = rw latest (failed_in a.status c shaped a is_failed)

  -- A PROCESSING intent cannot become PROCESSING again.
  send-stuck :
      (c : PaymentConnection) (shaped : String)
      → list_for_intent x.id s.flushed ≡ []
      → x.status ≡ PaymentIntentStatus.processing
      → (e : AppError) × (send env g actor x c shaped s ≡ (err e, s))
  unfolding send ◌>>=◌ if_none first_attempt transition_intent allowed last
  send-stuck c shaped empty started =
      let refused : allowed x.status PaymentIntentStatus.processing ≡ false =
        ap (λ (t : PaymentIntentStatus). allowed t PaymentIntentStatus.processing) started in
      rw (empty, refused) (_, refl)

-- Where the last attempt of a PROCESSING intent has failed for good, or is the last one allowed, starting
-- the intent again raises a state error, and durably fails the intent and changes nothing else. The
-- caller may start the intent, and its connection and target pass the checks.
pub initiate_exhausted :
    (env : Env) (g : Gateway) (actor : User) (chama_id intent_id connection_id : ℕ)
    (x : PaymentIntent) (a : PaymentAttempt) (ready : PaymentConnection × String) (db : Db)
    (earlier : List Db)
    → startable actor chama_id intent_id db ≡ ok x
    → prepare g chama_id x connection_id db ≡ ok ready
    → x.status ≡ PaymentIntentStatus.processing
    → last (list_for_intent x.id db) ≡ some a
    → a.status ≡ PaymentAttemptStatus.failed
    → (leb (max_attempt_numbers env) a.attempt_number || not a.retryable) ≡ true
    → (message : String) × (initiate env g actor chama_id intent_id connection_id (fresh db earlier)
        ≡ (err (state_error message), fresh (failed_by actor x db) (db ∷ earlier)))
initiate_exhausted env g actor chama_id intent_id connection_id x a ready db earlier may prepared
      started latest is_failed over =
    let s = fresh db earlier in
    let (message, raised) = retry-fails env g actor x a db earlier started ready.0 ready.1 over in
    (
      message,
      initiate-started env g actor chama_id x connection_id s intent_id may started
          ∙ prepare_and_send-ready env g actor chama_id x connection_id s ready prepared
          ∙ send-failed env g actor chama_id x connection_id s ready.0 ready.1 a latest is_failed
          ∙ raised,
    )

-- Starting a PROCESSING intent without an attempt raises and changes nothing, for every caller,
-- connection and answer of the provider.
pub initiate_stuck :
    (env : Env) (g : Gateway) (actor : User) (chama_id intent_id connection_id : ℕ)
    (x : PaymentIntent) (s : Session)
    → get_intent_in_chama chama_id intent_id s.flushed ≡ some x
    → x.status ≡ PaymentIntentStatus.processing
    → list_for_intent x.id s.flushed ≡ []
    → (e : AppError) × (initiate env g actor chama_id intent_id connection_id s ≡ (err e, s))
unfolding initiate prepare_and_send ◌>>=◌
initiate_stuck env g actor chama_id intent_id connection_id x s found started empty =
    permitted (startable actor chama_id intent_id s.flushed) refl
  where
    prepared :
        (r : Result (PaymentConnection × String))
        → (e : AppError) × (continue r (λ ready. send env g actor x ready.0 ready.1) s ≡ (err e, s))
    prepared (ok ready) =
        send-stuck env g actor chama_id x connection_id s ready.0 ready.1 empty started
    prepared (err e) = (e, refl)

    permitted :
        (r : Result PaymentIntent)
        → startable actor chama_id intent_id s.flushed ≡ r
        → (e : AppError) × (initiate env g actor chama_id intent_id connection_id s ≡ (err e, s))
    permitted (err e) refused = (e, rw refused refl)
    permitted (ok y) may =
        let same : y ≡ x = startable-found actor chama_id intent_id s.flushed x y found may in
        let may_start : startable actor chama_id intent_id s.flushed ≡ ok x = cc in
        let (e, raised) = prepared (prepare g chama_id x connection_id s.flushed) in
        (
          e,
          initiate-started env g actor chama_id x connection_id s intent_id may_start started
              ∙ raised,
        )
