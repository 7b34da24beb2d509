-- ===== src/Payment/Initiate.antt =====
-- `initiate` of app/services/payment_intent.py: the one operation that asks the provider for money.
use chamacore.Prelude.{ℕ, suc, Bool, true, false, not, String, some, leb, if◌then◌else◌}
use chamacore.Data.{
  Db, Env, User, PaymentConnection, PaymentConnectionStatus, PaymentIntent, PaymentIntentStatus,
  PaymentAttempt, PaymentAttemptStatus, PaymentTransferSource,
}
use chamacore.Session.{
  if_none, Action, Result, ok, state_error, rate_limited, provider_error, raise, check, gets, query,
  lift, pure, modify, commit, or_raise, after, ◌>>=◌, ◌>>◌,
}
use chamacore.Access.{
  get_chama_or_404, authorize_chama_access, authorize_chama_write, get_target_membership,
  require_own_or_leadership, is_active,
}
use chamacore.Payment.Gateway.{Gateway, supports}
use chamacore.Payment.Store.{
  get_connection_in_chama, get_intent_in_chama, list_for_intent, last, update_attempt,
}
use chamacore.Payment.Transition.{transition_intent}
use chamacore.Payment.Attempt.{is_retryable, max_attempt_numbers, create_attempt}
use chamacore.Payment.Resolve.{query_and_resolve}

abbrev is_active_connection : PaymentConnectionStatus → Bool
is_active_connection PaymentConnectionStatus.active = true
is_active_connection _ = false

-- `_active_connection`; the one adapter that is registered has the capability.
unfoldable pub active_connection : ℕ → ℕ → Db → Result PaymentConnection
active_connection chama_id connection_id db =
    after
      (or_raise (get_connection_in_chama chama_id connection_id db)
        (state_error "Payment connection not found in this Chama"))
      λ connection.
        after
          (check (not (is_active_connection connection.status))
            (state_error "Payment connection is not active and cannot initiate payments"))
          λ _.
            after
              (check (not (supports connection.provider_code connection.environment))
                (provider_error "No provider adapter is registered"))
              λ _. ok connection

-- `_shaped_credentials`
unfoldable pub shaped_credentials : Gateway → PaymentConnection → ℕ → Result String
shaped_credentials g connection chama_id =
    after
      (or_raise (g.unseal connection chama_id)
        (state_error "Stored payment credentials could not be decrypted"))
      λ payload. g.shape connection payload

-- The intent fails for good, which is committed before the error.
unfoldable pub give_up : User → PaymentIntent → String → Action PaymentAttempt
give_up actor intent message = do
  transition_intent intent PaymentIntentStatus.failed PaymentTransferSource.client (some actor.id)
  commit
  raise (state_error message)

-- After a failed attempt: no attempt is left, the failure was permanent, or the next attempt.
unfoldable pub retry :
    Env
    → Gateway
    → User
    → PaymentIntent
    → PaymentConnection
    → String
    → PaymentAttempt
    → Action PaymentAttempt
unfolding give_up
retry env g actor intent connection shaped attempt =
    if leb (max_attempt_numbers env) attempt.attempt_number
    then give_up actor intent "Payment could not be completed after the maximum number of attempts"
    else if not attempt.retryable
    then give_up actor intent "The payment provider rejected this request permanently"
    else create_attempt env g actor intent connection shaped (suc attempt.attempt_number)

-- An attempt that a query has resolved as failed.
unfoldable pub retry_resolved :
    Env
    → Gateway
    → User
    → PaymentIntent
    → PaymentConnection
    → String
    → PaymentAttempt
    → Action PaymentAttempt
unfolding retry
retry_resolved env g actor intent connection shaped attempt = do
  modify (update_attempt attempt.id λ a. record a { retryable = is_retryable attempt.failure_code })
  commit
  retry env g actor intent connection shaped
      (record attempt { retryable = is_retryable attempt.failure_code })

unfoldable pub continue_resolved :
    PaymentAttemptStatus
    → Env
    → Gateway
    → User
    → PaymentIntent
    → PaymentConnection
    → String
    → PaymentAttempt
    → Action PaymentAttempt
unfolding retry_resolved
continue_resolved PaymentAttemptStatus.succeeded env g actor intent connection shaped attempt =
    pure attempt
continue_resolved _ env g actor intent connection shaped attempt =
    retry_resolved env g actor intent connection shaped attempt

unfoldable pub resolve_pending :
    Env
    → Gateway
    → User
    → PaymentIntent
    → PaymentConnection
    → String
    → PaymentAttempt
    → Action PaymentAttempt
unfolding query_and_resolve continue_resolved
resolve_pending env g actor intent connection shaped attempt = do
  resolved ← query_and_resolve env g attempt connection intent.chama_id shaped
  if_none resolved (pure attempt)
      λ now. continue_resolved now.status env g actor intent connection shaped now

-- What becomes of the last attempt.
unfoldable pub continue_last :
    PaymentAttemptStatus
    → Env
    → Gateway
    → User
    → PaymentIntent
    → PaymentConnection
    → String
    → PaymentAttempt
    → Action PaymentAttempt
unfolding resolve_pending retry
continue_last PaymentAttemptStatus.succeeded env g actor intent connection shaped attempt =
    pure attempt
continue_last PaymentAttemptStatus.failed env g actor intent connection shaped attempt =
    retry env g actor intent connection shaped attempt
continue_last _ env g actor intent connection shaped attempt =
    resolve_pending env g actor intent connection shaped attempt

unfoldable pub first_attempt :
    Env → Gateway → User → PaymentIntent → PaymentConnection → String → Action PaymentAttempt
first_attempt env g actor intent connection shaped = do
  started ←
      transition_intent intent PaymentIntentStatus.processing PaymentTransferSource.client
        (some actor.id)
  commit
  create_attempt env g actor started connection shaped 1

unfoldable pub send :
    Env → Gateway → User → PaymentIntent → PaymentConnection → String → Action PaymentAttempt
unfolding first_attempt continue_last
send env g actor intent connection shaped = do
  attempts ← gets (list_for_intent intent.id)
  if_none (last attempts) (first_attempt env g actor intent connection shaped)
      λ attempt. continue_last attempt.status env g actor intent connection shaped attempt

-- The connection and its credentials, after the guards on them and on the target.
unfoldable pub prepare : Gateway → ℕ → PaymentIntent → ℕ → Db → Result (PaymentConnection × String)
unfolding active_connection shaped_credentials
prepare g chama_id intent connection_id db =
    after (active_connection chama_id connection_id db) λ connection.
      after
        (check (not (g.admitted connection.id))
          (rate_limited "The daily payment initiation limit for this connection was reached"))
        λ _. after (get_target_membership chama_id intent.membership_id db) λ target.
          after
            (check (not (is_active target.status))
              (state_error "The payment target is no longer an active member of this Chama"))
            λ _. after (shaped_credentials g connection chama_id) λ shaped. ok (connection, shaped)

-- A completed intent gives back its last attempt.
unfoldable pub completed : PaymentIntent → Action PaymentAttempt
completed intent = do
  attempts ← gets (list_for_intent intent.id)
  lift (or_raise (last attempts) (state_error "This payment intent has already been completed"))

unfoldable pub prepare_and_send :
    Env → Gateway → User → ℕ → PaymentIntent → ℕ → Action PaymentAttempt
unfolding send
prepare_and_send env g actor chama_id intent connection_id = do
  ready ← query (prepare g chama_id intent connection_id)
  send env g actor intent ready.0 ready.1

unfoldable pub initiate_in :
    PaymentIntentStatus → Env → Gateway → User → ℕ → PaymentIntent → ℕ → Action PaymentAttempt
unfolding completed prepare_and_send
initiate_in PaymentIntentStatus.failed env g actor chama_id intent connection_id =
    raise (state_error "This payment intent has already failed; create a new payment intent")
initiate_in PaymentIntentStatus.succeeded env g actor chama_id intent connection_id =
    completed intent
initiate_in _ env g actor chama_id intent connection_id =
    prepare_and_send env g actor chama_id intent connection_id

-- The intent that the caller may start.
unfoldable pub startable : User → ℕ → ℕ → Db → Result PaymentIntent
startable actor chama_id intent_id db = after (get_chama_or_404 chama_id db) λ _.
    after (authorize_chama_access actor chama_id db) λ _.
      after
        (or_raise (get_intent_in_chama chama_id intent_id db)
          (state_error "Payment intent not found in this Chama"))
        λ intent.
          after (authorize_chama_write actor chama_id db)
            λ caller. after (require_own_or_leadership caller intent.membership_id) λ _. ok intent

unfoldable pub initiate : Env → Gateway → User → ℕ → ℕ → ℕ → Action PaymentAttempt
unfolding startable initiate_in
initiate env g actor chama_id intent_id connection_id = do
  intent ← query (startable actor chama_id intent_id)
  initiate_in intent.status env g actor chama_id intent connection_id
