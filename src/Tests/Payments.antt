-- ===== src/Tests/Payments.antt =====
-- The payment theorems at a concrete intent of 100.00 through a Daraja connection.
use Prim.Native.Char.{Char, code}
use chamacore.Prelude.{
  ℕ, ◌≡◌, refl, Bool, true, false, ◌&&◌, String, none, some, List, [], ◌∷◌, inr, leb, arith,
}
use chamacore.Prelude.Table.{All, any}
use chamacore.Access.{
  get_chama_or_404, authorize_chama_access, authorize_chama_write, membership_of,
  require_own_or_leadership, get_target_membership,
}
use chamacore.Data.{
  Db, PaymentConnection, PaymentConnectionStatus, PaymentProviderCode, PaymentEnvironment,
  PaymentIntent, PaymentIntentStatus, PaymentAttempt, PaymentAttemptStatus, PaymentEvent,
  PaymentEventStatus, PaymentTransferSource, ProviderTransactionStatus, same_provider,
  same_environment,
}
use chamacore.Session.{
  Session, fresh, ok, err, AppError, state_error, modify, commit, if_none, ◌>>=◌,
}
use chamacore.Requests.{Request, PaymentRequest, Call, serve}
use chamacore.Payment.Gateway.{Gateway, ChargeReply, QueryReply, reference_prefix}
use chamacore.Payment.Store.{
  get_intent_in_chama, list_for_intent, by_number, insert_by_number, last, get_connection,
  get_connection_in_chama, get_by_connection_event, event_refused, update_event, update_intent,
  add_payment_event, add_intent, get_by_idempotency_key, intent_refused, land_intents,
  uses_reference,
}
use chamacore.Payment.Transition.{moved_to}
use chamacore.Payment.Intent.{
  Order, create, new_intent, authorize_order, insert_intent, validate_linked_contribution,
}
use chamacore.Payment.Attempt.{candidate, unique_client_reference}
use chamacore.Payment.Initiate.{initiate, startable, prepare, active_connection, shaped_credentials}
use chamacore.Payment.Charge.{NotFailed, charging, initiate_no_duplicate}
use chamacore.Payment.Exhausted.{initiate_exhausted, initiate_stuck}
use chamacore.Payment.Idempotent.{create_retry}
use chamacore.Payment.Reference.{unique_client_reference_total}
use chamacore.Payment.Final.{serve-IsKept}
use chamacore.Payment.Final.Watch.{Watched, IsKept, is_final_intent, is_final_attempt}
use chamacore.Payment.Webhook.{handle_callback, accept, apply_event}
use chamacore.Payment.Webhook.Connection.{
  Delivery, ConnectionParam, resolve_connection, resolve_by, named_connection,
  check_connection_match,
}
use chamacore.Payment.Webhook.Inbox.{marked, new_event, stored_in}
use chamacore.Payment.Webhook.Redelivery.{handle_callback_redelivery}
use chamacore.Payment.Webhook.Recovery.{handle_callback_resumes}
use chamacore.Tests.{chair, env_with, books}

abbrev ascii_digit : Char → Bool
ascii_digit c = leb b'0' (code c) && leb (code c) b'9'

-- The provider accepts a request, and has no answer to a query.
abbrev gateway : Gateway
gateway = record {
  admitted = λ k. true;
  unseal = λ k c. some "sealed";
  shape = λ k payload. ok payload;
  create_payment_attempt = λ shaped request context. ChargeReply.answered (record {
    accepted = true;
    provider_request_id = some "ws_1";
    provider_transaction_id = none;
    normalized_status = ProviderTransactionStatus.pending;
    retryable = false;
    error_code = none;
    error_message_safe = none;
  });
  query_payment_status = λ shaped id reference context. QueryReply.unavailable;
  token = λ k code environment. "token";
  hash = λ payload. payload.purpose;
  upper = λ t. t;
  is_decimal = ascii_digit;
}

abbrev connection : PaymentConnection
connection = record {
  id = 5;
  chama_id = 1;
  provider_code = PaymentProviderCode.daraja;
  environment = PaymentEnvironment.sandbox;
  status = PaymentConnectionStatus.active;
  encrypted_credentials = "envelope";
  credential_version = 1;
}

abbrev intent_in : PaymentIntentStatus → PaymentIntent
intent_in status = record {
  id = 600;
  chama_id = 1;
  membership_id = 21;
  contribution_id = none;
  requested_phone = some "254700000001";
  amount = 10000;
  currency = "KES";
  purpose = "savings";
  status = status;
  idempotency_key = "k1";
  idempotency_payload_hash = "savings";
  created_by_user_id = 1;
  last_transition_source = PaymentTransferSource.client;
  last_transition_by_user_id = some 1;
}

abbrev attempt_in : PaymentAttemptStatus → PaymentAttempt
attempt_in status = record {
  id = 700;
  payment_intent_id = 600;
  connection_id = 5;
  attempt_number = 1;
  provider_request_id = some "ws_1";
  provider_transaction_id = none;
  client_reference = candidate (reference_prefix 600) 1 0;
  retryable = false;
  status = status;
  failure_code = none;
  failure_message_safe = none;
  completed_at = none;
  last_transition_source = PaymentTransferSource.client;
}

abbrev payments : List PaymentIntent → List PaymentAttempt → List PaymentEvent → Db
payments intents attempts events = record (books [] []) {
  members = record { id = 11; phone_number = "254700000001" } ∷ [];
  connections = connection ∷ [];
  intents = intents;
  attempts = attempts;
  events = events;
}

abbrev succeeded_db : Db
succeeded_db =
    payments (intent_in PaymentIntentStatus.succeeded ∷ [])
      (attempt_in PaymentAttemptStatus.succeeded ∷ []) []

abbrev watched : Watched
unfolding is_final_intent is_final_attempt
watched = record {
  intent = 600;
  intent_status = PaymentIntentStatus.succeeded;
  attempt = 700;
  attempt_status = PaymentAttemptStatus.succeeded;
  final_intent = refl;
  final_attempt = refl;
}

-- A callback that says that the charge failed.
abbrev delivery : Delivery
delivery = record {
  provider_code = PaymentProviderCode.daraja;
  environment = PaymentEnvironment.sandbox;
  oversized = false;
  digest = "d1";
  parsed = record {
    provider_event_id = some "ws_1";
    provider_request_id = some "ws_1";
    provider_transaction_id = none;
    amount = none;
    currency = some "KES";
    normalized_status = some ProviderTransactionStatus.failed;
    raw_status = some "ResultCode 1032";
    error_code = some "DARAJA_1032";
    error_message_safe = some "cancelled";
  };
  verified = true;
  token = some "token";
  connection_id = ConnectionParam.named 5;
}

abbrev call : ℕ → PaymentRequest → Call
call n r = record { env = env_with n; actor = chair; request = Request.payment r }

abbrev calls : List Call
calls =
    call 800 (PaymentRequest.intent_initiate gateway 1 600 5)
    ∷ call 900 (PaymentRequest.callback gateway delivery)
    ∷ []

serve-IsKept_example :
    IsKept watched (serve (fresh succeeded_db []) calls).saved
    × All (IsKept watched) (serve (fresh succeeded_db []) calls).earlier
unfolding watched
serve-IsKept_example =
    serve-IsKept watched succeeded_db calls
      (record { intents = ((λ e. refl), tt); attempts = ((λ e. refl), tt) })
      (
        record {
          payment = PaymentRequest.intent_initiate gateway 1 600 5;
          kind = refl;
          new_ids = record {
            new_intent = λ e. absurd (omega (arith, e));
            new_attempt = λ e. absurd (omega (arith, e));
            landed = tt;
          };
        },
        (
          record {
            payment = PaymentRequest.callback gateway delivery;
            kind = refl;
            new_ids = record {
              new_intent = λ e. absurd (omega (arith, e));
              new_attempt = λ e. absurd (omega (arith, e));
              landed = tt;
            };
          },
          tt,
        ),
      )

abbrev in_flight : Db
in_flight =
    payments (intent_in PaymentIntentStatus.processing ∷ [])
      (attempt_in PaymentAttemptStatus.initiated ∷ []) []

initiate_no_duplicate_example :
    initiate (env_with 800) gateway chair 1 600 5 (fresh in_flight [])
    ≡ initiate
        (env_with 800)
        (charging gateway λ t r k. ChargeReply.timed_out "T" "slow")
        chair
        1
        600
        5
        (fresh in_flight [])
unfolding get_intent_in_chama list_for_intent by_number insert_by_number last is_final_attempt
    NotFailed
initiate_no_duplicate_example =
    initiate_no_duplicate (env_with 800) gateway chair 1 600 5
      (intent_in PaymentIntentStatus.processing) (attempt_in PaymentAttemptStatus.initiated)
      (fresh in_flight []) refl refl refl (λ shaped id k. tt)
      (λ t r k. ChargeReply.timed_out "T" "slow")

abbrev rejected_db : Db
rejected_db =
    payments (intent_in PaymentIntentStatus.processing ∷ [])
      (attempt_in PaymentAttemptStatus.failed ∷ []) []

initiate_exhausted_example :
    (message : String) × (initiate (env_with 800) gateway chair 1 600 5 (fresh rejected_db []) ≡ (
      err (state_error message),
      fresh
          (update_intent 600
            (moved_to PaymentIntentStatus.failed PaymentTransferSource.client (some 1))
            rejected_db)
          (rejected_db ∷ []),
    ))
unfolding startable get_chama_or_404 authorize_chama_access authorize_chama_write membership_of
    require_own_or_leadership get_intent_in_chama prepare active_connection shaped_credentials
    get_connection_in_chama get_target_membership list_for_intent by_number insert_by_number last
initiate_exhausted_example =
    initiate_exhausted (env_with 800) gateway chair 1 600 5
      (intent_in PaymentIntentStatus.processing) (attempt_in PaymentAttemptStatus.failed)
      (connection, "sealed") rejected_db [] refl refl refl refl refl refl

abbrev stuck_db : Db
stuck_db = payments (intent_in PaymentIntentStatus.processing ∷ []) [] []

initiate_stuck_example :
    (e : AppError) × (initiate (env_with 800) gateway chair 1 600 5 (fresh stuck_db [])
      ≡ (err e, fresh stuck_db []))
unfolding get_intent_in_chama list_for_intent by_number
initiate_stuck_example =
    initiate_stuck (env_with 800) gateway chair 1 600 5 (intent_in PaymentIntentStatus.processing)
      (fresh stuck_db []) refl refl refl

abbrev order : Order
order = record {
  membership_id = 21;
  amount = 10000;
  currency = "KES";
  purpose = "savings";
  idempotency_key = "k1";
  contribution_id = none;
  phone_number = none;
}

abbrev created : PaymentIntent
created = new_intent (env_with 600) gateway chair 1 order

abbrev after_create : Session
after_create = fresh (add_intent created (payments [] [] [])) (payments [] [] [] ∷ [])

creates :
    create (env_with 600) gateway chair 1 order (fresh (payments [] [] []) [])
    ≡ (ok created, after_create)
unfolding create authorize_order get_chama_or_404 authorize_chama_access authorize_chama_write
    membership_of get_target_membership require_own_or_leadership validate_linked_contribution
    get_by_idempotency_key insert_intent intent_refused land_intents modify commit if_none ◌>>=◌
creates = refl

create_retry_example :
    create (env_with 900) gateway chair 1 order after_create ≡ (ok created, after_create)
create_retry_example =
    create_retry (env_with 600) (env_with 900) gateway chair 1 order (payments [] [] []) [] created
      after_create creates

unique_client_reference_total_example :
    (n : ℕ) × (unique_client_reference 5 600 1 in_flight
      ≡ some (candidate (reference_prefix 600) 1 n))
    × (any (uses_reference 5 (candidate (reference_prefix 600) 1 n)) in_flight.attempts ≡ false)
unique_client_reference_total_example = unique_client_reference_total 5 600 1 in_flight

abbrev processed_event : PaymentEvent
processed_event = record (new_event (env_with 650) connection delivery) {
  status = PaymentEventStatus.processed;
}

abbrev processed_db : Db
processed_db = payments [] [] (processed_event ∷ [])

handle_callback_redelivery_example :
    handle_callback (env_with 900) gateway delivery (fresh processed_db []) ≡ (
      ok (marked (env_with 900) PaymentEventStatus.deduplicated processed_event),
      fresh
          (update_event 650 (marked (env_with 900) PaymentEventStatus.deduplicated) processed_db)
          (processed_db ∷ []),
    )
unfolding accept resolve_connection resolve_by named_connection check_connection_match
    get_connection same_provider same_environment stored_in get_by_connection_event
handle_callback_redelivery_example =
    handle_callback_redelivery (env_with 900) gateway delivery connection processed_event
      processed_db [] refl refl (inr λ e. cc)

abbrev received_event : PaymentEvent
received_event = new_event (env_with 900) connection delivery

handle_callback_resumes_example :
    (handle_callback (env_with 900) gateway delivery (fresh in_flight [])
      ≡ apply_event
          (env_with 900)
          connection
          delivery.parsed
          received_event
          (fresh (add_payment_event received_event in_flight) (in_flight ∷ [])))
    × (handle_callback
          (env_with 950)
          gateway
          delivery
          (fresh (add_payment_event received_event in_flight) (in_flight ∷ []))
        ≡ apply_event
            (env_with 950)
            connection
            delivery.parsed
            received_event
            (fresh (add_payment_event received_event in_flight) (in_flight ∷ [])))
unfolding accept resolve_connection resolve_by named_connection check_connection_match
    get_connection same_provider same_environment stored_in get_by_connection_event event_refused
handle_callback_resumes_example =
    handle_callback_resumes (env_with 900) (env_with 950) gateway delivery connection in_flight []
      refl refl refl refl refl refl
