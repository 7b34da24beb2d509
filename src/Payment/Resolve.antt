-- ===== src/Payment/Resolve.antt =====
-- The resolution of an attempt whose outcome is unknown: `_query_and_resolve` of
-- app/services/payment_intent.py.
use chamacore.Prelude.{ℕ, String, Option, none, some, truthy, is_some, if◌then◌else◌}
use chamacore.Data.{
  Env, PaymentConnection, PaymentIntent, PaymentIntentStatus, PaymentAttempt, PaymentAttemptStatus,
  PaymentTransferSource, ProviderTransaction, ProviderTransactionStatus, same_intent_status,
}
use chamacore.Session.{
  if_none, Action, integrity_error, not_found, raise_if, gets, fetch, lift, pure, modify, commit,
  or_raise, ◌>>=◌, ◌>>◌,
}
use chamacore.Payment.Gateway.{Gateway, QueryReply, StatusQueryResult}
use chamacore.Payment.Store.{
  get_intent_row, update_attempt, get_by_attempt, update_transaction, add_provider_transaction,
  duplicate_ids,
}
use chamacore.Payment.Attempt.{is_retryable, context_of, move_intent}
use chamacore.Payment.Settlement.{settle_linked_contribution}

-- `if new: old = new`
abbrev pub or_keep : Option String → Option String → Option String
or_keep new old = if truthy new then new else old

-- The transaction of an attempt after an answer about it.
abbrev pub queried : Env → StatusQueryResult → ProviderTransaction → ProviderTransaction
queried env result t = record t {
  last_queried_at = some env.now_utc;
  provider_request_id = or_keep result.provider_request_id t.provider_request_id;
  provider_transaction_id = or_keep result.provider_transaction_id t.provider_transaction_id;
  raw_status = or_keep result.raw_status t.raw_status;
  normalized_status = result.normalized_status;
}

-- The transaction that is added where an attempt has none, with the status it starts with.
abbrev pub blank_transaction : PaymentAttempt → ProviderTransactionStatus → ProviderTransaction
blank_transaction attempt status = record {
  payment_attempt_id = attempt.id;
  connection_id = attempt.connection_id;
  provider_request_id = none;
  provider_transaction_id = none;
  normalized_status = status;
  raw_status = none;
  last_queried_at = none;
}

unfoldable pub ensure_transaction : PaymentAttempt → ProviderTransactionStatus → Action (Unit {0})
ensure_transaction attempt status = do
  transaction ← gets (get_by_attempt attempt.id)
  if is_some transaction
      then pure tt
      else modify (add_provider_transaction (blank_transaction attempt status))

-- `attempt.payment_intent`
unfoldable pub intent_of : PaymentAttempt → Action PaymentIntent
intent_of attempt = do
  found ← fetch (get_intent_row attempt.payment_intent_id)
  lift (or_raise found (not_found "Payment intent not found"))

-- The database refuses ids that another transaction has when the change is flushed, which is before
-- anything is committed.
unfoldable pub refuse_duplicate : PaymentAttempt → Action (Unit {0})
refuse_duplicate attempt = do
  refused ← fetch (duplicate_ids attempt.id)
  raise_if refused integrity_error

abbrev pub succeeded_attempt : Env → PaymentTransferSource → PaymentAttempt → PaymentAttempt
succeeded_attempt env source a = record a {
  status = PaymentAttemptStatus.succeeded;
  completed_at = some env.now_utc;
  last_transition_source = source;
}

-- A PROCESSING intent becomes SUCCEEDED; any other stays.
abbrev pub success_of : PaymentIntent → Option PaymentIntentStatus
success_of intent =
    if same_intent_status intent.status PaymentIntentStatus.processing
    then some PaymentIntentStatus.succeeded
    else none

-- `_resolve_attempt_success`
unfoldable pub resolve_attempt_success : Env → PaymentAttempt → Action PaymentAttempt
resolve_attempt_success env attempt = do
  modify (update_attempt attempt.id (succeeded_attempt env PaymentTransferSource.status_query))
  intent ← intent_of attempt
  move_intent intent (success_of intent) PaymentTransferSource.status_query none
  refuse_duplicate attempt
  settle_linked_contribution env intent
  commit
  pure (succeeded_attempt env PaymentTransferSource.status_query attempt)

abbrev pub failed_by_query : Env → Option String → Option String → PaymentAttempt → PaymentAttempt
failed_by_query env code message a = record a {
  status = PaymentAttemptStatus.failed;
  completed_at = some env.now_utc;
  failure_code = code;
  failure_message_safe = message;
  retryable = is_retryable code;
  last_transition_source = PaymentTransferSource.status_query;
}

-- `_resolve_attempt_failure`
unfoldable pub resolve_attempt_failure :
    Env → PaymentAttempt → Option String → Option String → Action PaymentAttempt
resolve_attempt_failure env attempt code message = do
  modify (update_attempt attempt.id (failed_by_query env code message))
  refuse_duplicate attempt
  commit
  pure (failed_by_query env code message attempt)

-- The attempt as resolved, or nothing where its outcome is still unknown.
unfoldable pub resolve_in :
    ProviderTransactionStatus
    → Env
    → PaymentAttempt
    → StatusQueryResult
    → Action (Option PaymentAttempt)
resolve_in ProviderTransactionStatus.succeeded env attempt result = do
  resolved ← resolve_attempt_success env attempt
  pure (some resolved)
resolve_in ProviderTransactionStatus.failed env attempt result = do
  resolved ← resolve_attempt_failure env attempt result.error_code result.error_message_safe
  pure (some resolved)
resolve_in ProviderTransactionStatus.pending env attempt result = pure none
resolve_in ProviderTransactionStatus.unknown env attempt result = pure none

unfoldable pub apply_query : Env → PaymentAttempt → QueryReply → Action (Option PaymentAttempt)
unfolding resolve_in
apply_query env attempt QueryReply.unavailable = pure none
apply_query env attempt (QueryReply.answered result) = do
  ensure_transaction attempt ProviderTransactionStatus.pending
  modify (update_transaction attempt.id (queried env result))
  resolve_in result.normalized_status env attempt result

-- `_query_and_resolve`
unfoldable pub query_and_resolve :
    Env → Gateway → PaymentAttempt → PaymentConnection → ℕ → String → Action (Option PaymentAttempt)
unfolding apply_query
query_and_resolve env g attempt connection chama_id shaped =
    if_none attempt.provider_request_id (pure none) λ id.
      if truthy (some id)
      then apply_query env attempt (
          g.query_payment_status shaped id attempt.client_reference
            (context_of connection chama_id))
      else pure none
