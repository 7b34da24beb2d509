-- ===== src/Payment/Webhook.antt =====
-- app/services/payment_webhook.py: a provider's callback is stored once, and moves its attempt and
-- intent (ADR-018). Metrics are left out. `Connection` binds a callback to its connection, `Inbox`
-- stores it, `Apply` moves the states.
pub mod Connection
pub mod Inbox
pub mod Apply
pub mod Books
pub mod Redelivery
pub mod Recovery
use chamacore.Prelude.{
  ℕ, suc, Bool, true, false, ◌||◌, not, String, Option, none, some, List, [], leb, ltb, ◌==◌,
  str_eq, truthy, if◌then◌else◌,
}
use chamacore.Data.{
  Db, Env, PaymentProviderCode, PaymentEnvironment, PaymentConnection, PaymentIntent,
  PaymentIntentStatus, PaymentAttempt, PaymentAttemptStatus, PaymentEvent, PaymentEventStatus,
  PaymentTransferSource, ProviderTransaction, ProviderTransactionStatus, same_provider,
  same_environment, same_intent_status, same_event_status,
}
use chamacore.Session.{
  if_none, Action, Result, ok, webhook_rejected, not_found, provider_error, integrity_error, raise,
  raise_if, check, gets, query, fetch, lift, pure, modify, commit, rollback, or_raise, after, ◌>>=◌,
  ◌>>◌,
}
use chamacore.Payment.Gateway.{Gateway, ParsedCallback, is_parseable, supports}
use chamacore.Payment.Store.{
  get_connection, get_attempt_row, attempt_by_provider_request_id, get_by_provider_transaction_id,
  get_by_connection_event, add_payment_event, update_event, event_refused, land_events,
  update_attempt, update_transaction, update_intent,
}
use chamacore.Payment.Transition.{moved_to}
use chamacore.Payment.Attempt.{max_attempt_numbers}
use chamacore.Payment.Resolve.{
  or_keep, ensure_transaction, intent_of, refuse_duplicate, succeeded_attempt,
}
use chamacore.Payment.Settlement.{settle_linked_contribution}
use Connection.{
  Delivery, ConnectionParam, find_attempt, resolve_connection, named_connection, attempt_connection,
  check_connection_match,
}
use Inbox.{marked, close_event, resolve_duplicate, new_event, stored_event, store_event}
use Apply.{apply_callback}

-- Steps 6 and 7 of the pipeline, for an event that goes on.
unfoldable pub apply_event :
    Env → PaymentConnection → ParsedCallback → PaymentEvent → Action PaymentEvent
apply_event env connection parsed event = do
  found ← gets (find_attempt parsed)
  if_none found (close_event env event PaymentEventStatus.unprocessable) λ attempt.
      if attempt.connection_id == connection.id
      then apply_callback env attempt parsed event
      else close_event env event PaymentEventStatus.unprocessable

abbrev pub is_closed : PaymentEventStatus → Bool
is_closed PaymentEventStatus.deduplicated = true
is_closed PaymentEventStatus.disagreement = true
is_closed PaymentEventStatus.unprocessable = true
is_closed _ = false

unfoldable pub accept : Gateway → Delivery → Db → Result PaymentConnection
unfolding resolve_connection
accept g d db =
    after (check d.oversized (webhook_rejected "Callback body exceeds the size limit")) λ _.
      after
        (check (not (supports d.provider_code d.environment))
          (provider_error "No provider adapter is registered"))
        λ _. after (resolve_connection g d db) λ connection.
          after (check (not d.verified) (webhook_rejected "Callback verification failed"))
            λ _. ok connection

unfoldable pub handle_callback : Env → Gateway → Delivery → Action PaymentEvent
unfolding accept store_event apply_event
handle_callback env g d = do
  connection ← query (accept g d)
  event ← store_event env connection d
  if is_closed event.status then pure event else apply_event env connection d.parsed event
