-- ===== src/Payment/Webhook/Inbox.antt =====
-- The inbox of callbacks: `_store_event` and `_resolve_duplicate` of app/services/payment_webhook.py.
use chamacore.Prelude.{ℕ, not, String, Option, none, some, str_eq, truthy, if◌then◌else◌}
use chamacore.Data.{Db, Env, PaymentConnection, PaymentEvent, PaymentEventStatus, same_event_status}
use chamacore.Session.{
  if_none, Action, integrity_error, raise, gets, pure, modify, commit, rollback, ◌>>=◌, ◌>>◌,
}
use chamacore.Payment.Gateway.{is_parseable}
use chamacore.Payment.Store.{
  get_by_connection_event, add_payment_event, update_event, event_refused, land_events,
}
use chamacore.Payment.Webhook.Connection.{Delivery}

abbrev pub marked : Env → PaymentEventStatus → PaymentEvent → PaymentEvent
marked env status e = record e { status = status; processed_at = some env.now_utc }

-- A change of an event's status, and the commit after it.
unfoldable pub close_event : Env → PaymentEvent → PaymentEventStatus → Action PaymentEvent
close_event env event status = do
  modify (update_event event.id (marked env status))
  commit
  pure (marked env status event)

-- `_resolve_duplicate`
unfoldable pub resolve_duplicate : Env → PaymentEvent → String → Action PaymentEvent
unfolding close_event
resolve_duplicate env existing digest =
    if not (str_eq existing.payload_hash digest)
    then close_event env existing PaymentEventStatus.disagreement
    else if same_event_status existing.status PaymentEventStatus.received
    then pure existing
    else close_event env existing PaymentEventStatus.deduplicated

abbrev pub new_event : Env → PaymentConnection → Delivery → PaymentEvent
new_event env connection d = record {
  id = env.row_id;
  connection_id = connection.id;
  provider_code = connection.provider_code;
  environment = connection.environment;
  provider_event_id = d.parsed.provider_event_id;
  payload_hash = d.digest;
  status = PaymentEventStatus.received;
  received_at = env.now_utc;
  processed_at = none;
}

-- `if parsed.provider_event_id:` the event that is stored for it.
unfoldable pub stored_in : ℕ → Option String → Db → Option PaymentEvent
stored_in connection_id none db = none
stored_in connection_id (some id) db =
    if truthy (some id) then get_by_connection_event connection_id id db else none

abbrev pub stored_event : PaymentConnection → Delivery → Db → Option PaymentEvent
stored_event connection d db = stored_in connection.id d.parsed.provider_event_id db

unfoldable pub recover : Env → PaymentConnection → Delivery → Action PaymentEvent
recover env connection d = do
  rollback
  existing ← gets (stored_event connection d)
  if_none existing (raise integrity_error) λ event. resolve_duplicate env event d.digest

unfoldable pub keep_event : Env → Delivery → PaymentEvent → Action PaymentEvent
keep_event env d event = do
  modify (add_payment_event event)
  commit
  if is_parseable d.parsed
      then pure event
      else close_event env event PaymentEventStatus.unprocessable

unfoldable pub insert_event : Env → PaymentConnection → Delivery → Action PaymentEvent
unfolding recover keep_event
insert_event env connection d = do
  land_events env.concurrent_events
  refused ← gets (event_refused (new_event env connection d))
  if refused then recover env connection d else keep_event env d (new_event env connection d)

-- `_store_event`
unfoldable pub store_event : Env → PaymentConnection → Delivery → Action PaymentEvent
unfolding insert_event
store_event env connection d = do
  existing ← gets (stored_event connection d)
  if_none existing (insert_event env connection d) λ event. resolve_duplicate env event d.digest
