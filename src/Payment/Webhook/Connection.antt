-- ===== src/Payment/Webhook/Connection.antt =====
-- Which connection a callback belongs to: `_resolve_connection` and `_find_attempt` of
-- app/services/payment_webhook.py.
use chamacore.Prelude.{
  ℕ, Bool, ◌||◌, not, String, Option, none, some, str_eq, truthy, if◌then◌else◌,
}
use chamacore.Data.{
  Db, PaymentProviderCode, PaymentEnvironment, PaymentConnection, PaymentAttempt,
  ProviderTransaction, same_provider, same_environment,
}
use chamacore.Session.{Result, ok, webhook_rejected, not_found, check, or_raise, after}
use chamacore.Payment.Gateway.{Gateway, ParsedCallback}
use chamacore.Payment.Store.{
  get_connection, get_attempt_row, attempt_by_provider_request_id, get_by_provider_transaction_id,
}

-- The query parameter `connection_id`: absent or empty, no uuid, or a uuid.
pub data ConnectionParam : Type 0 where
  missing malformed : ConnectionParam
  named : ℕ → ConnectionParam

-- A raw callback as the adapter and the hash function read it. `oversized` compares its size with the
-- setting, `verified` is the answer of `verify_callback`, which for Daraja is always yes.
pub record Delivery : Type 0 where
  pub provider_code : PaymentProviderCode
  pub environment : PaymentEnvironment
  pub oversized : Bool
  pub digest : String
  pub parsed : ParsedCallback
  pub verified : Bool
  pub token : Option String
  pub connection_id : ConnectionParam

abbrev pub by_request : Option String → Db → Option PaymentAttempt
by_request none db = none
by_request (some id) db = if truthy (some id) then attempt_by_provider_request_id id db else none

-- `transaction.payment_attempt`
abbrev pub attempt_behind : Option ProviderTransaction → Db → Option PaymentAttempt
attempt_behind none db = none
attempt_behind (some t) db = get_attempt_row t.payment_attempt_id db

abbrev pub by_transaction : Option String → Db → Option PaymentAttempt
by_transaction none db = none
by_transaction (some id) db =
    if truthy (some id) then attempt_behind (get_by_provider_transaction_id id db) db else none

abbrev pub or_else : Option PaymentAttempt → Option PaymentAttempt → Option PaymentAttempt
or_else (some attempt) other = some attempt
or_else none other = other

-- `_find_attempt`
unfoldable pub find_attempt : ParsedCallback → Db → Option PaymentAttempt
find_attempt parsed db =
    or_else (by_request parsed.provider_request_id db)
      (by_transaction parsed.provider_transaction_id db)

-- `_check_connection_match`
unfoldable pub check_connection_match : PaymentConnection → Delivery → Result PaymentConnection
check_connection_match connection d =
    after
      (check
        (not (same_provider connection.provider_code d.provider_code)
          || not (same_environment connection.environment d.environment))
        (webhook_rejected "Callback provider and environment do not match the connection"))
      λ _. ok connection

unfoldable pub named_connection : Gateway → Delivery → String → Db → Result PaymentConnection
unfolding check_connection_match
named_connection g d token db = elim d.connection_id [
  | ConnectionParam.missing ↦
      Result.err (webhook_rejected "Callback token supplied without a connection id")
  | ConnectionParam.malformed ↦ Result.err (webhook_rejected "Callback connection id is invalid")
  | ConnectionParam.named id ↦
      after
        (or_raise (get_connection id db) (webhook_rejected "Callback connection does not exist"))
        λ connection.
          after
            (check
              (not (
                str_eq token
                  (g.token connection.id connection.provider_code connection.environment)))
              (webhook_rejected "Callback token is invalid"))
            λ _. check_connection_match connection d
]

unfoldable pub attempt_connection : Delivery → Db → Result PaymentConnection
unfolding check_connection_match find_attempt
attempt_connection d db =
    after
      (or_raise (find_attempt d.parsed db)
        (webhook_rejected "Callback does not reference a known payment attempt"))
      λ attempt.
        after
          (or_raise (get_connection attempt.connection_id db)
            (not_found "Payment connection not found"))
          λ connection. check_connection_match connection d

unfoldable pub resolve_by : Option String → Gateway → Delivery → Db → Result PaymentConnection
unfolding named_connection attempt_connection
resolve_by none g d db = attempt_connection d db
resolve_by (some token) g d db =
    if truthy (some token) then named_connection g d token db else attempt_connection d db

-- `_resolve_connection`: by the callback token, or by the attempt.
unfoldable pub resolve_connection : Gateway → Delivery → Db → Result PaymentConnection
unfolding resolve_by
resolve_connection g d db = resolve_by d.token g d db
