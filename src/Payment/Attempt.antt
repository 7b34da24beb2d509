-- ===== src/Payment/Attempt.antt =====
-- Payment attempts of app/services/payment_intent.py: the reference that an attempt is known by, the
-- request to the provider, and what its answer leaves.
use chamacore.Prelude.{
  ℕ, zero, suc, Bool, true, false, ◌&&◌, not, String, Option, none, some, List, [], ◌∷◌, ◌==◌,
  str_eq, truthy, if◌then◌else◌,
}
use chamacore.Prelude.Table.{find?, any}
use chamacore.Data.{
  Db, Env, User, PaymentConnection, PaymentIntent, PaymentIntentStatus, PaymentAttempt,
  PaymentAttemptStatus, PaymentTransferSource, ProviderTransaction, ProviderTransactionStatus,
  ClientReference, same_intent_status,
}
use chamacore.Session.{
  Action, Result, ok, integrity_error, not_found, raise_if, gets, query, pure, modify, commit,
  or_raise, after, ◌>>=◌, ◌>>◌,
}
use chamacore.Payment.Gateway.{
  Gateway, ConnectionContext, PaymentAttemptRequest, PaymentAttemptResult, ChargeReply,
  callback_url, reference_prefix,
}
use chamacore.Payment.Store.{add_attempt, add_provider_transaction, attempt_refused, uses_reference}
use chamacore.Payment.Transition.{transition_intent}

-- `PERMANENT_FAILURE_CODES`
abbrev pub permanent_failure_codes : List String
permanent_failure_codes =
    "AUTH_FAILED" ∷ "AUTH_MALFORMED" ∷ "CREDENTIALS_INCOMPLETE" ∷ "CREDENTIALS_UNEXPECTED"
    ∷ "SIGNING_KEY_INVALID" ∷ "PHONE_FORMAT" ∷ "AMOUNT_INVALID" ∷ "AMOUNT_NOT_INTEGER"
    ∷ "QUERY_REFERENCE_MISSING" ∷ []

-- `code not in PERMANENT_FAILURE_CODES`; `None` is not.
unfoldable pub is_retryable : Option String → Bool
is_retryable none = true
is_retryable (some code) = not (any (str_eq code) permanent_failure_codes)

abbrev pub max_attempt_numbers : Env → ℕ
max_attempt_numbers env = suc env.payment_attempt_max_retries

-- `PAY-{prefix}-{number}`, with the counter from 1 on.
abbrev pub candidate : ℕ → ℕ → ℕ → ClientReference
candidate prefix number counter = record { prefix = prefix; number = number; counter = counter }

-- The loop of `_unique_client_reference`: the counter goes up while the candidate is taken. No fuel
-- left is `none`.
unfoldable pub search_reference : ℕ → List PaymentAttempt → ℕ → ℕ → ℕ → ℕ → Option ClientReference
search_reference zero rows connection_id prefix number counter = none
search_reference (suc fuel) rows connection_id prefix number counter =
    let next = search_reference fuel rows connection_id prefix number (suc counter) in
    if any (uses_reference connection_id (candidate prefix number counter)) rows
    then next
    else some (candidate prefix number counter)

abbrev pub rows_and_one : List PaymentAttempt → ℕ
rows_and_one [] = 1
rows_and_one (x ∷ xs) = suc (rows_and_one xs)

-- One more turn than there are attempts.
unfoldable pub unique_client_reference : ℕ → ℕ → ℕ → Db → Option ClientReference
unfolding search_reference
unique_client_reference connection_id intent_id attempt_number db =
    search_reference (rows_and_one db.attempts) db.attempts connection_id
      (reference_prefix intent_id) attempt_number 0

-- `intent.requested_phone or intent.membership.member.phone_number`; the foreign keys have the
-- membership and the member exist.
unfoldable pub customer_phone : PaymentIntent → Db → Result String
customer_phone intent db =
    if truthy intent.requested_phone
    then or_raise intent.requested_phone (not_found "Membership not found")
    else after
        (or_raise (find? (λ m. m.id == intent.membership_id) db.memberships)
          (not_found "Membership not found"))
        λ membership.
          after
            (or_raise (find? (λ x. x.id == membership.member_id) db.members)
              (not_found "Member not found"))
            λ member. ok member.phone_number

-- The attempt before the provider is asked.
abbrev pub new_attempt : Env → PaymentIntent → ℕ → ℕ → ClientReference → PaymentAttempt
new_attempt env intent connection_id attempt_number client_reference = record {
  id = env.row_id;
  payment_intent_id = intent.id;
  connection_id = connection_id;
  attempt_number = attempt_number;
  provider_request_id = none;
  provider_transaction_id = none;
  client_reference = client_reference;
  retryable = false;
  status = PaymentAttemptStatus.initiated;
  failure_code = none;
  failure_message_safe = none;
  completed_at = none;
  last_transition_source = PaymentTransferSource.client;
}

abbrev pub transaction_for :
    PaymentAttempt → ProviderTransactionStatus → Option String → ProviderTransaction
transaction_for attempt status raw_status = record {
  payment_attempt_id = attempt.id;
  connection_id = attempt.connection_id;
  provider_request_id = none;
  provider_transaction_id = none;
  normalized_status = status;
  raw_status = raw_status;
  last_queried_at = none;
}

abbrev failed_attempt : Env → PaymentAttempt → Bool → Option String → Option String → PaymentAttempt
failed_attempt env attempt retryable code message = record attempt {
  status = PaymentAttemptStatus.failed;
  retryable = retryable;
  failure_code = code;
  failure_message_safe = message;
  completed_at = some env.now_utc;
}

abbrev answered_transaction : PaymentAttempt → PaymentAttemptResult → ProviderTransaction
answered_transaction attempt result =
    record (transaction_for attempt result.normalized_status none) {
      provider_request_id = result.provider_request_id;
      provider_transaction_id = result.provider_transaction_id;
    }

-- The attempt and its transaction after the provider's reply.
unfoldable pub replied : Env → PaymentAttempt → ChargeReply → PaymentAttempt × ProviderTransaction
unfolding is_retryable
replied env attempt (ChargeReply.timed_out code message) = (
  record attempt {
    status = PaymentAttemptStatus.timeout;
    retryable = true;
    failure_code = some code;
    failure_message_safe = some message;
  },
  transaction_for attempt ProviderTransactionStatus.unknown (some code),
)
replied env attempt (ChargeReply.failed code message) = (
  failed_attempt env attempt (is_retryable (some code)) (some code) (some message),
  transaction_for attempt ProviderTransactionStatus.failed (some code),
)
replied env attempt (ChargeReply.answered result) =
    if result.accepted
    then (
      record attempt {
        provider_request_id = result.provider_request_id;
        provider_transaction_id = result.provider_transaction_id;
      },
      answered_transaction attempt result,
    )
    else (
      failed_attempt env attempt result.retryable result.error_code result.error_message_safe,
      transaction_for attempt result.normalized_status result.error_code,
    )

-- What the reply means for the intent: an accepted request starts a PENDING one, and a rejection for
-- good fails a PROCESSING one.
unfoldable pub intent_after : PaymentIntent → PaymentAttempt → Option PaymentIntentStatus
intent_after intent attempt = elim attempt.status [
  | PaymentAttemptStatus.initiated ↦
      if same_intent_status intent.status PaymentIntentStatus.pending
      then some PaymentIntentStatus.processing
      else none
  | PaymentAttemptStatus.failed ↦
      if not attempt.retryable && same_intent_status intent.status PaymentIntentStatus.processing
      then some PaymentIntentStatus.failed
      else none
  | _ ↦ none
]

unfoldable pub move_intent :
    PaymentIntent
    → Option PaymentIntentStatus
    → PaymentTransferSource
    → Option ℕ
    → Action (Unit {0})
move_intent intent none source user_id = pure tt
move_intent intent (some to) source user_id = do transition_intent intent to source user_id; pure tt

-- `db.add_all` and the flush of the commit, where the database may refuse the rows.
unfoldable pub insert_attempt : PaymentAttempt → ProviderTransaction → Action (Unit {0})
insert_attempt attempt transaction = do
  modify (add_attempt attempt)
  modify (add_provider_transaction transaction)
  refused ← gets (attempt_refused attempt transaction)
  raise_if refused integrity_error

-- The context of a connection.
abbrev pub context_of : PaymentConnection → ℕ → ConnectionContext
context_of connection chama_id = record {
  connection_id = connection.id;
  chama_id = chama_id;
  provider_code = connection.provider_code;
  environment = connection.environment;
  status = connection.status;
  credential_version = connection.credential_version;
}

unfoldable pub charge_request :
    Gateway → PaymentConnection → PaymentIntent → String → ClientReference → PaymentAttemptRequest
unfolding callback_url
charge_request g connection intent phone client_reference = record {
  amount = intent.amount;
  currency = intent.currency;
  customer_phone = phone;
  client_reference = client_reference;
  charge_reference = reference_prefix intent.id;
  callback_url = callback_url g connection;
}

-- What is done with the reply. The metric is left out.
unfoldable pub save_attempt :
    User → PaymentIntent → PaymentAttempt × ProviderTransaction → Action PaymentAttempt
unfolding insert_attempt move_intent intent_after
save_attempt actor intent (attempt, transaction) = do
  insert_attempt attempt transaction
  move_intent intent (intent_after intent attempt) PaymentTransferSource.client (some actor.id)
  commit
  pure attempt

-- `_create_attempt`. No reference is no case: there is always one.
unfoldable pub create_attempt :
    Env → Gateway → User → PaymentIntent → PaymentConnection → String → ℕ → Action PaymentAttempt
unfolding save_attempt unique_client_reference customer_phone charge_request replied
create_attempt env g actor intent connection shaped attempt_number = do
  client_reference ← query (λ db.
      or_raise (unique_client_reference connection.id intent.id attempt_number db)
        (not_found "No reference"))
  phone ← query (customer_phone intent)
  let attempt = new_attempt env intent connection.id attempt_number client_reference
  let reply =
      g.create_payment_attempt shaped (charge_request g connection intent phone client_reference)
        (context_of connection intent.chama_id)
  save_attempt actor intent (replied env attempt reply)
