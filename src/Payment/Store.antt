-- ===== src/Payment/Store.antt =====
-- app/repositories/payment.py and the row updates of the payment services, with the unique indexes of
-- app/models/payment_*.py and provider_transaction.py.
use chamacore.Prelude.{
  ℕ, Bool, false, ◌&&◌, ◌||◌, not, String, Option, none, some, List, [], ◌∷◌, ◌++◌, ltb, ◌==◌,
  str_eq, if◌then◌else◌,
}
use chamacore.Prelude.Table.{find?, any, select, update, page}
use chamacore.Data.{
  Db, PaymentConnection, PaymentIntent, PaymentAttempt, ProviderTransaction, PaymentEvent,
  ClientReference,
}
use chamacore.Session.{Action, ok}

abbrev pub is_connection : ℕ → PaymentConnection → Bool
is_connection connection_id c = c.id == connection_id

abbrev pub is_intent : ℕ → PaymentIntent → Bool
is_intent intent_id x = x.id == intent_id

abbrev pub is_attempt : ℕ → PaymentAttempt → Bool
is_attempt attempt_id a = a.id == attempt_id

abbrev pub is_event : ℕ → PaymentEvent → Bool
is_event event_id e = e.id == event_id

-- PaymentConnectionRepository
unfoldable pub get_connection : ℕ → Db → Option PaymentConnection
get_connection connection_id db = find? (is_connection connection_id) db.connections

unfoldable pub get_connection_in_chama : ℕ → ℕ → Db → Option PaymentConnection
get_connection_in_chama chama_id connection_id db =
    find? (λ c. c.id == connection_id && c.chama_id == chama_id) db.connections

-- PaymentIntentRepository
abbrev pub intent_in : ℕ → ℕ → PaymentIntent → Bool
intent_in chama_id intent_id x = x.id == intent_id && x.chama_id == chama_id

unfoldable pub get_intent_in_chama : ℕ → ℕ → Db → Option PaymentIntent
get_intent_in_chama chama_id intent_id db = find? (intent_in chama_id intent_id) db.intents

abbrev pub has_key : ℕ → String → PaymentIntent → Bool
has_key chama_id key x = x.chama_id == chama_id && str_eq x.idempotency_key key

unfoldable pub get_by_idempotency_key : ℕ → String → Db → Option PaymentIntent
get_by_idempotency_key chama_id key db = find? (has_key chama_id key) db.intents

abbrev pub listed : ℕ → Option ℕ → PaymentIntent → Bool
listed chama_id none x = x.chama_id == chama_id
listed chama_id (some membership_id) x = x.chama_id == chama_id && x.membership_id == membership_id

-- An intent is inserted when it is created, so the newest come first.
unfoldable pub list_intents_by_chama : ℕ → Option ℕ → ℕ → Option ℕ → Db → List PaymentIntent
list_intents_by_chama chama_id limit offset membership_id db =
    page limit offset (select (listed chama_id membership_id) db.intents)

-- `payment_intent`, an attribute of an attempt; the foreign key has it exist.
unfoldable pub get_intent_row : ℕ → Db → Option PaymentIntent
get_intent_row intent_id db = find? (is_intent intent_id) db.intents

unfoldable pub update_intent : ℕ → (PaymentIntent → PaymentIntent) → Db → Db
update_intent intent_id f db = record db { intents = update (is_intent intent_id) f db.intents }

unfoldable pub add_intent : PaymentIntent → Db → Db
add_intent x db = record db { intents = x ∷ db.intents }

-- `uq_payment_intents_chama_key` and `ck_payment_intents_amount_positive`
unfoldable pub intent_refused : PaymentIntent → Db → Bool
intent_refused x db = x.amount == 0 || any (has_key x.chama_id x.idempotency_key) db.intents

-- PaymentAttemptRepository
unfoldable pub get_attempt_row : ℕ → Db → Option PaymentAttempt
get_attempt_row attempt_id db = find? (is_attempt attempt_id) db.attempts

-- The join with the intents of a Chama.
attempt_in : ℕ → ℕ → Db → PaymentAttempt → Bool
attempt_in chama_id attempt_id db a =
    a.id == attempt_id && any (intent_in chama_id a.payment_intent_id) db.intents

unfoldable pub get_attempt_in_chama : ℕ → ℕ → Db → Option PaymentAttempt
unfolding attempt_in
get_attempt_in_chama chama_id attempt_id db = find? (attempt_in chama_id attempt_id db) db.attempts

abbrev pub holds : Option String → String → Bool
holds none id = false
holds (some t) id = str_eq t id

unfoldable pub attempt_by_provider_request_id : String → Db → Option PaymentAttempt
attempt_by_provider_request_id id db = find? (λ a. holds a.provider_request_id id) db.attempts

abbrev pub attempt_of : ℕ → PaymentAttempt → Bool
attempt_of intent_id a = a.payment_intent_id == intent_id

unfoldable pub insert_by_number : PaymentAttempt → List PaymentAttempt → List PaymentAttempt
insert_by_number a [] = a ∷ []
insert_by_number a (x ∷ xs) =
    let rest = insert_by_number a xs in
    if ltb x.attempt_number a.attempt_number then x ∷ rest else a ∷ x ∷ xs

unfoldable pub by_number : List PaymentAttempt → List PaymentAttempt
unfolding insert_by_number
by_number [] = []
by_number (x ∷ xs) = insert_by_number x (by_number xs)

unfoldable pub list_for_intent : ℕ → Db → List PaymentAttempt
list_for_intent intent_id db = by_number (select (attempt_of intent_id) db.attempts)

-- `attempts[-1]`
unfoldable pub last : List PaymentAttempt → Option PaymentAttempt
last [] = none
last (x ∷ []) = some x
last (x ∷ y ∷ ys) = last (y ∷ ys)

unfoldable pub update_attempt : ℕ → (PaymentAttempt → PaymentAttempt) → Db → Db
update_attempt attempt_id f db = record db {
  attempts = update (is_attempt attempt_id) f db.attempts;
}

unfoldable pub add_attempt : PaymentAttempt → Db → Db
add_attempt a db = record db { attempts = a ∷ db.attempts }

abbrev pub same_reference : ClientReference → ClientReference → Bool
same_reference a b = a.prefix == b.prefix && a.number == b.number && a.counter == b.counter

abbrev pub uses_reference : ℕ → ClientReference → PaymentAttempt → Bool
uses_reference connection_id reference a =
    a.connection_id == connection_id && same_reference a.client_reference reference

-- ProviderTransactionRepository
abbrev pub transaction_of : ℕ → ProviderTransaction → Bool
transaction_of attempt_id t = t.payment_attempt_id == attempt_id

unfoldable pub get_by_attempt : ℕ → Db → Option ProviderTransaction
get_by_attempt attempt_id db = find? (transaction_of attempt_id) db.provider_transactions

unfoldable pub get_by_provider_transaction_id : String → Db → Option ProviderTransaction
get_by_provider_transaction_id id db =
    find? (λ t. holds t.provider_transaction_id id) db.provider_transactions

unfoldable pub update_transaction : ℕ → (ProviderTransaction → ProviderTransaction) → Db → Db
update_transaction attempt_id f db = record db {
  provider_transactions = update (transaction_of attempt_id) f db.provider_transactions;
}

unfoldable pub add_provider_transaction : ProviderTransaction → Db → Db
add_provider_transaction t db = record db { provider_transactions = t ∷ db.provider_transactions }

-- Two rows with an id in common; the indexes leave `NULL` out.
abbrev both_hold : Option String → Option String → Bool
both_hold none other = false
both_hold (some t) other = holds other t

abbrev clashes : ProviderTransaction → ProviderTransaction → Bool
clashes t u =
    both_hold t.provider_request_id u.provider_request_id
    || both_hold t.provider_transaction_id u.provider_transaction_id

-- `uq_provider_transactions_request_id` and `uq_provider_transactions_txn_id`, for an attempt's
-- transaction against those of the others.
unfoldable pub transaction_clashes : ProviderTransaction → Db → Bool
transaction_clashes t db =
    any (λ u. not (transaction_of t.payment_attempt_id u) && clashes t u) db.provider_transactions

unfoldable pub duplicate_ids : ℕ → Db → Bool
unfolding get_by_attempt transaction_clashes
duplicate_ids attempt_id db = elim (get_by_attempt attempt_id db) [
  | none ↦ false
  | some t ↦ transaction_clashes t db
]

-- The unique constraints of an attempt and its transaction: the attempt's number in its intent, its
-- reference in its connection, and the provider's ids.
unfoldable pub attempt_refused : PaymentAttempt → ProviderTransaction → Db → Bool
unfolding transaction_clashes
attempt_refused a t db =
    any (λ b. attempt_of a.payment_intent_id b && b.attempt_number == a.attempt_number) db.attempts
    || any (uses_reference a.connection_id a.client_reference) db.attempts
    || transaction_clashes t db

-- PaymentEventRepository
abbrev pub event_of : ℕ → String → PaymentEvent → Bool
event_of connection_id provider_event_id e =
    e.connection_id == connection_id && holds e.provider_event_id provider_event_id

unfoldable pub get_by_connection_event : ℕ → String → Db → Option PaymentEvent
get_by_connection_event connection_id provider_event_id db =
    find? (event_of connection_id provider_event_id) db.events

unfoldable pub update_event : ℕ → (PaymentEvent → PaymentEvent) → Db → Db
update_event event_id f db = record db { events = update (is_event event_id) f db.events }

unfoldable pub add_payment_event : PaymentEvent → Db → Db
add_payment_event e db = record db { events = e ∷ db.events }

-- `uq_payment_events_connection_event`
unfoldable pub event_refused : PaymentEvent → Db → Bool
event_refused e db = elim e.provider_event_id [
  | none ↦ false
  | some id ↦ any (event_of e.connection_id id) db.events
]

-- Rows that other sessions commit now.
abbrev pub with_intents : List PaymentIntent → Db → Db
with_intents rows db = record db { intents = rows ++ db.intents }

unfoldable pub land_intents : List PaymentIntent → Action (Unit {0})
land_intents rows s = (
  ok tt,
  record s {
    work = with_intents rows s.work;
    flushed = with_intents rows s.flushed;
    saved = with_intents rows s.saved;
  },
)

abbrev pub with_events : List PaymentEvent → Db → Db
with_events rows db = record db { events = rows ++ db.events }

unfoldable pub land_events : List PaymentEvent → Action (Unit {0})
land_events rows s = (
  ok tt,
  record s {
    work = with_events rows s.work;
    flushed = with_events rows s.flushed;
    saved = with_events rows s.saved;
  },
)
