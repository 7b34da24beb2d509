-- ===== src/Payment/Webhook/Recovery.antt =====
-- A callback that was stored, and whose processing a crash cut off, is finished by a redelivery.
use text.Mathlib.TextPositions.{eq_refl}
use chamacore.Prelude.{
  ℕ, ◌≡◌, refl, ap, ◌∙◌, true, false, Option, none, some, String, List, [], ◌∷◌, truthy, ==_refl,
  if◌then◌else◌,
}
use chamacore.Data.{
  Db, Env, PaymentConnection, PaymentAttempt, ProviderTransaction, PaymentEvent, same_event_status,
}
use chamacore.Session.{fresh, ok, modify, commit, if_none, ◌>>=◌}
use chamacore.Payment.Gateway.{Gateway, ParsedCallback, is_parseable}
use chamacore.Payment.Store.{
  add_payment_event, event_refused, get_by_connection_event, land_events, get_connection,
  attempt_by_provider_request_id, get_by_provider_transaction_id, get_attempt_row,
}
use chamacore.Payment.Webhook.{handle_callback, accept, apply_event}
use chamacore.Payment.Webhook.Connection.{
  Delivery, resolve_connection, named_connection, attempt_connection, find_attempt, by_request,
  attempt_behind, by_transaction, resolve_by,
}
use chamacore.Payment.Webhook.Inbox.{
  new_event, resolve_duplicate, stored_in, stored_event, store_event, insert_event, keep_event,
}

-- The event that has just been stored is found.
stored_in-head :
    (connection_id : ℕ) (o : Option String) (e : PaymentEvent) (db : Db)
    → truthy o ≡ true
    → stored_in connection_id o
        (add_payment_event (record e { connection_id = connection_id; provider_event_id = o }) db)
      ≡ some (record e { connection_id = connection_id; provider_event_id = o })
unfolding stored_in add_payment_event get_by_connection_event
stored_in-head connection_id none e db h = cc
stored_in-head connection_id (some id) e db h = rw (h, ==_refl connection_id, eq_refl id) refl

-- Whose connection a callback is does not depend on the events.
module _ (e : PaymentEvent) (db : Db) where
  by_request-events : (o : Option String) → by_request o (add_payment_event e db) ≡ by_request o db
  unfolding add_payment_event attempt_by_provider_request_id
  by_request-events none = refl
  by_request-events (some id) = refl

  behind-events :
      (t : Option ProviderTransaction)
      → attempt_behind t (add_payment_event e db) ≡ attempt_behind t db
  unfolding add_payment_event get_attempt_row
  behind-events none = refl
  behind-events (some t) = refl

  by_transaction-events :
      (o : Option String) → by_transaction o (add_payment_event e db) ≡ by_transaction o db
  unfolding get_by_provider_transaction_id add_payment_event
  by_transaction-events none = refl
  by_transaction-events (some id) =
      ap (λ (a : Option PaymentAttempt). if truthy (some id) then a else none)
        (behind-events (get_by_provider_transaction_id id db))

  find_attempt-events :
      (parsed : ParsedCallback)
      → find_attempt parsed (add_payment_event e db) ≡ find_attempt parsed db
  unfolding find_attempt
  find_attempt-events parsed =
      rw
        (
          by_request-events parsed.provider_request_id,
          by_transaction-events parsed.provider_transaction_id,
        )
        refl

  attempt_connection-events :
      (d : Delivery) → attempt_connection d (add_payment_event e db) ≡ attempt_connection d db
  unfolding attempt_connection get_connection add_payment_event
  attempt_connection-events d = rw (find_attempt-events d.parsed) refl

  named_connection-events :
      (g : Gateway) (d : Delivery) (token : String)
      → named_connection g d token (add_payment_event e db) ≡ named_connection g d token db
  unfolding named_connection get_connection add_payment_event
  named_connection-events g d token = refl

  resolve_by-events :
      (g : Gateway) (d : Delivery) (o : Option String)
      → resolve_by o g d (add_payment_event e db) ≡ resolve_by o g d db
  unfolding resolve_by
  resolve_by-events g d none = attempt_connection-events d
  resolve_by-events g d (some token) =
      rw (named_connection-events g d token, attempt_connection-events d) refl

  accept-events : (g : Gateway) (d : Delivery) → accept g d (add_payment_event e db) ≡ accept g d db
  unfolding accept resolve_connection
  accept-events g d = rw (resolve_by-events g d d.token) refl

-- Where a callback can be used and is new, with an id and with no other session storing it meanwhile, its
-- delivery stores it, commits, and goes on to apply it; from the durable state of a crash right after
-- that commit, the same callback delivered again goes on to apply the stored event in the same way.
pub handle_callback_resumes :
    (env env' : Env) (g : Gateway) (d : Delivery) (c : PaymentConnection) (db : Db)
    (earlier : List Db)
    → env.concurrent_events ≡ []
    → accept g d db ≡ ok c
    → truthy d.parsed.provider_event_id ≡ true
    → stored_event c d db ≡ none
    → event_refused (new_event env c d) db ≡ false
    → is_parseable d.parsed ≡ true
    → (handle_callback env g d (fresh db earlier)
        ≡ apply_event env c d.parsed
            (new_event env c d)
            (fresh (add_payment_event (new_event env c d) db) (db ∷ earlier)))
      × (handle_callback env' g d (fresh (add_payment_event (new_event env c d) db) (db ∷ earlier))
          ≡ apply_event env' c d.parsed
              (new_event env c d)
              (fresh (add_payment_event (new_event env c d) db) (db ∷ earlier)))
unfolding handle_callback store_event insert_event keep_event resolve_duplicate ◌>>=◌ if_none modify
    commit land_events same_event_status
handle_callback_resumes env env' g d c db earlier alone accepted has_id new accepted_row parseable =
    let event = new_event env c d in
    let there : stored_event c d (add_payment_event event db) ≡ some event =
      stored_in-head c.id d.parsed.provider_event_id event db has_id in
    let again : accept g d (add_payment_event event db) ≡ ok c =
      accept-events event db g d ∙ accepted in
    (
      rw (accepted, new, alone, accepted_row, parseable) refl,
      rw (again, there, eq_refl d.digest) refl,
    )
