-- ===== src/Payment/Final/Callback.antt =====
-- A callback moves nothing that is final.
use chamacore.Prelude.{
  ◌≡◌, ◌≢◌, refl, Bool, true, false, Option, none, some, String, List, leb, truthy, arith, inl, inr,
  ◌==◌, Bool-cases, if◌then◌else◌,
}
use chamacore.Prelude.Table.{All, find?, All-find?}
use chamacore.Data.{
  Db, Env, PaymentConnection, PaymentIntent, PaymentIntentStatus, PaymentAttempt,
  PaymentAttemptStatus, PaymentTransferSource, PaymentEvent, PaymentEventStatus,
  ProviderTransaction, same_intent_status,
}
use chamacore.Session.{gets, query, modify, if_none}
use chamacore.Session.Rules.{Keeps, Keeps-bind, Keeps-pure, Keeps-query, Keeps-option, Keeps-if}
use chamacore.Session.Everywhere.{Keeps-then, Ensures-gets}
use chamacore.Payment.Gateway.{Gateway, ParsedCallback}
use chamacore.Payment.Store.{
  attempt_by_provider_request_id, get_by_provider_transaction_id, get_attempt_row, update_attempt,
  update_transaction,
}
use chamacore.Payment.Attempt.{max_attempt_numbers}
use chamacore.Payment.Resolve.{ensure_transaction, intent_of}
use chamacore.Payment.Webhook.{apply_event, handle_callback, accept, is_closed}
use chamacore.Payment.Webhook.Connection.{
  Delivery, find_attempt, by_request, attempt_behind, by_transaction, or_else,
}
use chamacore.Payment.Webhook.Inbox.{
  close_event, resolve_duplicate, recover, keep_event, insert_event, store_event,
}
use chamacore.Payment.Webhook.Apply.{
  finish_intent, confirm_attempt, refuse_attempt, advance, apply_in, apply_callback, disagrees,
  verdict, confirmed_attempt, refused_attempt,
}
use chamacore.Payment.Final.Settle.{view_rules, Watching-settlement}
use chamacore.Payment.Final.Initiate.{OfSome, Watching-other, unresolved}
use chamacore.Payment.Final.Steps.{
  Watching-close, Watching-add_event, Watching-land_events, Watching-move_to, Watching-ensure,
  Watching-refuse, Watching-update_transaction, intent_of-Ensures,
}
use chamacore.Payment.Final.Watch.{
  Watched, IsKept, Watching, AgreesIntent, AgreesAttempt, is_final_intent, is_final_attempt,
}

processing-open :
    (status : PaymentIntentStatus)
    → same_intent_status status PaymentIntentStatus.processing ≡ true
    → is_final_intent status ≡ false
unfolding is_final_intent same_intent_status
processing-open status h = ground arith

module _ (w : Watched) (env : Env) where
  Watching-duplicate :
      (e : PaymentEvent) (digest : String) → Keeps (Watching w) (resolve_duplicate env e digest)
  unfolding resolve_duplicate
  Watching-duplicate e digest = search (view_rules, Watching-close) depth 20

  Watching-keep : (d : Delivery) (e : PaymentEvent) → Keeps (Watching w) (keep_event env d e)
  unfolding keep_event
  Watching-keep d e = search (view_rules, Watching-add_event, Watching-close) depth 20

  Watching-recover : (c : PaymentConnection) (d : Delivery) → Keeps (Watching w) (recover env c d)
  unfolding recover
  Watching-recover c d = search (view_rules, Watching-duplicate) depth 20

  Watching-store : (c : PaymentConnection) (d : Delivery) → Keeps (Watching w) (store_event env c d)
  unfolding store_event insert_event
  Watching-store c d =
      search (view_rules, Watching-duplicate, Watching-land_events, Watching-recover, Watching-keep)
        depth 30

  Watching-finish :
      (x : PaymentIntent) (status : PaymentIntentStatus)
      → AgreesIntent w x
      → Keeps (Watching w) (finish_intent x status)
  unfolding finish_intent
  Watching-finish x status agrees =
      elim (Bool-cases (same_intent_status x.status PaymentIntentStatus.processing)) [
        | inl is_open ↦ rw is_open (
            Watching-move_to x status PaymentTransferSource.provider_callback none agrees
              (processing-open x.status is_open))
        | inr not_open ↦ rw not_open (Keeps-pure tt)
      ]

  Watching-confirm :
      (a : PaymentAttempt) (x : PaymentIntent) (parsed : ParsedCallback)
      → AgreesIntent w x
      → a.id ≢ w.attempt
      → Keeps (Watching w) (confirm_attempt env a x parsed)
  unfolding confirm_attempt
  Watching-confirm a x parsed agrees apart =
      Keeps-bind (modify (update_attempt a.id _)) _
        (Watching-other w a (confirmed_attempt env parsed) (λ b. refl) apart)
        λ _.
          Keeps-bind (modify (update_transaction a.id _)) _ (Watching-update_transaction a.id _)
            λ _.
              Keeps-bind (finish_intent x _) _ (Watching-finish x _ agrees)
                λ _. search (view_rules, Watching-refuse, Watching-settlement) depth 20

  Watching-refuse_attempt :
      (a : PaymentAttempt) (x : PaymentIntent) (parsed : ParsedCallback)
      → AgreesIntent w x
      → a.id ≢ w.attempt
      → Keeps (Watching w) (refuse_attempt env a x parsed)
  unfolding refuse_attempt
  Watching-refuse_attempt a x parsed agrees apart =
      Keeps-bind (modify (update_attempt a.id _)) _
        (Watching-other w a (refused_attempt env parsed) (λ b. refl) apart)
        λ _.
          Keeps-bind (modify (update_transaction a.id _)) _ (Watching-update_transaction a.id _)
            λ _.
              Keeps-if (leb (max_attempt_numbers env) a.attempt_number) _ _
                (Watching-finish x _ agrees) (Keeps-pure tt)

  Watching-advance :
      (paid : Bool) (a : PaymentAttempt) (x : PaymentIntent) (parsed : ParsedCallback)
      (e : PaymentEvent)
      → AgreesIntent w x
      → a.id ≢ w.attempt
      → Keeps (Watching w) (advance paid env a x parsed e)
  unfolding advance
  Watching-advance paid a x parsed e agrees apart =
      Keeps-bind (ensure_transaction a _) _ (Watching-ensure a _) λ _.
        Keeps-bind (if paid then confirm_attempt env a x parsed else refuse_attempt env a x parsed)
          _
          (Keeps-if paid _ _ (Watching-confirm a x parsed agrees apart)
            (Watching-refuse_attempt a x parsed agrees apart))
          λ _. Watching-close env e _

  Watching-apply_in :
      (status : PaymentAttemptStatus) (paid : Bool) (a : PaymentAttempt) (x : PaymentIntent)
      (parsed : ParsedCallback) (e : PaymentEvent)
      → AgreesIntent w x
      → (is_final_attempt status ≡ false → a.id ≢ w.attempt)
      → Keeps (Watching w) (apply_in status paid env a x parsed e)
  unfolding apply_in is_final_attempt
  Watching-apply_in PaymentAttemptStatus.succeeded paid a x parsed e agrees apart =
      Watching-close env e _
  Watching-apply_in PaymentAttemptStatus.failed paid a x parsed e agrees apart =
      Watching-close env e _
  Watching-apply_in PaymentAttemptStatus.initiated paid a x parsed e agrees apart =
      Watching-advance paid a x parsed e agrees (apart refl)
  Watching-apply_in PaymentAttemptStatus.timeout paid a x parsed e agrees apart =
      Watching-advance paid a x parsed e agrees (apart refl)
  Watching-apply_in PaymentAttemptStatus.unknown paid a x parsed e agrees apart =
      Watching-advance paid a x parsed e agrees (apart refl)

  Watching-apply :
      (a : PaymentAttempt) (parsed : ParsedCallback) (e : PaymentEvent)
      → AgreesAttempt w a
      → Keeps (Watching w) (apply_callback env a parsed e)
  unfolding apply_callback
  Watching-apply a parsed e a_agrees =
      Keeps-then (AgreesIntent w) (intent_of a) _ (intent_of-Ensures a) λ x agrees.
        Keeps-if (disagrees parsed x) _ _ (Watching-close env e _) (
          Keeps-option (verdict parsed.normalized_status) _ _ (Watching-close env e _)
            λ paid. Watching-apply_in a.status paid a x parsed e agrees (unresolved w a a_agrees))

  Watching-found :
      (c : PaymentConnection) (parsed : ParsedCallback) (e : PaymentEvent)
      (o : Option PaymentAttempt)
      → OfSome (AgreesAttempt w) o
      → Keeps (Watching w) (
          if_none o (close_event env e PaymentEventStatus.unprocessable) λ a.
            if a.connection_id == c.id
            then apply_callback env a parsed e
            else close_event env e PaymentEventStatus.unprocessable)
  unfolding OfSome if_none
  Watching-found c parsed e none h = Watching-close env e _
  Watching-found c parsed e (some a) h =
      Keeps-if (a.connection_id == c.id) _ _ (Watching-apply a parsed e h) (Watching-close env e _)

  find-OfSome :
      (p : PaymentAttempt → Bool) (rows : List PaymentAttempt) (o : Option PaymentAttempt)
      → find? p rows ≡ o
      → All (AgreesAttempt w) rows
      → OfSome (AgreesAttempt w) o
  unfolding OfSome
  find-OfSome p rows none e a = tt
  find-OfSome p rows (some x) e a = All-find? (AgreesAttempt w) p rows x a e

  if-OfSome :
      (b : Bool) (o : Option PaymentAttempt)
      → OfSome (AgreesAttempt w) o
      → OfSome (AgreesAttempt w) (if b then o else none)
  unfolding OfSome
  if-OfSome true o h = h
  if-OfSome false o h = tt

  by_request-Agrees :
      (id : Option String) (db : Db) → IsKept w db → OfSome (AgreesAttempt w) (by_request id db)
  unfolding OfSome attempt_by_provider_request_id
  by_request-Agrees none db h = tt
  by_request-Agrees (some id) db h =
      if-OfSome (truthy (some id)) _ (find-OfSome _ db.attempts _ refl h.attempts)

  behind-Agrees :
      (t : Option ProviderTransaction) (db : Db)
      → IsKept w db
      → OfSome (AgreesAttempt w) (attempt_behind t db)
  unfolding OfSome get_attempt_row
  behind-Agrees none db h = tt
  behind-Agrees (some t) db h = find-OfSome _ db.attempts _ refl h.attempts

  by_transaction-Agrees :
      (id : Option String) (db : Db) → IsKept w db → OfSome (AgreesAttempt w) (by_transaction id db)
  unfolding OfSome
  by_transaction-Agrees none db h = tt
  by_transaction-Agrees (some id) db h =
      if-OfSome (truthy (some id)) _ (behind-Agrees (get_by_provider_transaction_id id db) db h)

  or_else-OfSome :
      (o other : Option PaymentAttempt)
      → OfSome (AgreesAttempt w) o
      → OfSome (AgreesAttempt w) other
      → OfSome (AgreesAttempt w) (or_else o other)
  unfolding OfSome
  or_else-OfSome none other h k = k
  or_else-OfSome (some a) other h k = h

  find_attempt-Agrees :
      (parsed : ParsedCallback) (db : Db)
      → IsKept w db
      → OfSome (AgreesAttempt w) (find_attempt parsed db)
  unfolding find_attempt
  find_attempt-Agrees parsed db h =
      or_else-OfSome _ _ (by_request-Agrees parsed.provider_request_id db h)
        (by_transaction-Agrees parsed.provider_transaction_id db h)

  Watching-apply_event :
      (c : PaymentConnection) (parsed : ParsedCallback) (e : PaymentEvent)
      → Keeps (Watching w) (apply_event env c parsed e)
  unfolding apply_event
  Watching-apply_event c parsed e =
      Keeps-then (OfSome (AgreesAttempt w)) (gets (find_attempt parsed)) _
        (Ensures-gets _ _ (find_attempt-Agrees parsed)) λ o h. Watching-found c parsed e o h

  pub Watching-callback :
      (g : Gateway) (d : Delivery) → Keeps (Watching w) (handle_callback env g d)
  unfolding handle_callback
  Watching-callback g d = Keeps-bind (query (accept g d)) _ (Keeps-query _) λ c.
      Keeps-bind (store_event env c d) _ (Watching-store c d)
        λ e. Keeps-if (is_closed e.status) _ _ (Keeps-pure e) (Watching-apply_event c d.parsed e)
