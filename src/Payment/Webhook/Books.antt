-- ===== src/Payment/Webhook/Books.antt =====
-- A callback, whether it is processed or refused, leaves a sound ledger in every view.
use chamacore.Prelude.{ℕ, ◌≡◌, refl, Bool, String, List, []}
use chamacore.Data.{
  Env, PaymentConnection, PaymentIntent, PaymentIntentStatus, PaymentAttempt, PaymentAttemptStatus,
  PaymentEvent, PaymentEventStatus,
}
use chamacore.Session.{modify}
use chamacore.Session.Rules.{Keeps, keeps_rules}
use chamacore.Ledger.Invariant.{IsSoundSession}
use chamacore.Ledger.Sound.{sound_rules, sound-modify}
use chamacore.Payment.Gateway.{Gateway, ParsedCallback}
use chamacore.Payment.Store.{update_event, add_payment_event, land_events}
use chamacore.Payment.Books.{
  sound-update_attempt, sound-update_transaction, sound-update_intent, sound-ensure,
  sound-intent_of, sound-refuse, sound-settlement,
}
use chamacore.Payment.Webhook.{apply_event, handle_callback}
use chamacore.Payment.Webhook.Connection.{Delivery}
use chamacore.Payment.Webhook.Inbox.{
  close_event, resolve_duplicate, recover, keep_event, insert_event, store_event,
}
use chamacore.Payment.Webhook.Apply.{
  finish_intent, confirm_attempt, refuse_attempt, advance, apply_in, apply_callback,
}

sound-update_event :
    (id : ℕ) (f : PaymentEvent → PaymentEvent) → Keeps IsSoundSession (modify (update_event id f))
unfolding update_event
sound-update_event id f = sound-modify (update_event id f) (λ db. refl) (λ db. refl)

sound-add_event : (e : PaymentEvent) → Keeps IsSoundSession (modify (add_payment_event e))
unfolding add_payment_event
sound-add_event e = sound-modify (add_payment_event e) (λ db. refl) (λ db. refl)

sound-land_events : (rows : List PaymentEvent) → Keeps IsSoundSession (land_events rows)
unfolding land_events
sound-land_events rows = record {
  at = λ s h. record {
    book = h.book;
    durable = h.durable;
    history = h.history;
    same_transactions = h.same_transactions;
    same_accounts = h.same_accounts;
  };
}

sound-close :
    (env : Env) (e : PaymentEvent) (status : PaymentEventStatus)
    → Keeps IsSoundSession (close_event env e status)
unfolding close_event
sound-close env e status = search (sound_rules, sound-update_event) depth 20

sound-duplicate :
    (env : Env) (e : PaymentEvent) (digest : String)
    → Keeps IsSoundSession (resolve_duplicate env e digest)
unfolding resolve_duplicate
sound-duplicate env e digest = search (keeps_rules, sound-close) depth 20

sound-keep :
    (env : Env) (d : Delivery) (e : PaymentEvent) → Keeps IsSoundSession (keep_event env d e)
unfolding keep_event
sound-keep env d e = search (sound_rules, sound-add_event, sound-close) depth 20

sound-recover :
    (env : Env) (c : PaymentConnection) (d : Delivery) → Keeps IsSoundSession (recover env c d)
unfolding recover
sound-recover env c d = search (sound_rules, sound-duplicate) depth 20

sound-store :
    (env : Env) (c : PaymentConnection) (d : Delivery) → Keeps IsSoundSession (store_event env c d)
unfolding store_event insert_event
sound-store env c d =
    search (sound_rules, sound-duplicate, sound-land_events, sound-recover, sound-keep) depth 30

sound-finish :
    (x : PaymentIntent) (status : PaymentIntentStatus)
    → Keeps IsSoundSession (finish_intent x status)
unfolding finish_intent
sound-finish x status = search (keeps_rules, sound-update_intent) depth 10

ruleset callback_rules = (
  sound_rules, sound-update_attempt, sound-update_transaction, sound-ensure, sound-intent_of,
  sound-refuse, sound-finish, sound-close,
)

sound-refuse_attempt :
    (env : Env) (a : PaymentAttempt) (x : PaymentIntent) (parsed : ParsedCallback)
    → Keeps IsSoundSession (refuse_attempt env a x parsed)
unfolding refuse_attempt
sound-refuse_attempt env a x parsed = search callback_rules depth 20

module _ (env : Env) (alone : env.concurrent ≡ []) where
  sound-confirm_attempt :
      (a : PaymentAttempt) (x : PaymentIntent) (parsed : ParsedCallback)
      → Keeps IsSoundSession (confirm_attempt env a x parsed)
  unfolding confirm_attempt
  sound-confirm_attempt a x parsed = search (callback_rules, sound-settlement env alone) depth 20

  sound-advance :
      (paid : Bool) (a : PaymentAttempt) (x : PaymentIntent) (parsed : ParsedCallback)
      (e : PaymentEvent)
      → Keeps IsSoundSession (advance paid env a x parsed e)
  unfolding advance
  sound-advance paid a x parsed e =
      search (callback_rules, sound-confirm_attempt, sound-refuse_attempt) depth 20

  sound-apply_in :
      (status : PaymentAttemptStatus) (paid : Bool) (a : PaymentAttempt) (x : PaymentIntent)
      (parsed : ParsedCallback) (e : PaymentEvent)
      → Keeps IsSoundSession (apply_in status paid env a x parsed e)
  unfolding apply_in
  sound-apply_in PaymentAttemptStatus.succeeded paid a x parsed e = sound-close env e _
  sound-apply_in PaymentAttemptStatus.failed paid a x parsed e = sound-close env e _
  sound-apply_in PaymentAttemptStatus.initiated paid a x parsed e = sound-advance paid a x parsed e
  sound-apply_in PaymentAttemptStatus.timeout paid a x parsed e = sound-advance paid a x parsed e
  sound-apply_in PaymentAttemptStatus.unknown paid a x parsed e = sound-advance paid a x parsed e

  sound-apply :
      (a : PaymentAttempt) (parsed : ParsedCallback) (e : PaymentEvent)
      → Keeps IsSoundSession (apply_callback env a parsed e)
  unfolding apply_callback
  sound-apply a parsed e = search (callback_rules, sound-apply_in) depth 20

  sound-apply_event :
      (c : PaymentConnection) (parsed : ParsedCallback) (e : PaymentEvent)
      → Keeps IsSoundSession (apply_event env c parsed e)
  unfolding apply_event
  sound-apply_event c parsed e = search (callback_rules, sound-apply) depth 20

  pub sound-callback : (g : Gateway) (d : Delivery) → Keeps IsSoundSession (handle_callback env g d)
  unfolding handle_callback
  sound-callback g d = search (keeps_rules, sound-store env, sound-apply_event) depth 30
