-- ===== src/Payment/Webhook/Apply.antt =====
-- What a callback does to its attempt and intent: `_apply_callback` of
-- app/services/payment_webhook.py.
use chamacore.Prelude.{
  Bool, true, false, ◌||◌, not, Option, none, some, leb, ◌==◌, str_eq, if◌then◌else◌,
}
use chamacore.Data.{
  Env, PaymentIntent, PaymentIntentStatus, PaymentAttempt, PaymentAttemptStatus, PaymentEvent,
  PaymentEventStatus, PaymentTransferSource, ProviderTransaction, ProviderTransactionStatus,
  same_intent_status,
}
use chamacore.Session.{if_none, Action, pure, modify, ◌>>=◌, ◌>>◌}
use chamacore.Payment.Gateway.{ParsedCallback}
use chamacore.Payment.Store.{update_attempt, update_transaction, update_intent}
use chamacore.Payment.Transition.{moved_to}
use chamacore.Payment.Attempt.{max_attempt_numbers}
use chamacore.Payment.Resolve.{
  or_keep, ensure_transaction, intent_of, refuse_duplicate, succeeded_attempt,
}
use chamacore.Payment.Settlement.{settle_linked_contribution}
use chamacore.Payment.Webhook.Inbox.{close_event}

-- The amount or the currency of the callback is not that of the intent.
unfoldable pub disagrees : ParsedCallback → PaymentIntent → Bool
disagrees parsed intent =
    elim parsed.amount [ none ↦ false | some amount ↦ not (amount == intent.amount) ]
    || elim parsed.currency [ none ↦ false | some currency ↦ not (str_eq currency intent.currency) ]

abbrev pub taken_back :
    ProviderTransactionStatus → ParsedCallback → ProviderTransaction → ProviderTransaction
taken_back status parsed t = record t {
  normalized_status = status;
  raw_status = or_keep parsed.raw_status t.raw_status;
}

abbrev pub confirmed_transaction : ParsedCallback → ProviderTransaction → ProviderTransaction
confirmed_transaction parsed t = record (taken_back ProviderTransactionStatus.succeeded parsed t) {
  provider_transaction_id = or_keep parsed.provider_transaction_id t.provider_transaction_id;
}

abbrev pub confirmed_attempt : Env → ParsedCallback → PaymentAttempt → PaymentAttempt
confirmed_attempt env parsed a =
    record (succeeded_attempt env PaymentTransferSource.provider_callback a) {
      provider_transaction_id = or_keep parsed.provider_transaction_id a.provider_transaction_id;
    }

-- A PROCESSING intent gets the status; any other stays as it is.
unfoldable pub finish_intent : PaymentIntent → PaymentIntentStatus → Action (Unit {0})
finish_intent intent status =
    if same_intent_status intent.status PaymentIntentStatus.processing
    then modify
        (update_intent intent.id (moved_to status PaymentTransferSource.provider_callback none))
    else pure tt

unfoldable pub confirm_attempt :
    Env → PaymentAttempt → PaymentIntent → ParsedCallback → Action (Unit {0})
confirm_attempt env attempt intent parsed = do
  modify (update_attempt attempt.id (confirmed_attempt env parsed))
  modify (update_transaction attempt.id (confirmed_transaction parsed))
  finish_intent intent PaymentIntentStatus.succeeded
  refuse_duplicate attempt
  settle_linked_contribution env intent
  pure tt

abbrev pub refused_attempt : Env → ParsedCallback → PaymentAttempt → PaymentAttempt
refused_attempt env parsed a = record a {
  status = PaymentAttemptStatus.failed;
  completed_at = some env.now_utc;
  failure_code = parsed.error_code;
  failure_message_safe = parsed.error_message_safe;
  last_transition_source = PaymentTransferSource.provider_callback;
}

unfoldable pub refuse_attempt :
    Env → PaymentAttempt → PaymentIntent → ParsedCallback → Action (Unit {0})
refuse_attempt env attempt intent parsed = do
  modify (update_attempt attempt.id (refused_attempt env parsed))
  modify (update_transaction attempt.id (taken_back ProviderTransactionStatus.failed parsed))
  if leb (max_attempt_numbers env) attempt.attempt_number
      then finish_intent intent PaymentIntentStatus.failed
      else pure tt

-- A callback about an attempt that is not final.
unfoldable pub advance :
    Bool
    → Env
    → PaymentAttempt
    → PaymentIntent
    → ParsedCallback
    → PaymentEvent
    → Action PaymentEvent
unfolding confirm_attempt refuse_attempt
advance paid env attempt intent parsed event = do
  ensure_transaction attempt ProviderTransactionStatus.unknown
  if paid
      then confirm_attempt env attempt intent parsed
      else refuse_attempt env attempt intent parsed
  close_event env event PaymentEventStatus.processed

abbrev agreed : Bool → PaymentEventStatus
agreed same = if same then PaymentEventStatus.processed else PaymentEventStatus.disagreement

-- By the attempt's status: a final one is only compared with.
unfoldable pub apply_in :
    PaymentAttemptStatus
    → Bool
    → Env
    → PaymentAttempt
    → PaymentIntent
    → ParsedCallback
    → PaymentEvent
    → Action PaymentEvent
unfolding advance
apply_in PaymentAttemptStatus.succeeded paid env attempt intent parsed event =
    close_event env event (agreed paid)
apply_in PaymentAttemptStatus.failed paid env attempt intent parsed event =
    close_event env event (agreed (not paid))
apply_in _ paid env attempt intent parsed event = advance paid env attempt intent parsed event

-- What a callback says: the charge was paid, it failed, or nothing that can be used.
abbrev pub verdict : Option ProviderTransactionStatus → Option Bool
verdict (some ProviderTransactionStatus.succeeded) = some true
verdict (some ProviderTransactionStatus.failed) = some false
verdict _ = none

-- `_apply_callback`
unfoldable pub apply_callback :
    Env → PaymentAttempt → ParsedCallback → PaymentEvent → Action PaymentEvent
unfolding apply_in
apply_callback env attempt parsed event = do
  intent ← intent_of attempt
  if disagrees parsed intent
      then close_event env event PaymentEventStatus.disagreement
      else if_none (verdict parsed.normalized_status)
          (close_event env event PaymentEventStatus.unprocessable)
          λ paid. apply_in attempt.status paid env attempt intent parsed event
