-- ===== src/Payment/Transition.antt =====
-- `_transition_intent` of app/services/payment_intent.py: the state machine of an intent.
use chamacore.Prelude.{ℕ, Bool, true, false, not, Option}
use chamacore.Data.{PaymentIntent, PaymentIntentStatus, PaymentTransferSource}
use chamacore.Data.PaymentIntentStatus.{pending, processing, succeeded, failed}
use chamacore.Session.{Action, state_error, raise_if, modify, pure, ◌>>◌}
use chamacore.Payment.Store.{update_intent}

-- The table `allowed`.
unfoldable pub allowed : PaymentIntentStatus → PaymentIntentStatus → Bool
allowed pending processing = true
allowed processing succeeded = true
allowed processing failed = true
allowed _ _ = false

abbrev pub moved_to :
    PaymentIntentStatus → PaymentTransferSource → Option ℕ → PaymentIntent → PaymentIntent
moved_to new_status source user_id x = record x {
  status = new_status;
  last_transition_source = source;
  last_transition_by_user_id = user_id;
}

-- It gives back the intent as it has changed it.
unfoldable pub transition_intent :
    PaymentIntent → PaymentIntentStatus → PaymentTransferSource → Option ℕ → Action PaymentIntent
unfolding allowed
transition_intent intent new_status source user_id = do
  raise_if (not (allowed intent.status new_status))
      (state_error "Payment intent cannot move from its status to the new one")
  modify (update_intent intent.id (moved_to new_status source user_id))
  pure (moved_to new_status source user_id intent)
