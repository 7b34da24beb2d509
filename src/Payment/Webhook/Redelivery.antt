-- ===== src/Payment/Webhook/Redelivery.antt =====
-- What a second delivery of a callback does.
use chamacore.Prelude.{
  ◌≡◌, ◌≢◌, ◌⊎◌, refl, true, false, some, List, ◌∷◌, inl, inr, str_eq, Bool-cases, if◌then◌else◌,
}
use chamacore.Data.{
  Db, Env, PaymentConnection, PaymentEvent, PaymentEventStatus, same_event_status,
  same_event_status_iff,
}
use chamacore.Session.{fresh, ok, modify, commit, if_none, ◌>>=◌}
use chamacore.Payment.Gateway.{Gateway}
use chamacore.Payment.Store.{update_event}
use chamacore.Payment.Webhook.{handle_callback, accept}
use chamacore.Payment.Webhook.Connection.{Delivery}
use chamacore.Payment.Webhook.Inbox.{
  marked, close_event, resolve_duplicate, stored_event, store_event,
}

-- The status that a stored event gets from a redelivery with this payload.
abbrev pub redelivered : PaymentEvent → Delivery → PaymentEventStatus
redelivered e d =
    if str_eq e.payload_hash d.digest
    then PaymentEventStatus.deduplicated
    else PaymentEventStatus.disagreement

not_received :
    (status : PaymentEventStatus)
    → status ≢ PaymentEventStatus.received
    → same_event_status status PaymentEventStatus.received ≡ false
not_received status apart =
    elim (Bool-cases (same_event_status status PaymentEventStatus.received)) [
      | inl same ↦
          absurd (apart ((same_event_status_iff status PaymentEventStatus.received).0 same))
      | inr other ↦ other
    ]

-- A redelivery of a callback whose event has been processed, or has another payload, marks the event as
-- deduplicated or as a disagreement, and durably changes nothing else: no attempt, intent, contribution
-- or ledger row.
pub handle_callback_redelivery :
    (env : Env) (g : Gateway) (d : Delivery) (c : PaymentConnection) (e : PaymentEvent) (db : Db)
    (earlier : List Db)
    → accept g d db ≡ ok c
    → stored_event c d db ≡ some e
    → (str_eq e.payload_hash d.digest ≡ false) ⊎ (e.status ≢ PaymentEventStatus.received)
    → handle_callback env g d (fresh db earlier) ≡ (
      ok (marked env (redelivered e d) e),
      fresh (update_event e.id (marked env (redelivered e d)) db) (db ∷ earlier),
    )
unfolding handle_callback store_event resolve_duplicate close_event ◌>>=◌ if_none modify commit
handle_callback_redelivery env g d c e db earlier accepted stored closed =
    elim (Bool-cases (str_eq e.payload_hash d.digest)) [
      | inr differs ↦ rw (accepted, stored, differs) refl
      | inl same ↦ elim closed [
        | inl differs ↦ let h : true ≡ false = rw same at differs in cc
        | inr processed ↦ rw (accepted, stored, same, not_received e.status processed) refl
      ]
    ]
