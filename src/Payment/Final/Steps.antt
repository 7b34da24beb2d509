-- ===== src/Payment/Final/Steps.antt =====
-- What the payment services do to the tables of intents and attempts, seen by a watch.
use chamacore.Prelude.{
  ℕ, ◌≡◌, ◌≢◌, refl, sym, ◌∙◌, true, false, Option, none, some, List, inl, inr, ==_iff, Bool-cases,
  arith,
}
use chamacore.Prelude.Table.{All, All-find?}
use chamacore.Data.{
  Env, PaymentIntent, PaymentIntentStatus, PaymentAttempt, PaymentTransferSource,
  ProviderTransaction, ProviderTransactionStatus, PaymentEvent, PaymentEventStatus,
}
use chamacore.Session.{Session, AppError, modify, or_raise, ◌>>=◌}
use chamacore.Session.Rules.{Keeps, Keeps-bind, Keeps-pure}
use chamacore.Session.Everywhere.{Keeps-modify, Ensures, Returns}
use chamacore.Payment.Store.{
  is_intent, is_attempt, update_intent, add_intent, update_attempt, add_attempt, update_transaction,
  add_provider_transaction, update_event, add_payment_event, land_intents, land_events,
  get_intent_row,
}
use chamacore.Payment.Transition.{transition_intent, allowed, moved_to}
use chamacore.Payment.Attempt.{move_intent}
use chamacore.Payment.Resolve.{ensure_transaction, intent_of, refuse_duplicate}
use chamacore.Payment.Webhook.Inbox.{close_event}
use chamacore.Payment.Final.Settle.{view_rules}
use chamacore.Payment.Final.Watch.{
  Watched, Watching, AgreesIntent, AgreesAttempt, is_final_intent, All-update, All-append,
}

-- An intent that may move is not the watched one.
pub movable :
    (w : Watched) (x : PaymentIntent)
    → AgreesIntent w x
    → is_final_intent x.status ≡ false
    → x.id ≢ w.intent
movable w x agrees moves is_watched =
    let e : x.status ≡ w.intent_status = agrees is_watched in
    let h : is_final_intent x.status ≡ true = rw e w.final_intent in cc

allowed-final :
    (from to : PaymentIntentStatus) → allowed from to ≡ true → is_final_intent from ≡ false
unfolding allowed is_final_intent
allowed-final from to h = ground arith

module _ {w : Watched} where
  -- A change of an intent with another id.
  Watching-update_intent :
      (id : ℕ) (f : PaymentIntent → PaymentIntent)
      → ((x : PaymentIntent) → (f x).id ≡ x.id)
      → id ≢ w.intent
      → Keeps (Watching w) (modify (update_intent id f))
  unfolding update_intent
  Watching-update_intent id f same apart = Keeps-modify (update_intent id f) λ db h. record {
    intents =
        All-update (AgreesIntent w) (is_intent id) f db.intents
          (λ x hit agrees is_watched.
            let e : x.id ≡ id = (==_iff x.id id).0 hit in
            elim (apart (sym e ∙ sym (same x) ∙ is_watched)) [ ])
          h.intents;
    attempts = h.attempts;
  }

  -- A change of an attempt that keeps its status, or one of another attempt.
  pub Watching-update_attempt :
      (id : ℕ) (f : PaymentAttempt → PaymentAttempt)
      → ((a : PaymentAttempt) → a.id ≡ id → AgreesAttempt w a → AgreesAttempt w (f a))
      → Keeps (Watching w) (modify (update_attempt id f))
  unfolding update_attempt
  Watching-update_attempt id f agree = Keeps-modify (update_attempt id f) λ db h. record {
    intents = h.intents;
    attempts =
        All-update (AgreesAttempt w) (is_attempt id) f db.attempts
          (λ a hit agrees. agree a ((==_iff a.id id).0 hit) agrees) h.attempts;
  }

  pub Watching-add_intent :
      (x : PaymentIntent) → x.id ≢ w.intent → Keeps (Watching w) (modify (add_intent x))
  unfolding add_intent
  Watching-add_intent x apart =
      Keeps-modify (add_intent x)
        λ db h. record { intents = ((λ e. elim (apart e) [ ]), h.intents); attempts = h.attempts }

  pub Watching-add_attempt :
      (a : PaymentAttempt) → a.id ≢ w.attempt → Keeps (Watching w) (modify (add_attempt a))
  unfolding add_attempt
  Watching-add_attempt a apart =
      Keeps-modify (add_attempt a)
        λ db h. record { intents = h.intents; attempts = ((λ e. elim (apart e) [ ]), h.attempts) }

  pub Watching-update_transaction :
      (id : ℕ) (f : ProviderTransaction → ProviderTransaction)
      → Keeps (Watching w) (modify (update_transaction id f))
  unfolding update_transaction
  Watching-update_transaction id f =
      Keeps-modify (update_transaction id f)
        λ db h. record { intents = h.intents; attempts = h.attempts }

  pub Watching-add_transaction :
      (t : ProviderTransaction) → Keeps (Watching w) (modify (add_provider_transaction t))
  unfolding add_provider_transaction
  Watching-add_transaction t =
      Keeps-modify (add_provider_transaction t)
        λ db h. record { intents = h.intents; attempts = h.attempts }

  Watching-update_event :
      (id : ℕ) (f : PaymentEvent → PaymentEvent) → Keeps (Watching w) (modify (update_event id f))
  unfolding update_event
  Watching-update_event id f =
      Keeps-modify (update_event id f) λ db h. record { intents = h.intents; attempts = h.attempts }

  pub Watching-add_event : (e : PaymentEvent) → Keeps (Watching w) (modify (add_payment_event e))
  unfolding add_payment_event
  Watching-add_event e =
      Keeps-modify (add_payment_event e)
        λ db h. record { intents = h.intents; attempts = h.attempts }

  pub Watching-land_events : (rows : List PaymentEvent) → Keeps (Watching w) (land_events rows)
  unfolding land_events
  Watching-land_events rows = record {
    at = λ s h. record {
      work = record { intents = h.work.intents; attempts = h.work.attempts };
      flushed = record { intents = h.flushed.intents; attempts = h.flushed.attempts };
      saved = record { intents = h.saved.intents; attempts = h.saved.attempts };
      earlier = h.earlier;
    };
  }

  pub Watching-land_intents :
      (rows : List PaymentIntent)
      → All (AgreesIntent w) rows
      → Keeps (Watching w) (land_intents rows)
  unfolding land_intents
  Watching-land_intents rows agree = record {
    at = λ s h. record {
      work = record {
        intents = All-append (AgreesIntent w) rows s.work.intents agree h.work.intents;
        attempts = h.work.attempts;
      };
      flushed = record {
        intents = All-append (AgreesIntent w) rows s.flushed.intents agree h.flushed.intents;
        attempts = h.flushed.attempts;
      };
      saved = record {
        intents = All-append (AgreesIntent w) rows s.saved.intents agree h.saved.intents;
        attempts = h.saved.attempts;
      };
      earlier = h.earlier;
    };
  }

  pub Watching-close :
      (env : Env) (e : PaymentEvent) (status : PaymentEventStatus)
      → Keeps (Watching w) (close_event env e status)
  unfolding close_event
  Watching-close env e status = search (view_rules, Watching-update_event) depth 20

  pub Watching-move_to :
      (x : PaymentIntent) (to : PaymentIntentStatus) (source : PaymentTransferSource)
      (user : Option ℕ)
      → AgreesIntent w x
      → is_final_intent x.status ≡ false
      → Keeps (Watching w) (modify (update_intent x.id (moved_to to source user)))
  Watching-move_to x to source user agrees moves =
      Watching-update_intent x.id (moved_to to source user) (λ y. refl) (movable w x agrees moves)

  pub transition-Ensures :
      (x : PaymentIntent) (to : PaymentIntentStatus) (source : PaymentTransferSource)
      (user : Option ℕ)
      → AgreesIntent w x
      → Ensures (Watching w) (AgreesIntent w) (transition_intent x to source user)
  unfolding transition_intent ◌>>=◌ Returns modify
  transition-Ensures x to source user agrees = elim (Bool-cases (allowed x.status to)) [
    | inl may ↦
        let open_status = allowed-final x.status to may in
        rw may (record {
          keeps = record {
            at = λ s h. (Watching-move_to x to source user agrees open_status).at s h;
          };
          returns = λ s h is_watched. elim (movable w x agrees open_status is_watched) [ ];
        })
    | inr not_may ↦ rw not_may (record { keeps = record { at = λ s h. h }; returns = λ s h. tt })
  ]

  pub Watching-transition :
      (x : PaymentIntent) (to : PaymentIntentStatus) (source : PaymentTransferSource)
      (user : Option ℕ)
      → AgreesIntent w x
      → Keeps (Watching w) (transition_intent x to source user)
  Watching-transition x to source user agrees = (transition-Ensures x to source user agrees).keeps

  pub Watching-move :
      (x : PaymentIntent) (to : Option PaymentIntentStatus) (source : PaymentTransferSource)
      (user : Option ℕ)
      → AgreesIntent w x
      → Keeps (Watching w) (move_intent x to source user)
  unfolding move_intent
  Watching-move x none source user agrees = Keeps-pure tt
  Watching-move x (some to) source user agrees =
      Keeps-bind (transition_intent x to source user) _
        (Watching-transition x to source user agrees) λ _. Keeps-pure tt

  pub Watching-ensure :
      (a : PaymentAttempt) (status : ProviderTransactionStatus)
      → Keeps (Watching w) (ensure_transaction a status)
  unfolding ensure_transaction
  Watching-ensure a status = search (view_rules, Watching-add_transaction) depth 20

  pub Watching-refuse : (a : PaymentAttempt) → Keeps (Watching w) (refuse_duplicate a)
  unfolding refuse_duplicate
  Watching-refuse a = search view_rules depth 10

  -- The intent of an attempt, as the session has it.
  pub intent_of-Ensures : (a : PaymentAttempt) → Ensures (Watching w) (AgreesIntent w) (intent_of a)
  unfolding intent_of ◌>>=◌ get_intent_row Returns
  intent_of-Ensures a = record {
    keeps = record { at = λ s h. h };
    returns = λ s h. found s h (get_intent_row a.payment_intent_id s.work) refl;
  }
    where
      found :
          (s : Session)
          → Watching w s
          → (o : Option PaymentIntent) → get_intent_row a.payment_intent_id s.work ≡ o
          → Returns (AgreesIntent w) (or_raise o (AppError.not_found "Payment intent not found"))
      found s h none e = tt
      found s h (some x) e =
          All-find? (AgreesIntent w) (is_intent a.payment_intent_id) s.work.intents x h.work.intents
            e
