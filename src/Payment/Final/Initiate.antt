-- ===== src/Payment/Final/Initiate.antt =====
-- The creation, the list and the start of intents move nothing that is final.
use chamacore.Prelude.{
  ℕ, ◌≡◌, ◌≢◌, refl, sym, ◌∙◌, ltb, true, false, String, Option, none, some, List, [], ◌∷◌, inl,
  inr, Bool-cases, leb, not, truthy,
}
use chamacore.Prelude.Table.{All, All-find?}
use chamacore.Data.{
  Db, Env, User, PaymentConnection, PaymentIntent, PaymentIntentStatus, PaymentAttempt,
  PaymentAttemptStatus, PaymentTransferSource, ProviderTransaction, ProviderTransactionStatus,
}
use chamacore.Session.{gets, query, modify, commit, pure, or_raise, if_none}
use chamacore.Session.Rules.{Keeps, Keeps-bind, Keeps-pure, Keeps-query, Keeps-option, Keeps-if}
use chamacore.Session.Everywhere.{
  Keeps-then, Returns, Ensures-gets, Ensures-query, Keeps-commit, after-Returns, Returns-ok,
  or_raise-ok,
}
use chamacore.Payment.Gateway.{Gateway, ChargeReply, QueryReply, StatusQueryResult}
use chamacore.Payment.Store.{get_intent_in_chama, intent_in, list_for_intent}
use chamacore.Payment.Attempt.{
  create_attempt, save_attempt, insert_attempt, replied, is_retryable, move_intent, customer_phone,
  new_attempt, charge_request, context_of, max_attempt_numbers,
}
use chamacore.Payment.Resolve.{
  resolve_attempt_success, resolve_attempt_failure, resolve_in, apply_query, query_and_resolve,
  succeeded_attempt, failed_by_query, intent_of, ensure_transaction,
}
use chamacore.Payment.Initiate.{
  give_up, retry, retry_resolved, continue_resolved, resolve_pending, continue_last, first_attempt,
  send, prepare, prepare_and_send, completed, initiate_in, initiate, startable,
}
use chamacore.Payment.Store.{
  last, by_number, insert_by_number, attempt_of, update_attempt, update_transaction,
}
use chamacore.Payment.Transition.{transition_intent}
use chamacore.Access.{
  get_chama_or_404, authorize_chama_access, authorize_chama_write, require_own_or_leadership,
}
use chamacore.Payment.Final.Settle.{view_rules, Watching-settlement}
use chamacore.Payment.Final.Steps.{
  Watching-update_attempt, Watching-add_attempt, Watching-add_transaction,
  Watching-update_transaction, Watching-transition, transition-Ensures, Watching-move,
  Watching-ensure, Watching-refuse, intent_of-Ensures,
}
use chamacore.Payment.Final.Watch.{
  Watched, IsKept, Watching, AgreesIntent, AgreesAttempt, IsFresh, is_final_attempt, All-select,
}

-- The last of the attempts of an intent is one of them.
All-insert :
    (P : PaymentAttempt → Type 0) (x : PaymentAttempt) (xs : List PaymentAttempt)
    → P x
    → All P xs
    → All P (insert_by_number x xs)
unfolding insert_by_number
All-insert P x [] p a = (p, tt)
All-insert P x (y ∷ ys) p a = elim (Bool-cases (ltb y.attempt_number x.attempt_number)) [
  | inl less ↦ rw less (a.0, All-insert P x ys p a.1)
  | inr not_less ↦ rw not_less (p, a)
]

All-by_number :
    (P : PaymentAttempt → Type 0) (xs : List PaymentAttempt) → All P xs → All P (by_number xs)
unfolding by_number
All-by_number P [] a = tt
All-by_number P (x ∷ xs) a = All-insert P x (by_number xs) a.0 (All-by_number P xs a.1)

-- Of a row that may be missing.
unfoldable pub OfSome : {A : Type 0} → (A → Type 0) → Option A → Type 0
OfSome P none = Unit
OfSome P (some a) = P a

All-last : (P : PaymentAttempt → Type 0) (xs : List PaymentAttempt) → All P xs → OfSome P (last xs)
unfolding last OfSome
All-last P [] a = tt
All-last P (x ∷ []) a = a.0
All-last P (x ∷ y ∷ ys) a = All-last P (y ∷ ys) a.1

module _ (w : Watched) where
  pub last-Agrees :
      (intent_id : ℕ) (db : Db)
      → IsKept w db
      → OfSome (AgreesAttempt w) (last (list_for_intent intent_id db))
  unfolding list_for_intent
  last-Agrees intent_id db h = All-last (AgreesAttempt w) _ (
      All-by_number (AgreesAttempt w) _
        (All-select (AgreesAttempt w) (attempt_of intent_id) db.attempts h.attempts))

  Watching-insert_attempt :
      (a : PaymentAttempt) (t : ProviderTransaction)
      → a.id ≢ w.attempt
      → Keeps (Watching w) (insert_attempt a t)
  unfolding insert_attempt
  Watching-insert_attempt a t apart =
      search (view_rules, Watching-add_attempt, Watching-add_transaction) depth 20

  Watching-save :
      (actor : User) (x : PaymentIntent) (r : PaymentAttempt × ProviderTransaction)
      → AgreesIntent w x
      → r.0.id ≢ w.attempt
      → Keeps (Watching w) (save_attempt actor x r)
  unfolding save_attempt
  Watching-save actor x (a, t) agrees apart =
      Keeps-bind (insert_attempt a t) _ (Watching-insert_attempt a t apart) λ _.
        Keeps-bind (move_intent x _ _ _) _ (Watching-move x _ _ _ agrees)
          λ _. Keeps-bind commit _ Keeps-commit λ _. Keeps-pure a

  -- A reply does not change the id of the attempt.
  replied-id :
      (env : Env) (a : PaymentAttempt) (reply : ChargeReply) → (replied env a reply).0.id ≡ a.id
  unfolding replied
  replied-id env a (ChargeReply.timed_out code message) = refl
  replied-id env a (ChargeReply.failed code message) = refl
  replied-id env a (ChargeReply.answered result) = elim (Bool-cases result.accepted) [
    | inl yes_accepted ↦ rw yes_accepted refl
    | inr no_accepted ↦ rw no_accepted refl
  ]

  Watching-create_attempt :
      (env : Env) (g : Gateway) (actor : User) (x : PaymentIntent) (c : PaymentConnection)
      (shaped : String) (n : ℕ)
      → IsFresh w env
      → AgreesIntent w x
      → Keeps (Watching w) (create_attempt env g actor x c shaped n)
  unfolding create_attempt
  Watching-create_attempt env g actor x c shaped n fresh_ids agrees =
      Keeps-bind (query _) _ (Keeps-query _) λ reference.
        Keeps-bind (query (customer_phone x)) _ (Keeps-query _) λ phone.
          let attempt = new_attempt env x c.id n reference in
          let reply =
            g.create_payment_attempt shaped (charge_request g c x phone reference)
              (context_of c x.chama_id) in
          Watching-save actor x (replied env attempt reply) agrees
            (λ e. fresh_ids.new_attempt (sym (replied-id env attempt reply) ∙ e))

  Watching-give_up :
      (actor : User) (x : PaymentIntent) (message : String)
      → AgreesIntent w x
      → Keeps (Watching w) (give_up actor x message)
  unfolding give_up
  Watching-give_up actor x message agrees =
      Keeps-bind (transition_intent x _ _ _) _ (Watching-transition x _ _ _ agrees)
        λ _. search view_rules depth 10

  -- An attempt whose outcome is not final is not the watched one.
  pub unresolved :
      (a : PaymentAttempt)
      → AgreesAttempt w a
      → is_final_attempt a.status ≡ false
      → a.id ≢ w.attempt
  unresolved a agrees still is_watched =
      let e : a.status ≡ w.attempt_status = agrees is_watched in
      let h : is_final_attempt a.status ≡ true = rw e w.final_attempt in cc

  pub Watching-other :
      (a : PaymentAttempt) (f : PaymentAttempt → PaymentAttempt)
      → ((b : PaymentAttempt) → (f b).id ≡ b.id)
      → a.id ≢ w.attempt
      → Keeps (Watching w) (modify (update_attempt a.id f))
  Watching-other a f same apart =
      Watching-update_attempt a.id f
        λ b is_a agrees is_watched. elim (apart (sym is_a ∙ sym (same b) ∙ is_watched)) [ ]

  module _ (env : Env) (fresh_ids : IsFresh w env) where
    Watching-success :
        (a : PaymentAttempt) → a.id ≢ w.attempt → Keeps (Watching w) (resolve_attempt_success env a)
    unfolding resolve_attempt_success
    Watching-success a apart =
        Keeps-bind (modify (update_attempt a.id _)) _
          (Watching-other a (succeeded_attempt env PaymentTransferSource.status_query) (λ b. refl)
            apart)
          λ _. Keeps-then (AgreesIntent w) (intent_of a) _ (intent_of-Ensures a) λ x agrees.
            Keeps-bind (move_intent x _ _ _) _ (Watching-move x _ _ _ agrees)
              λ _. search (view_rules, Watching-refuse, Watching-settlement) depth 20

    Watching-failure :
        (a : PaymentAttempt) (code message : Option String)
        → a.id ≢ w.attempt
        → Keeps (Watching w) (resolve_attempt_failure env a code message)
    unfolding resolve_attempt_failure
    Watching-failure a code message apart =
        Keeps-bind (modify (update_attempt a.id _)) _
          (Watching-other a (failed_by_query env code message) (λ b. refl) apart)
          λ _. search (view_rules, Watching-refuse) depth 20

    Watching-resolve_in :
        (status : ProviderTransactionStatus) (a : PaymentAttempt) (r : StatusQueryResult)
        → a.id ≢ w.attempt
        → Keeps (Watching w) (resolve_in status env a r)
    unfolding resolve_in
    Watching-resolve_in ProviderTransactionStatus.succeeded a r apart =
        search (view_rules, Watching-success a apart) depth 10
    Watching-resolve_in ProviderTransactionStatus.failed a r apart =
        search (view_rules, Watching-failure a r.error_code r.error_message_safe apart) depth 10
    Watching-resolve_in ProviderTransactionStatus.pending a r apart = search view_rules
    Watching-resolve_in ProviderTransactionStatus.unknown a r apart = search view_rules

    Watching-apply_query :
        (a : PaymentAttempt) (r : QueryReply)
        → a.id ≢ w.attempt
        → Keeps (Watching w) (apply_query env a r)
    unfolding apply_query
    Watching-apply_query a QueryReply.unavailable apart = search view_rules
    Watching-apply_query a (QueryReply.answered r) apart =
        Keeps-bind (ensure_transaction a _) _ (Watching-ensure a _) λ _.
          Keeps-bind (modify (update_transaction a.id _)) _ (Watching-update_transaction a.id _)
            λ _. Watching-resolve_in r.normalized_status a r apart

    module _ (g : Gateway) (actor : User) where
      Watching-query :
          (a : PaymentAttempt) (c : PaymentConnection) (chama_id : ℕ) (shaped : String)
          → a.id ≢ w.attempt
          → Keeps (Watching w) (query_and_resolve env g a c chama_id shaped)
      unfolding query_and_resolve
      Watching-query a c chama_id shaped apart =
          Keeps-option a.provider_request_id (pure none) _ (Keeps-pure none)
            λ id. Keeps-if (truthy (some id)) _ _ (Watching-apply_query a _ apart) (Keeps-pure none)

      module _ (x : PaymentIntent) (agrees : AgreesIntent w x) (c : PaymentConnection)
          (shaped : String) where
        Watching-retry : (a : PaymentAttempt) → Keeps (Watching w) (retry env g actor x c shaped a)
        unfolding retry
        Watching-retry a =
            Keeps-if (leb (max_attempt_numbers env) a.attempt_number) _ _
              (Watching-give_up actor x _ agrees)
              (Keeps-if (not a.retryable) _ _ (Watching-give_up actor x _ agrees)
                (Watching-create_attempt env g actor x c shaped _ fresh_ids agrees))

        Watching-again :
            (a : PaymentAttempt) → Keeps (Watching w) (retry_resolved env g actor x c shaped a)
        unfolding retry_resolved
        Watching-again a =
            Keeps-bind (modify (update_attempt a.id _)) _
              (Watching-update_attempt a.id
                (λ b. record b { retryable = is_retryable a.failure_code })
                (λ b is_a b_agrees. b_agrees))
              λ _. search (view_rules, Watching-retry) depth 20

        Watching-resolved :
            (status : PaymentAttemptStatus) (a : PaymentAttempt)
            → Keeps (Watching w) (continue_resolved status env g actor x c shaped a)
        unfolding continue_resolved
        Watching-resolved PaymentAttemptStatus.succeeded a = search view_rules
        Watching-resolved PaymentAttemptStatus.initiated a = Watching-again a
        Watching-resolved PaymentAttemptStatus.failed a = Watching-again a
        Watching-resolved PaymentAttemptStatus.timeout a = Watching-again a
        Watching-resolved PaymentAttemptStatus.unknown a = Watching-again a

        Watching-pending :
            (a : PaymentAttempt)
            → a.id ≢ w.attempt
            → Keeps (Watching w) (resolve_pending env g actor x c shaped a)
        unfolding resolve_pending
        Watching-pending a apart =
            Keeps-bind (query_and_resolve env g a c x.chama_id shaped) _
              (Watching-query a c x.chama_id shaped apart)
              λ resolved.
                Keeps-option resolved (pure a) _ (Keeps-pure a)
                  λ now. Watching-resolved now.status now

        Watching-last :
            (status : PaymentAttemptStatus) (a : PaymentAttempt)
            → (is_final_attempt status ≡ false → a.id ≢ w.attempt)
            → Keeps (Watching w) (continue_last status env g actor x c shaped a)
        unfolding continue_last is_final_attempt
        Watching-last PaymentAttemptStatus.succeeded a apart = search view_rules
        Watching-last PaymentAttemptStatus.failed a apart = Watching-retry a
        Watching-last PaymentAttemptStatus.initiated a apart = Watching-pending a (apart refl)
        Watching-last PaymentAttemptStatus.timeout a apart = Watching-pending a (apart refl)
        Watching-last PaymentAttemptStatus.unknown a apart = Watching-pending a (apart refl)

        Watching-first : Keeps (Watching w) (first_attempt env g actor x c shaped)
        unfolding first_attempt
        Watching-first =
            Keeps-then (AgreesIntent w) (transition_intent x _ _ _) _
              (transition-Ensures x _ _ _ agrees)
              λ started started_agrees.
                Keeps-bind commit _ Keeps-commit λ _.
                  Watching-create_attempt env g actor started c shaped 1 fresh_ids started_agrees

        Watching-found :
            (o : Option PaymentAttempt)
            → OfSome (AgreesAttempt w) o
            → Keeps (Watching w) (
                if_none o
                  (first_attempt env g actor x c shaped)
                  λ a. continue_last a.status env g actor x c shaped a)
        unfolding OfSome if_none
        Watching-found none h = Watching-first
        Watching-found (some a) h = Watching-last a.status a (unresolved a h)

        Watching-send : Keeps (Watching w) (send env g actor x c shaped)
        unfolding send
        Watching-send =
            Keeps-then (λ rows. OfSome (AgreesAttempt w) (last rows)) (gets (list_for_intent x.id))
              _ (Ensures-gets _ _ (last-Agrees x.id)) λ rows h. Watching-found (last rows) h

      Watching-ready :
          (chama_id : ℕ) (x : PaymentIntent) (connection_id : ℕ)
          → AgreesIntent w x
          → Keeps (Watching w) (prepare_and_send env g actor chama_id x connection_id)
      unfolding prepare_and_send
      Watching-ready chama_id x connection_id agrees =
          Keeps-bind (query (prepare g chama_id x connection_id)) _ (Keeps-query _)
            λ ready. Watching-send x agrees ready.0 ready.1

      Watching-initiate_in :
          (status : PaymentIntentStatus) (chama_id : ℕ) (x : PaymentIntent) (connection_id : ℕ)
          → AgreesIntent w x
          → Keeps (Watching w) (initiate_in status env g actor chama_id x connection_id)
      unfolding initiate_in completed
      Watching-initiate_in PaymentIntentStatus.failed chama_id x k agrees = search view_rules
      Watching-initiate_in PaymentIntentStatus.succeeded chama_id x k agrees =
          search view_rules depth 10
      Watching-initiate_in PaymentIntentStatus.pending chama_id x k agrees =
          Watching-ready chama_id x k agrees
      Watching-initiate_in PaymentIntentStatus.processing chama_id x k agrees =
          Watching-ready chama_id x k agrees

      startable-Agrees :
          (chama_id intent_id : ℕ) (db : Db)
          → IsKept w db
          → Returns (AgreesIntent w) (startable actor chama_id intent_id db)
      unfolding startable get_intent_in_chama
      startable-Agrees chama_id intent_id db h =
          after-Returns (AgreesIntent w) (get_chama_or_404 chama_id db) _ λ _ _.
            after-Returns (AgreesIntent w) (authorize_chama_access actor chama_id db) _ λ _ _.
              after-Returns (AgreesIntent w)
                (or_raise (get_intent_in_chama chama_id intent_id db) _) _
                λ x found.
                  after-Returns (AgreesIntent w) (authorize_chama_write actor chama_id db) _
                    λ caller _.
                      after-Returns (AgreesIntent w)
                        (require_own_or_leadership caller x.membership_id) _
                        λ _ _. Returns-ok (AgreesIntent w) x (
                          All-find? (AgreesIntent w) (intent_in chama_id intent_id) db.intents x
                            h.intents (or_raise-ok _ _ found))

      pub Watching-initiate :
          (chama_id intent_id connection_id : ℕ)
          → Keeps (Watching w) (initiate env g actor chama_id intent_id connection_id)
      unfolding initiate
      Watching-initiate chama_id intent_id connection_id =
          Keeps-then (AgreesIntent w) (query (startable actor chama_id intent_id)) _
            (Ensures-query _ _ (startable-Agrees chama_id intent_id))
            λ x agrees. Watching-initiate_in x.status chama_id x connection_id agrees
