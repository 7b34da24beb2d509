-- ===== src/Payment/Books.antt =====
-- Every operation on a payment, whether it returns or raises, leaves a sound ledger in every view: only
-- the settlement of a contribution posts to it.
use chamacore.Prelude.{ℕ, ◌≡◌, refl, String, Option, none, some, List, [], ◌∷◌}
use chamacore.Data.{
  Env, User, PaymentConnection, PaymentIntent, PaymentIntentStatus, PaymentAttempt,
  PaymentAttemptStatus, PaymentTransferSource, ProviderTransaction, ProviderTransactionStatus,
}
use chamacore.Session.{modify}
use chamacore.Session.Rules.{Keeps, Keeps-bind, Keeps-pure, keeps_rules}
use chamacore.Contribution.Books.{sound-settle}
use chamacore.Ledger.Invariant.{IsSoundSession}
use chamacore.Ledger.Sound.{sound_rules, sound-modify}
use chamacore.Payment.Gateway.{Gateway, QueryReply, StatusQueryResult}
use chamacore.Payment.Store.{
  update_intent, add_intent, update_attempt, add_attempt, update_transaction,
  add_provider_transaction, land_intents,
}
use chamacore.Payment.Transition.{transition_intent}
use chamacore.Payment.Intent.{
  Order, create, insert_intent, recover, chama_for, repair, repair_all, list_intents, fail_stale,
}
use chamacore.Payment.Attempt.{create_attempt, save_attempt, insert_attempt, move_intent}
use chamacore.Payment.Settlement.{settle_linked_contribution, settle_link, system_user}
use chamacore.Payment.Resolve.{
  ensure_transaction, intent_of, refuse_duplicate, resolve_attempt_success, resolve_attempt_failure,
  resolve_in, apply_query, query_and_resolve,
}
use chamacore.Payment.Initiate.{
  give_up, retry, retry_resolved, prepare_and_send, continue_resolved, resolve_pending,
  continue_last, first_attempt, send, completed, initiate_in, initiate,
}

pub sound-update_intent :
    (id : ℕ) (f : PaymentIntent → PaymentIntent)
    → Keeps IsSoundSession (modify (update_intent id f))
unfolding update_intent
sound-update_intent id f = sound-modify (update_intent id f) (λ db. refl) (λ db. refl)

sound-add_intent : (x : PaymentIntent) → Keeps IsSoundSession (modify (add_intent x))
unfolding add_intent
sound-add_intent x = sound-modify (add_intent x) (λ db. refl) (λ db. refl)

pub sound-update_attempt :
    (id : ℕ) (f : PaymentAttempt → PaymentAttempt)
    → Keeps IsSoundSession (modify (update_attempt id f))
unfolding update_attempt
sound-update_attempt id f = sound-modify (update_attempt id f) (λ db. refl) (λ db. refl)

sound-add_attempt : (a : PaymentAttempt) → Keeps IsSoundSession (modify (add_attempt a))
unfolding add_attempt
sound-add_attempt a = sound-modify (add_attempt a) (λ db. refl) (λ db. refl)

pub sound-update_transaction :
    (id : ℕ) (f : ProviderTransaction → ProviderTransaction)
    → Keeps IsSoundSession (modify (update_transaction id f))
unfolding update_transaction
sound-update_transaction id f = sound-modify (update_transaction id f) (λ db. refl) (λ db. refl)

sound-add_transaction :
    (t : ProviderTransaction) → Keeps IsSoundSession (modify (add_provider_transaction t))
unfolding add_provider_transaction
sound-add_transaction t = sound-modify (add_provider_transaction t) (λ db. refl) (λ db. refl)

sound-land_intents : (rows : List PaymentIntent) → Keeps IsSoundSession (land_intents rows)
unfolding land_intents
sound-land_intents rows = record {
  at = λ s h. record {
    book = h.book;
    durable = h.durable;
    history = h.history;
    same_transactions = h.same_transactions;
    same_accounts = h.same_accounts;
  };
}

ruleset row_rules = (
  sound_rules, sound-update_intent, sound-add_intent, sound-update_attempt, sound-add_attempt,
  sound-update_transaction, sound-add_transaction, sound-land_intents,
)

sound-transition :
    (x : PaymentIntent) (to : PaymentIntentStatus) (source : PaymentTransferSource)
    (user : Option ℕ)
    → Keeps IsSoundSession (transition_intent x to source user)
unfolding transition_intent
sound-transition x to source user = search row_rules depth 20

sound-recover : (x : PaymentIntent) → Keeps IsSoundSession (recover x)
unfolding recover
sound-recover x = search row_rules depth 20

pub sound-create :
    (env : Env) (g : Gateway) (actor : User) (chama_id : ℕ) (o : Order)
    → Keeps IsSoundSession (create env g actor chama_id o)
unfolding create insert_intent
sound-create env g actor chama_id o = search (row_rules, sound-recover) depth 40

sound-repair : (x : PaymentIntent) → Keeps IsSoundSession (repair x)
unfolding repair fail_stale
sound-repair x = search (row_rules, sound-transition) depth 20

sound-repair_all : (xs : List PaymentIntent) → Keeps IsSoundSession (repair_all xs)
unfolding repair_all
sound-repair_all [] = search keeps_rules
sound-repair_all (x ∷ xs) =
    Keeps-bind (repair x) _ (sound-repair x)
      λ first. Keeps-bind (repair_all xs) _ (sound-repair_all xs) λ rest. Keeps-pure _

pub sound-list_intents :
    (actor : User) (chama_id : ℕ) (limit : Option ℕ) (offset : ℕ)
    → Keeps IsSoundSession (list_intents actor chama_id limit offset)
unfolding list_intents chama_for
sound-list_intents actor chama_id limit offset = search (row_rules, sound-repair_all) depth 40

sound-move :
    (x : PaymentIntent) (to : Option PaymentIntentStatus) (source : PaymentTransferSource)
    (user : Option ℕ)
    → Keeps IsSoundSession (move_intent x to source user)
unfolding move_intent
sound-move x none source user = search keeps_rules
sound-move x (some to) source user = search (keeps_rules, sound-transition) depth 10

sound-insert_attempt :
    (a : PaymentAttempt) (t : ProviderTransaction) → Keeps IsSoundSession (insert_attempt a t)
unfolding insert_attempt
sound-insert_attempt a t = search row_rules depth 20

sound-save :
    (actor : User) (x : PaymentIntent) (r : PaymentAttempt × ProviderTransaction)
    → Keeps IsSoundSession (save_attempt actor x r)
unfolding save_attempt
sound-save actor x (a, t) = search (row_rules, sound-insert_attempt, sound-move) depth 20

sound-create_attempt :
    (env : Env) (g : Gateway) (actor : User) (x : PaymentIntent) (c : PaymentConnection)
    (shaped : String) (n : ℕ)
    → Keeps IsSoundSession (create_attempt env g actor x c shaped n)
unfolding create_attempt
sound-create_attempt env g actor x c shaped n = search (row_rules, sound-save) depth 20

pub sound-ensure :
    (a : PaymentAttempt) (status : ProviderTransactionStatus)
    → Keeps IsSoundSession (ensure_transaction a status)
unfolding ensure_transaction
sound-ensure a status = search row_rules depth 20

pub sound-intent_of : (a : PaymentAttempt) → Keeps IsSoundSession (intent_of a)
unfolding intent_of
sound-intent_of a = search keeps_rules depth 10

pub sound-refuse : (a : PaymentAttempt) → Keeps IsSoundSession (refuse_duplicate a)
unfolding refuse_duplicate
sound-refuse a = search keeps_rules depth 10

ruleset payment_rules = (
  row_rules, sound-move, sound-ensure, sound-intent_of, sound-refuse, sound-create_attempt,
  sound-transition,
)

sound-give_up :
    (actor : User) (x : PaymentIntent) (message : String)
    → Keeps IsSoundSession (give_up actor x message)
unfolding give_up
sound-give_up actor x message = search payment_rules depth 20

module _ (env : Env) (alone : env.concurrent ≡ []) where
  pub sound-settlement :
      (x : PaymentIntent) → Keeps IsSoundSession (settle_linked_contribution env x)
  unfolding settle_linked_contribution settle_link
  sound-settlement x = search (keeps_rules, sound-settle env alone (system_user env)) depth 20

  sound-success : (a : PaymentAttempt) → Keeps IsSoundSession (resolve_attempt_success env a)
  unfolding resolve_attempt_success
  sound-success a = search (payment_rules, sound-settlement) depth 30

  sound-failure :
      (a : PaymentAttempt) (code message : Option String)
      → Keeps IsSoundSession (resolve_attempt_failure env a code message)
  unfolding resolve_attempt_failure
  sound-failure a code message = search payment_rules depth 20

  sound-resolve_in :
      (status : ProviderTransactionStatus) (a : PaymentAttempt) (r : StatusQueryResult)
      → Keeps IsSoundSession (resolve_in status env a r)
  unfolding resolve_in
  sound-resolve_in ProviderTransactionStatus.succeeded a r =
      search (keeps_rules, sound-success) depth 10
  sound-resolve_in ProviderTransactionStatus.failed a r =
      search (keeps_rules, sound-failure) depth 10
  sound-resolve_in ProviderTransactionStatus.pending a r = search keeps_rules
  sound-resolve_in ProviderTransactionStatus.unknown a r = search keeps_rules

  sound-apply_query :
      (a : PaymentAttempt) (r : QueryReply) → Keeps IsSoundSession (apply_query env a r)
  unfolding apply_query
  sound-apply_query a QueryReply.unavailable = search keeps_rules
  sound-apply_query a (QueryReply.answered r) = search (payment_rules, sound-resolve_in) depth 20

  module _ (g : Gateway) (actor : User) where
    sound-query :
        (a : PaymentAttempt) (c : PaymentConnection) (chama_id : ℕ) (shaped : String)
        → Keeps IsSoundSession (query_and_resolve env g a c chama_id shaped)
    unfolding query_and_resolve
    sound-query a c chama_id shaped = search (keeps_rules, sound-apply_query) depth 10

    module _ (x : PaymentIntent) (c : PaymentConnection) (shaped : String) where
      sound-retry : (a : PaymentAttempt) → Keeps IsSoundSession (retry env g actor x c shaped a)
      unfolding retry
      sound-retry a = search (payment_rules, sound-give_up) depth 10

      sound-again :
          (a : PaymentAttempt) → Keeps IsSoundSession (retry_resolved env g actor x c shaped a)
      unfolding retry_resolved
      sound-again a = search (payment_rules, sound-retry) depth 20

      sound-resolved :
          (status : PaymentAttemptStatus) (a : PaymentAttempt)
          → Keeps IsSoundSession (continue_resolved status env g actor x c shaped a)
      unfolding continue_resolved
      sound-resolved PaymentAttemptStatus.succeeded a = search keeps_rules
      sound-resolved PaymentAttemptStatus.initiated a = sound-again a
      sound-resolved PaymentAttemptStatus.failed a = sound-again a
      sound-resolved PaymentAttemptStatus.timeout a = sound-again a
      sound-resolved PaymentAttemptStatus.unknown a = sound-again a

      sound-pending :
          (a : PaymentAttempt) → Keeps IsSoundSession (resolve_pending env g actor x c shaped a)
      unfolding resolve_pending
      sound-pending a = search (keeps_rules, sound-query, sound-resolved) depth 20

      sound-last :
          (status : PaymentAttemptStatus) (a : PaymentAttempt)
          → Keeps IsSoundSession (continue_last status env g actor x c shaped a)
      unfolding continue_last
      sound-last PaymentAttemptStatus.succeeded a = search keeps_rules
      sound-last PaymentAttemptStatus.failed a = sound-retry a
      sound-last PaymentAttemptStatus.initiated a = sound-pending a
      sound-last PaymentAttemptStatus.timeout a = sound-pending a
      sound-last PaymentAttemptStatus.unknown a = sound-pending a

      sound-first : Keeps IsSoundSession (first_attempt env g actor x c shaped)
      unfolding first_attempt
      sound-first = search payment_rules depth 20

      sound-send : Keeps IsSoundSession (send env g actor x c shaped)
      unfolding send
      sound-send = search (keeps_rules, sound-first, sound-last) depth 20

    sound-ready :
        (chama_id : ℕ) (x : PaymentIntent) (connection_id : ℕ)
        → Keeps IsSoundSession (prepare_and_send env g actor chama_id x connection_id)
    unfolding prepare_and_send
    sound-ready chama_id x connection_id = search (keeps_rules, sound-send) depth 20

    sound-initiate_in :
        (status : PaymentIntentStatus) (chama_id : ℕ) (x : PaymentIntent) (connection_id : ℕ)
        → Keeps IsSoundSession (initiate_in status env g actor chama_id x connection_id)
    unfolding initiate_in completed
    sound-initiate_in PaymentIntentStatus.failed chama_id x connection_id = search keeps_rules
    sound-initiate_in PaymentIntentStatus.succeeded chama_id x connection_id =
        search keeps_rules depth 10
    sound-initiate_in PaymentIntentStatus.pending chama_id x connection_id =
        sound-ready chama_id x connection_id
    sound-initiate_in PaymentIntentStatus.processing chama_id x connection_id =
        sound-ready chama_id x connection_id

    pub sound-initiate :
        (chama_id intent_id connection_id : ℕ)
        → Keeps IsSoundSession (initiate env g actor chama_id intent_id connection_id)
    unfolding initiate
    sound-initiate chama_id intent_id connection_id =
        search (keeps_rules, sound-initiate_in) depth 20
