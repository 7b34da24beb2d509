-- ===== src/Payment/Charge.antt =====
-- When `initiate` asks the provider for money, and when it does not.
use chamacore.Prelude.{
  ℕ, ◌≡◌, ◌≢◌, refl, sym, ◌∙◌, Bool, true, false, String, Option, none, some, truthy, if◌then◌else◌,
}
use chamacore.Data.{
  Db, Env, User, PaymentConnection, PaymentIntent, PaymentIntentStatus, PaymentAttempt,
  PaymentAttemptStatus, ProviderTransactionStatus,
}
use chamacore.Session.{Session, Result, ok, err, pure, continue, if_none, or_raise, ◌>>=◌}
use chamacore.Session.Rules.{after-ok}
use chamacore.Session.Everywhere.{Returns, or_raise-ok}
use chamacore.Access.{
  get_chama_or_404, authorize_chama_access, authorize_chama_write, require_own_or_leadership,
}
use chamacore.Session.Gives.{Gives, Gives-bind, Gives-then, Gives-pure}
use chamacore.Payment.Gateway.{
  Gateway, ConnectionContext, PaymentAttemptRequest, ChargeReply, QueryReply, StatusQueryResult,
}
use chamacore.Payment.Store.{list_for_intent, last, get_intent_in_chama}
use chamacore.Payment.Attempt.{context_of}
use chamacore.Payment.Resolve.{query_and_resolve, apply_query, resolve_in, resolve_attempt_success}
use chamacore.Payment.Initiate.{
  continue_resolved, resolve_pending, continue_last, send, prepare, prepare_and_send, initiate_in,
  initiate, startable, shaped_credentials,
}
use chamacore.Payment.Final.Watch.{is_final_attempt}

-- The same gateway with another answer to a request for money.
abbrev pub charging :
    Gateway → (String → PaymentAttemptRequest → ConnectionContext → ChargeReply) → Gateway
charging g f = record g { create_payment_attempt = f }

-- The provider does not say that a charge has failed.
unfoldable pub NotFailed : QueryReply → Type 0
NotFailed QueryReply.unavailable = Unit
NotFailed (QueryReply.answered r) = r.normalized_status ≢ ProviderTransactionStatus.failed

abbrev Succeeded : Option PaymentAttempt → Type 0
Succeeded none = Unit
Succeeded (some a) = a.status ≡ PaymentAttemptStatus.succeeded

resolve_attempt_success-Gives :
    (env : Env) (a : PaymentAttempt)
    → Gives (λ b. b.status ≡ PaymentAttemptStatus.succeeded) (resolve_attempt_success env a)
unfolding resolve_attempt_success
resolve_attempt_success-Gives env a = Gives-bind _ _ _ λ _. Gives-bind _ _ _ λ x.
    Gives-bind _ _ _
      λ _. Gives-bind _ _ _ λ _. Gives-bind _ _ _ λ _. Gives-bind _ _ _ λ _. Gives-pure _ _ refl

resolve_in-Gives :
    (status : ProviderTransactionStatus) (env : Env) (a : PaymentAttempt) (r : StatusQueryResult)
    → status ≢ ProviderTransactionStatus.failed
    → Gives Succeeded (resolve_in status env a r)
unfolding resolve_in
resolve_in-Gives ProviderTransactionStatus.succeeded env a r h =
    Gives-then Succeeded (λ b. b.status ≡ PaymentAttemptStatus.succeeded)
      (resolve_attempt_success env a) _ (resolve_attempt_success-Gives env a)
      λ b done. Gives-pure Succeeded (some b) done
resolve_in-Gives ProviderTransactionStatus.failed env a r h = elim (h refl) [ ]
resolve_in-Gives ProviderTransactionStatus.pending env a r h = Gives-pure Succeeded none tt
resolve_in-Gives ProviderTransactionStatus.unknown env a r h = Gives-pure Succeeded none tt

apply_query-Gives :
    (env : Env) (a : PaymentAttempt) (reply : QueryReply)
    → NotFailed reply
    → Gives Succeeded (apply_query env a reply)
unfolding apply_query NotFailed
apply_query-Gives env a QueryReply.unavailable h = Gives-pure Succeeded none tt
apply_query-Gives env a (QueryReply.answered r) h =
    Gives-bind _ _ _ λ _. Gives-bind _ _ _ λ _. resolve_in-Gives r.normalized_status env a r h

module _ (env : Env) (g : Gateway) (a : PaymentAttempt)
    (h : (shaped id : String) (k : ConnectionContext)
      → NotFailed (g.query_payment_status shaped id a.client_reference k)) where
  query_and_resolve-Gives :
      (c : PaymentConnection) (chama_id : ℕ) (shaped : String)
      → Gives Succeeded (query_and_resolve env g a c chama_id shaped)
  unfolding query_and_resolve if_none
  query_and_resolve-Gives c chama_id shaped = asked a.provider_request_id
    where
      truthful :
          (b : Bool) (reply : QueryReply)
          → NotFailed reply
          → Gives Succeeded (if b then apply_query env a reply else pure none)
      truthful true reply k = apply_query-Gives env a reply k
      truthful false reply k = Gives-pure Succeeded none tt

      asked :
          (o : Option String)
          → Gives Succeeded (
              if_none o (pure none) λ id.
                if truthy (some id)
                then apply_query env a
                    (g.query_payment_status shaped id a.client_reference (context_of c chama_id))
                else pure none)
      asked none = Gives-pure Succeeded none tt
      asked (some id) = truthful (truthy (some id)) _ (h shaped id (context_of c chama_id))

  module _ (f : String → PaymentAttemptRequest → ConnectionContext → ChargeReply) (actor : User)
      (x : PaymentIntent) where
    -- What follows a query does not depend on the answer to a request for money.
    after_query :
        (c : PaymentConnection) (shaped : String) (r : Result (Option PaymentAttempt)) (s : Session)
        → Returns Succeeded r
        → continue r
            (λ o. if_none o (pure a) λ now. continue_resolved now.status env g actor x c shaped now)
            s
          ≡ continue r
              (λ o.
                if_none o
                  (pure a)
                  λ now. continue_resolved now.status env (charging g f) actor x c shaped now)
              s
    unfolding Returns if_none continue_resolved
    after_query c shaped (ok none) s h = refl
    after_query c shaped (ok (some now)) s h = rw h refl
    after_query c shaped (err e) s h = refl

    resolve_pending-same :
        (c : PaymentConnection) (shaped : String) (s : Session)
        → resolve_pending env g actor x c shaped a s
          ≡ resolve_pending env (charging g f) actor x c shaped a s
    unfolding resolve_pending ◌>>=◌ query_and_resolve
    resolve_pending-same c shaped s =
        let out = query_and_resolve env g a c x.chama_id shaped s in
        after_query c shaped out.0 out.1 ((query_and_resolve-Gives c x.chama_id shaped).at s)

    continue_last-same :
        (status : PaymentAttemptStatus) (c : PaymentConnection) (shaped : String) (s : Session)
        → is_final_attempt status ≡ false
        → continue_last status env g actor x c shaped a s
          ≡ continue_last status env (charging g f) actor x c shaped a s
    unfolding continue_last is_final_attempt
    continue_last-same PaymentAttemptStatus.succeeded c shaped s still = cc
    continue_last-same PaymentAttemptStatus.failed c shaped s still = cc
    continue_last-same PaymentAttemptStatus.initiated c shaped s still =
        resolve_pending-same c shaped s
    continue_last-same PaymentAttemptStatus.timeout c shaped s still =
        resolve_pending-same c shaped s
    continue_last-same PaymentAttemptStatus.unknown c shaped s still =
        resolve_pending-same c shaped s

    module _ (s : Session) (in_flight : last (list_for_intent x.id s.flushed) ≡ some a)
        (still : is_final_attempt a.status ≡ false) where
      send-same :
          (c : PaymentConnection) (shaped : String)
          → send env g actor x c shaped s ≡ send env (charging g f) actor x c shaped s
      unfolding send ◌>>=◌ if_none
      send-same c shaped = rw in_flight (continue_last-same a.status c shaped s still)

      prepared-same :
          (r : Result (PaymentConnection × String))
          → continue r (λ ready. send env g actor x ready.0 ready.1) s
            ≡ continue r (λ ready. send env (charging g f) actor x ready.0 ready.1) s
      prepared-same (ok ready) = send-same ready.0 ready.1
      prepared-same (err e) = refl

      initiate_in-same :
          (status : PaymentIntentStatus) (chama_id connection_id : ℕ)
          → initiate_in status env g actor chama_id x connection_id s
            ≡ initiate_in status env (charging g f) actor chama_id x connection_id s
      unfolding initiate_in prepare_and_send ◌>>=◌ prepare shaped_credentials
      initiate_in-same PaymentIntentStatus.failed chama_id k = refl
      initiate_in-same PaymentIntentStatus.succeeded chama_id k = refl
      initiate_in-same PaymentIntentStatus.pending chama_id k =
          prepared-same (prepare g chama_id x k s.flushed)
      initiate_in-same PaymentIntentStatus.processing chama_id k =
          prepared-same (prepare g chama_id x k s.flushed)

      started-same :
          (chama_id connection_id : ℕ) (r : Result PaymentIntent)
          → ((y : PaymentIntent) → r ≡ ok y → y ≡ x)
          → continue r (λ y. initiate_in y.status env g actor chama_id y connection_id) s
            ≡ continue r
                (λ y. initiate_in y.status env (charging g f) actor chama_id y connection_id)
                s
      started-same chama_id k (ok y) only = rw (only y refl) (initiate_in-same x.status chama_id k)
      started-same chama_id k (err e) only = refl

-- The intent that a caller may start is the one of the Chama with the id.
pub startable-found :
    (actor : User) (chama_id intent_id : ℕ) (db : Db) (x y : PaymentIntent)
    → get_intent_in_chama chama_id intent_id db ≡ some x
    → startable actor chama_id intent_id db ≡ ok y
    → y ≡ x
unfolding startable
startable-found actor chama_id intent_id db x y found h =
    let (chama, _, h1) = after-ok (get_chama_or_404 chama_id db) _ h in
    let (member, _, h2) = after-ok (authorize_chama_access actor chama_id db) _ h1 in
    let (z, there, h3) = after-ok (or_raise (get_intent_in_chama chama_id intent_id db) _) _ h2 in
    let (caller, _, h4) = after-ok (authorize_chama_write actor chama_id db) _ h3 in
    let (u, _, h5) = after-ok (require_own_or_leadership caller z.membership_id) _ h4 in
    let same : some z ≡ some x = sym (or_raise-ok _ _ there) ∙ found in cc

-- While the last attempt of an intent is in flight or ambiguous, and the provider does not answer a query
-- for it that the charge has failed, starting the intent asks for no money: what `initiate` returns or
-- raises, and the state that it leaves, are the same whatever the provider would answer to a request.
pub initiate_no_duplicate :
    (env : Env) (g : Gateway) (actor : User) (chama_id intent_id connection_id : ℕ)
    (x : PaymentIntent) (a : PaymentAttempt) (s : Session)
    → get_intent_in_chama chama_id intent_id s.flushed ≡ some x
    → last (list_for_intent x.id s.flushed) ≡ some a
    → is_final_attempt a.status ≡ false
    → ((shaped id : String) (k : ConnectionContext)
        → NotFailed (g.query_payment_status shaped id a.client_reference k))
    → (f : String → PaymentAttemptRequest → ConnectionContext → ChargeReply)
    → initiate env g actor chama_id intent_id connection_id s
      ≡ initiate env (charging g f) actor chama_id intent_id connection_id s
unfolding initiate ◌>>=◌
initiate_no_duplicate env g actor chama_id intent_id connection_id x a s found in_flight still
      unfailed f =
    started-same env g a unfailed f actor x s in_flight still chama_id connection_id
      (startable actor chama_id intent_id s.flushed)
      λ y h. startable-found actor chama_id intent_id s.flushed x y found h
