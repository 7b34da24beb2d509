-- ===== src/Payment/Final/Create.antt =====
-- The creation and the list of intents move nothing that is final.
use chamacore.Prelude.{ℕ, suc, zero, ◌≡◌, refl, sym, ◌∙◌, Option, none, some, List, [], ◌∷◌}
use chamacore.Prelude.Table.{All, page, skip, keep}
use chamacore.Data.{Db, Env, User, PaymentIntent}
use chamacore.Session.{gets, query, modify, commit}
use chamacore.Session.Rules.{
  Keeps, Keeps-bind, Keeps-pure, Keeps-gets, Keeps-query, Keeps-option, Keeps-lift, Keeps-if,
}
use chamacore.Session.Everywhere.{Keeps-then, Ensures-gets, Keeps-commit}
use chamacore.Access.{authorize_chama_access}
use chamacore.Payment.Gateway.{Gateway}
use chamacore.Payment.Store.{
  land_intents, intent_refused, add_intent, list_intents_by_chama, list_for_intent, last,
  get_by_idempotency_key, listed,
}
use chamacore.Payment.Transition.{transition_intent}
use chamacore.Payment.Intent.{
  Order, create, authorize_order, new_intent, insert_intent, recover, fail_stale, repair,
  repair_all, list_intents, chama_for, scope, is_stale,
}
use chamacore.Payment.Final.Settle.{view_rules}
use chamacore.Payment.Final.Steps.{Watching-land_intents, Watching-add_intent, Watching-transition}
use chamacore.Payment.Final.Watch.{Watched, IsKept, Watching, AgreesIntent, IsFresh, All-select}

module _ {A : Type 0} (P : A → Type 0) where
  All-skip : (n : ℕ) (xs : List A) → All P xs → All P (skip n xs)
  All-skip zero xs a = a
  All-skip (suc n) [] a = a
  All-skip (suc n) (x ∷ xs) a = All-skip n xs a.1

  All-keep : (n : ℕ) (xs : List A) → All P xs → All P (keep n xs)
  All-keep zero xs a = tt
  All-keep (suc n) [] a = tt
  All-keep (suc n) (x ∷ xs) a = (a.0, All-keep n xs a.1)

  All-page : (limit : Option ℕ) (offset : ℕ) (xs : List A) → All P xs → All P (page limit offset xs)
  All-page none offset xs a = a
  All-page (some limit) offset xs a = All-keep limit (skip offset xs) (All-skip offset xs a)

module _ (w : Watched) where
  Watching-recover : (x : PaymentIntent) → Keeps (Watching w) (recover x)
  unfolding recover
  Watching-recover x = search view_rules depth 20

  Watching-insert :
      (env : Env) (x : PaymentIntent)
      → IsFresh w env
      → x.id ≡ env.row_id
      → Keeps (Watching w) (insert_intent env x)
  unfolding insert_intent
  Watching-insert env x fresh_ids is_new =
      Keeps-bind (land_intents env.concurrent_intents) _
        (Watching-land_intents env.concurrent_intents fresh_ids.landed)
        λ _. Keeps-bind (gets (intent_refused x)) _ (Keeps-gets _) λ refused.
          Keeps-if refused _ _ (Watching-recover x) (
            Keeps-bind (modify (add_intent x)) _
              (Watching-add_intent x (λ e. fresh_ids.new_intent (sym is_new ∙ e)))
              λ _. Keeps-bind commit _ Keeps-commit λ _. Keeps-pure x)

  pub Watching-create :
      (env : Env) (g : Gateway) (actor : User) (chama_id : ℕ) (o : Order)
      → IsFresh w env
      → Keeps (Watching w) (create env g actor chama_id o)
  unfolding create new_intent
  Watching-create env g actor chama_id o fresh_ids =
      Keeps-bind (query (authorize_order actor chama_id o)) _ (Keeps-query _) λ _.
        Keeps-bind (gets (get_by_idempotency_key chama_id o.idempotency_key)) _ (Keeps-gets _)
          λ existing.
            Keeps-option existing _ _
              (Watching-insert env (new_intent env g actor chama_id o) fresh_ids refl)
              λ found. Keeps-lift _

  Watching-repair : (x : PaymentIntent) → AgreesIntent w x → Keeps (Watching w) (repair x)
  unfolding repair fail_stale
  Watching-repair x agrees = Keeps-bind (gets (list_for_intent x.id)) _ (Keeps-gets _) λ attempts.
      Keeps-if (is_stale x (last attempts)) _ _
        (Keeps-bind (transition_intent x _ _ _) _ (Watching-transition x _ _ _ agrees)
          λ repaired. Keeps-pure _)
        (Keeps-pure _)

  Watching-repair_all :
      (xs : List PaymentIntent) → All (AgreesIntent w) xs → Keeps (Watching w) (repair_all xs)
  unfolding repair_all
  Watching-repair_all [] a = Keeps-pure _
  Watching-repair_all (x ∷ xs) a =
      Keeps-bind (repair x) _ (Watching-repair x a.0)
        λ first. Keeps-bind (repair_all xs) _ (Watching-repair_all xs a.1) λ rest. Keeps-pure _

  listed-Agrees :
      (chama_id : ℕ) (limit : Option ℕ) (offset : ℕ) (member : Option ℕ) (db : Db)
      → IsKept w db
      → All (AgreesIntent w) (list_intents_by_chama chama_id limit offset member db)
  unfolding list_intents_by_chama
  listed-Agrees chama_id limit offset member db h =
      All-page (AgreesIntent w) limit offset _
        (All-select (AgreesIntent w) (listed chama_id member) db.intents h.intents)

  pub Watching-list :
      (actor : User) (chama_id : ℕ) (limit : Option ℕ) (offset : ℕ)
      → Keeps (Watching w) (list_intents actor chama_id limit offset)
  unfolding list_intents chama_for
  Watching-list actor chama_id limit offset =
      Keeps-bind (chama_for actor chama_id) _ (search view_rules depth 10) λ _.
        Keeps-bind (query (authorize_chama_access actor chama_id)) _ (Keeps-query _) λ caller.
          Keeps-then (All (AgreesIntent w))
            (gets (list_intents_by_chama chama_id limit offset (scope caller))) _
            (Ensures-gets _ _ (listed-Agrees chama_id limit offset (scope caller)))
            λ rows agree.
              Keeps-bind (repair_all rows) _ (Watching-repair_all rows agree)
                λ repaired. search view_rules depth 10
