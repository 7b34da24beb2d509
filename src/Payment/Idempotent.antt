-- ===== src/Payment/Idempotent.antt =====
-- Creating an intent again with the same key and the same request gives back the intent.
use text.Mathlib.TextPositions.{eq_refl}
use chamacore.Prelude.{
  ℕ, ◌≡◌, refl, ap, subst, true, Option, none, some, String, List, ◌∷◌, ◌++◌, inl, inr, ==_refl,
  opt_eq, opt_str_eq, Bool-cases,
}
use chamacore.Data.{Db, Env, User, PaymentIntent}
use chamacore.Session.{
  Session, fresh, Result, ok, err, AppError, query, gets, lift, modify, commit, rollback, raise,
  integrity_error, if_none, ◌>>=◌,
}
use chamacore.Session.Rules.{ok-injective, reading}
use chamacore.Access.{
  get_chama_or_404, authorize_chama_access, authorize_chama_write, get_target_membership,
  membership_of,
}
use chamacore.Payment.Gateway.{Gateway}
use chamacore.Payment.Store.{
  get_by_idempotency_key, add_intent, intent_refused, land_intents, with_intents,
}
use chamacore.Payment.Intent.{
  Order, create, authorize_order, new_intent, insert_intent, recover, match_idempotent_create,
  validate_linked_contribution,
}

opt_eq_refl : (o : Option ℕ) → opt_eq o o ≡ true
opt_eq_refl none = refl
opt_eq_refl (some a) = ==_refl a

opt_str_eq_refl : (o : Option String) → opt_str_eq o o ≡ true
opt_str_eq_refl none = refl
opt_str_eq_refl (some a) = eq_refl a

-- An intent that differs at most in its id matches.
match_idempotent_create_refl :
    (env env' : Env) (g : Gateway) (actor : User) (chama_id : ℕ) (o : Order)
    → match_idempotent_create
        (new_intent env g actor chama_id o)
        (new_intent env' g actor chama_id o)
      ≡ ok (new_intent env g actor chama_id o)
unfolding match_idempotent_create new_intent
match_idempotent_create_refl env env' g actor chama_id o =
    simp (eq_refl, ==_refl, opt_eq_refl, opt_str_eq_refl)

module _ (g : Gateway) (actor : User) (chama_id : ℕ) (o : Order) where
  -- A result that every later request repeats.
  abbrev Repeats : Result PaymentIntent × Session → Type 0
  Repeats out =
      (i : PaymentIntent) (u : Session)
      → out ≡ (ok i, u)
      → (env' : Env) → create env' g actor chama_id o u ≡ (ok i, u)

  raised : (e : AppError) (s : Session) → Repeats (err e, s)
  raised e s i u h = cc

  -- A request that finds the key used by an intent that matches.
  create-found :
      (env env' : Env) (db : Db) (earlier : List Db) (e i : PaymentIntent)
      → authorize_order actor chama_id o db ≡ ok tt
      → get_by_idempotency_key chama_id o.idempotency_key db ≡ some e
      → match_idempotent_create e (new_intent env g actor chama_id o) ≡ ok i
      → create env' g actor chama_id o (fresh db earlier) ≡ (ok i, fresh db earlier)
  unfolding create ◌>>=◌ if_none new_intent match_idempotent_create
  create-found env env' db earlier e i may there matched =
      rw (may, there) (ap (λ (r : Result PaymentIntent). (r, fresh db earlier)) matched)

  found-Repeats :
      (env : Env) (db : Db) (earlier : List Db) (e : PaymentIntent)
      → authorize_order actor chama_id o db ≡ ok tt
      → get_by_idempotency_key chama_id o.idempotency_key db ≡ some e
      → Repeats (match_idempotent_create e (new_intent env g actor chama_id o), fresh db earlier)
  found-Repeats env db earlier e may there i u h env' =
      subst (λ (t : Session). create env' g actor chama_id o t ≡ (ok i, t))
        (ap (λ (p : Result PaymentIntent × Session). p.1) h)
        (create-found env env' db earlier e i may there
          (ap (λ (p : Result PaymentIntent × Session). p.0) h))

  key_there :
      (env : Env) (db : Db)
      → get_by_idempotency_key chama_id o.idempotency_key
          (add_intent (new_intent env g actor chama_id o) db)
        ≡ some (new_intent env g actor chama_id o)
  unfolding get_by_idempotency_key add_intent new_intent
  key_there env db = rw (==_refl chama_id, eq_refl o.idempotency_key) refl

  -- Whether the order is allowed does not depend on the intents.
  may_again :
      (rows : List PaymentIntent) (db : Db)
      → authorize_order actor chama_id o db ≡ ok tt
      → authorize_order actor chama_id o (record db { intents = rows }) ≡ ok tt
  unfolding authorize_order authorize_chama_access authorize_chama_write get_chama_or_404
      get_target_membership validate_linked_contribution membership_of
  may_again rows db may = may

  recover-Repeats :
      (env : Env) (landed : Db) (earlier : List Db)
      → authorize_order actor chama_id o landed ≡ ok tt
      → Repeats (recover (new_intent env g actor chama_id o) (fresh landed earlier))
  unfolding recover rollback ◌>>=◌ new_intent if_none
  recover-Repeats env landed earlier may =
      existing (get_by_idempotency_key chama_id o.idempotency_key landed) refl
    where
      existing :
          (found : Option PaymentIntent)
          → get_by_idempotency_key chama_id o.idempotency_key landed ≡ found
          → Repeats (
              if_none found
                (raise integrity_error)
                (λ e. lift (match_idempotent_create e (new_intent env g actor chama_id o)))
                (fresh landed earlier))
      existing none there = raised _ _
      existing (some e) there = found-Repeats env landed earlier e may there

  saved-Repeats :
      (env : Env) (db : Db) (earlier : List Db)
      → authorize_order actor chama_id o db ≡ ok tt
      → Repeats (
        ok (new_intent env g actor chama_id o),
        fresh (add_intent (new_intent env g actor chama_id o) db) (db ∷ earlier),
      )
  unfolding add_intent
  saved-Repeats env db earlier may i u h env' =
      let intent = new_intent env g actor chama_id o in
      subst (λ (p : Result PaymentIntent × Session). create env' g actor chama_id o p.1 ≡ p) h
        (create-found env' env' (add_intent intent db) (db ∷ earlier) intent intent
          (may_again (intent ∷ db.intents) db may) (key_there env db)
          (match_idempotent_create_refl env env' g actor chama_id o))

  insert-Repeats :
      (env : Env) (db : Db) (earlier : List Db)
      → authorize_order actor chama_id o db ≡ ok tt
      → Repeats (insert_intent env (new_intent env g actor chama_id o) (fresh db earlier))
  unfolding insert_intent ◌>>=◌ land_intents modify commit
  insert-Repeats env db earlier may =
      let landed = with_intents env.concurrent_intents db in
      let may_still = may_again (env.concurrent_intents ++ db.intents) db may in
      elim (Bool-cases (intent_refused (new_intent env g actor chama_id o) landed)) [
        | inl refused ↦ rw refused (recover-Repeats env landed earlier may_still)
        | inr accepted ↦ rw accepted (saved-Repeats env landed earlier may_still)
      ]

  create-Repeats :
      (env : Env) (db : Db) (earlier : List Db)
      → Repeats (create env g actor chama_id o (fresh db earlier))
  unfolding create if_none
  create-Repeats env db earlier =
      reading (query (authorize_order actor chama_id o)) _ (fresh db earlier) Repeats refl
        (λ e. raised e _)
        λ allowed may.
          reading (gets (get_by_idempotency_key chama_id o.idempotency_key)) _ (fresh db earlier)
            Repeats refl (λ e. raised e _) λ found there. existing may found (ok-injective there)
    where
      existing :
          authorize_order actor chama_id o db ≡ ok tt
          → (found : Option PaymentIntent)
          → get_by_idempotency_key chama_id o.idempotency_key db ≡ found
          → Repeats (
              if_none found
                (insert_intent env (new_intent env g actor chama_id o))
                (λ e. lift (match_idempotent_create e (new_intent env g actor chama_id o)))
                (fresh db earlier))
      existing may none there = insert-Repeats env db earlier may
      existing may (some e) there = found-Repeats env db earlier e may there

-- Where creating an intent, from a session at its start, returned an intent, also after losing a race to
-- another session, the same order by the same user returns it again and changes nothing, at any later
-- time and with any new ids.
pub create_retry :
    (env env' : Env) (g : Gateway) (actor : User) (chama_id : ℕ) (o : Order) (db : Db)
    (earlier : List Db) (i : PaymentIntent) (u : Session)
    → create env g actor chama_id o (fresh db earlier) ≡ (ok i, u)
    → create env' g actor chama_id o u ≡ (ok i, u)
create_retry env env' g actor chama_id o db earlier i u h =
    create-Repeats g actor chama_id o env db earlier i u h env'
